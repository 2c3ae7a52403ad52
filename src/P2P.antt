-- ===== src/P2P.antt =====
-- src/network/p2p.py: the peer-to-peer node. WebSockets are numbers; what was sent on each and which
-- were closed is logged. Whether a WebSocket takes some bytes is `accepts`, what `recv` gives is an
-- argument (none on a timeout), and the tasks that run at once are calls in some order.
pub mod Exchange
pub mod Delivery
pub mod Listed
pub mod Sends
pub mod Runs
pub mod Connections
use blockchain_messaging_pro.Common.{
  ℕ, ◌+◌, Bool, true, false, Option, none, some, List, [], ◌∷◌, ◌++◌, Str, Bytes, length, str_eq,
  if◌then◌else◌, Result, ok, err, ◌>>=◌, connection_error,
}
use blockchain_messaging_pro.Common.Dict
use blockchain_messaging_pro.Common.Dict.{Dict}
use blockchain_messaging_pro.Crypto.{Wallet, address}
use blockchain_messaging_pro.Frame.{
  handshake, handshake_ack, ping, data_frame, close, ProtocolFrame, to_bytes, from_bytes, data_of,
  pong_frame,
}
use blockchain_messaging_pro.Handshake.{
  HandshakeMessage, HandshakeAck, protocol_version, default_capabilities, handshake_frame,
  handshake_from_frame, ack_frame, ack_from_frame,
}
use blockchain_messaging_pro.Message.{MessagePayload}
use blockchain_messaging_pro.Message.Packing.{Codecs, message_to_bytes, message_from_bytes}
use blockchain_messaging_pro.Peers
use blockchain_messaging_pro.Peers.{
  Peer, PeerManager, authenticated, disconnected, update_state, get_connected,
}

pub record P2PNode : Type 0 where
  pub wallet : Wallet
  pub peer_manager : PeerManager
  pub connections : Dict Str ℕ
  pub running : Bool
  pub sent : List (ℕ × Bytes)
  pub closed : List ℕ

unfoldable pub peer_id : P2PNode → Str
peer_id s = address s.wallet

unfoldable pub get_peer : P2PNode → Str → Option Peer
get_peer s id = Peers.get s.peer_manager id

unfoldable pub get_peers : P2PNode → List Peer
get_peers s = get_connected s.peer_manager

unfoldable pub get_peer_count : P2PNode → ℕ
get_peer_count s = length s.connections

-- `ws.close()`
unfoldable pub close_socket : P2PNode → ℕ → P2PNode
close_socket s ws = record s { closed = s.closed ++ (ws ∷ []) }

-- `self._connections[peer.id] = ws; self.peer_manager.add(peer)`
unfoldable pub attach : P2PNode → ℕ → Peer → P2PNode
attach s ws p = record s {
  connections = Dict.put s.connections p.id ws;
  peer_manager = Peers.add s.peer_manager p;
}

unfoldable pub handle_disconnect : P2PNode → ℕ → Peer → P2PNode
handle_disconnect s now p = record s {
  connections = Dict.remove s.connections p.id;
  peer_manager = (update_state s.peer_manager now p.id disconnected).0;
}

-- `serves` is whether `websockets.serve` returns; `_running` is set before
unfoldable pub start : P2PNode → Bool → P2PNode × Result (Unit {0})
start s serves =
    if s.running
    then (s, ok tt)
    else (record s { running = true }, if serves then ok tt else err connection_error)

unfoldable pub stop : P2PNode → P2PNode
stop s =
    if s.running
    then record s {
      running = false;
      closed = s.closed ++ Dict.values s.connections;
      connections = [];
    }
    else s

-- `update_seen` of the peer
unfoldable pub seen : ℕ → Peer → Peer
seen now p = record p { last_seen = now }

-- The peer manager has the same object under the peer's id.
unfoldable pub mark_seen : P2PNode → ℕ → Peer → P2PNode
mark_seen s now p = elim (Dict.get s.peer_manager.peers p.id) [
  | none ↦ s
  | some q ↦ record s {
    peer_manager = record s.peer_manager {
      peers = Dict.put s.peer_manager.peers p.id (seen now q);
    };
  }
]

-- the connection of `send_message`
unfoldable pub connection_for : P2PNode → Str → Option ℕ
connection_for s recipient_id = elim (Dict.get s.connections recipient_id) [
  | some ws ↦ some ws
  | none ↦ elim (get_peer s recipient_id) [ none ↦ none | some p ↦ Dict.get s.connections p.id ]
]

-- the frame that came with some bytes
unfoldable pub read_frame : Option Bytes → Result ProtocolFrame
read_frame none = err connection_error
read_frame (some input) = do (frame, used) ← from_bytes input; ok frame

unfoldable pub peer_of : HandshakeMessage → Str → ℕ → ℕ → Peer
peer_of their host port now = record {
  id = their.peer_id;
  address = host;
  port = port;
  public_key = some their.signing_key;
  encryption_key = some their.encryption_key;
  state = authenticated;
  last_seen = now;
  name = their.name;
}

unfoldable pub own_handshake : P2PNode → HandshakeMessage
own_handshake s = record {
  version = protocol_version;
  peer_id = peer_id s;
  name = some s.wallet.name;
  signing_key = s.wallet.signing_keys.public_key;
  encryption_key = s.wallet.encryption_keys.public_key;
  capabilities = default_capabilities;
}

unfoldable pub own_ack : P2PNode → HandshakeAck
own_ack s = record { accepted = true; peer_id = peer_id s; reason = none }

module _ (k : Codecs) (accepts : ℕ → Bytes → Bool) where
  -- `ws.send(bytes)`, false where it raises an exception
  unfoldable pub transmit : P2PNode → ℕ → Bytes → P2PNode × Bool
  transmit s ws bytes =
      if accepts ws bytes
      then (record s { sent = s.sent ++ ((ws, bytes) ∷ []) }, true)
      else (s, false)

  unfoldable pub send_frame : P2PNode → ℕ → ProtocolFrame → P2PNode × Bool
  send_frame s ws frame = elim (to_bytes frame) [
    | err e ↦ (s, false)
    | ok bytes ↦ transmit s ws bytes
  ]

  -- whether the awaited frame is an acknowledgment that accepts
  unfoldable pub accepted_in : Option Bytes → Result Bool
  accepted_in input = do
    frame ← read_frame input
    elim frame.frame_type [
      | handshake_ack ↦ do ack ← ack_from_frame k frame; ok ack.accepted
      | _ ↦ ok false
    ]

  -- the end of both handshakes: the acknowledgment is sent, and theirs is awaited
  unfoldable pub confirm : P2PNode → ℕ → Peer → Option Bytes → P2PNode × Result (Option Peer)
  confirm s ws p second =
      let (s', sent) = send_frame s ws (ack_frame k (own_ack s)) in
      elim sent [
        | false ↦ (s', err connection_error)
        | true ↦ (s', do accepted ← accepted_in second; ok (if accepted then some p else none))
      ]

  -- the part of `_perform_handshake` after our handshake is sent
  unfoldable pub answer_handshake :
      P2PNode → ℕ → Str → ℕ → ℕ → ProtocolFrame → Option Bytes → P2PNode × Result (Option Peer)
  answer_handshake s ws host port now frame second = elim frame.frame_type [
    | handshake ↦ elim (handshake_from_frame k frame) [
      | err e ↦ (s, err e)
      | ok their ↦ confirm s ws (peer_of their host port now) second
    ]
    | _ ↦ (s, ok none)
  ]

  unfoldable pub perform_handshake :
      P2PNode → ℕ → Str → ℕ → ℕ → Option Bytes → Option Bytes → P2PNode × Result (Option Peer)
  perform_handshake s ws host port now first second =
      let (s', sent) = send_frame s ws (handshake_frame k (own_handshake s)) in
      elim sent [
        | false ↦ (s', err connection_error)
        | true ↦ elim (read_frame first) [
          | err e ↦ (s', err e)
          | ok frame ↦ answer_handshake s' ws host port now frame second
        ]
      ]

  -- the part of `_receive_handshake` after the first frame
  unfoldable pub welcome :
      P2PNode → ℕ → Str → ℕ → ℕ → ProtocolFrame → Option Bytes → P2PNode × Result (Option Peer)
  welcome s ws host port now frame second = elim frame.frame_type [
    | handshake ↦ elim (handshake_from_frame k frame) [
      | err e ↦ (s, err e)
      | ok their ↦
          let (s', sent) = send_frame s ws (handshake_frame k (own_handshake s)) in
          elim sent [
            | false ↦ (s', err connection_error)
            | true ↦ confirm s' ws (peer_of their host port now) second
          ]
    ]
    | _ ↦ (s, ok none)
  ]

  -- Every exception is caught here.
  unfoldable pub receive_handshake :
      P2PNode → ℕ → Str → ℕ → ℕ → Option Bytes → Option Bytes → P2PNode × Option Peer
  receive_handshake s ws host port now first second = elim (read_frame first) [
    | err e ↦ (s, none)
    | ok frame ↦
        let (s', p) = welcome s ws host port now frame second in
        (s', elim p [ ok q ↦ q | err e ↦ none ])
  ]
