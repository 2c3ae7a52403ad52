-- ===== src/Client/Calls.antt =====
-- src/client/client.py: starting and stopping the client, and sending.
use blockchain_messaging_pro.Common.{
  ℕ, Bool, true, false, Option, none, some, List, [], ◌∷◌, ◌++◌, Str, Bytes, codes, str_eq, Result,
  ok, err, ◌>>=◌, runtime_error,
}
use blockchain_messaging_pro.Common.Dict
use blockchain_messaging_pro.Json.{Fields, end}
use blockchain_messaging_pro.Block.{num_at, str_at}
use blockchain_messaging_pro.Chain.State.{Blockchain}
use blockchain_messaging_pro.Crypto.{Wallet, Primitives}
use blockchain_messaging_pro.Engine.{Engine, Stamp}
use blockchain_messaging_pro.Engine.Sending.{send_text}
use blockchain_messaging_pro.Engine.Sending
use blockchain_messaging_pro.Media.{PathFacts}
use blockchain_messaging_pro.Message.Packing.{Codecs}
use blockchain_messaging_pro.Peers.{Peer}
use blockchain_messaging_pro.P2P.{P2PNode, get_peer}
use blockchain_messaging_pro.P2P
use blockchain_messaging_pro.P2P.Connections
use blockchain_messaging_pro.Client.{
  Client, own_chain, of_engine, has_blocks, default_chain, read_chain, save_blockchain,
}

-- `P2PNode(wallet, config)`
unfoldable pub new_node : Wallet → P2PNode
new_node w = record {
  wallet = w;
  peer_manager = record { peers = []; address_index = []; stale_timeout = 300 };
  connections = [];
  running = false;
  sent = [];
  closed = [];
}

-- `TransmissionEngine(wallet, node, blockchain)` for a chain with blocks
unfoldable pub new_engine : Wallet → P2PNode → Blockchain → Engine
new_engine w node b = record {
  wallet = w;
  node = node;
  blockchain = b;
  reassembler = [];
  transfer_manager = record { max_concurrent = 3; transfers = [] };
  received_files = [];
  shared_secrets = [];
  messages = [];
  files = [];
}

-- the end of `start`: `serves` is whether `websockets.serve` returns
unfoldable pub start_engine : Client → Wallet → Engine → Bool → Client × Result (Unit {0})
start_engine c w e serves =
    let (node, started) = P2P.start e.node serves in
    (record c { engine = some (record e { node = node }) }, started)

module _ (k : Codecs) (sha256 : Bytes → Str) (fuel : ℕ) (now : Str) where
  -- the engine of a loaded chain; one without blocks is not handed on, and the engine has its own
  unfoldable pub create_engine : Client → Wallet → Blockchain → Bool → Client × Result (Unit {0})
  create_engine c w b serves = elim (has_blocks b) [
    | true ↦
        start_engine (record c { held_chain = of_engine }) w (new_engine w (new_node w) b) serves
    | false ↦ elim (default_chain k sha256 fuel now) [
      | err x ↦ (c, err x)
      | ok fresh ↦ start_engine c w (new_engine w (new_node w) fresh) serves
    ]
  ]

  -- The part of `start` after its first test: `_running` is set first, and stays set if an exception
  -- follows; the chain is the one that `load_blockchain` has just stored.
  unfoldable pub start_with : Client → Wallet → Bool → Client × Result (Unit {0})
  start_with c w serves = elim c.running [
    | true ↦ (c, ok tt)
    | false ↦
        let c1 : Client = record c { running = true } in
        elim (read_chain k sha256 fuel now c1.blockchain_file) [
          | err x ↦ (c1, err x)
          | ok (b, found) ↦ create_engine (record c1 { held_chain = own_chain b }) w b serves
        ]
  ]

  unfoldable pub start : Client → Bool → Client × Result (Unit {0})
  start c serves = elim c.wallet [ none ↦ (c, err runtime_error) | some w ↦ start_with c w serves ]

-- `await self._p2p_node.stop()`, if there is a node
unfoldable pub stop_node : Client → Client
stop_node c = elim c.engine [
  | none ↦ c
  | some e ↦ record c { engine = some (record e { node = P2P.stop e.node }) }
]

-- `await self._registry_ws.close()`, if there is a connection
unfoldable pub close_registry : Client → Client
close_registry c = elim c.registry_ws [
  | none ↦ c
  | some ws ↦ record c { closed = c.closed ++ (ws ∷ []) }
]

unfoldable pub stop : Client → Client
stop c = elim c.running [
  | false ↦ c
  | true ↦ save_blockchain (close_registry (stop_node (record c { running = false })))
]

unfoldable pub get_connected_peers : Client → List Peer
get_connected_peers c = elim c.engine [ none ↦ [] | some e ↦ P2P.get_peers e.node ]

-- What a connection to a peer brings: the WebSocket, if it opens, the time, and the two answers.
pub record Dialed : Type 0 where
  pub opened : Option ℕ
  pub now : ℕ
  pub first : Option Bytes
  pub second : Option Bytes

-- the result of the node's `connect_to_peer`
unfoldable pub with_peer : Client → Engine → P2PNode × Option Peer → Client × Option Peer
with_peer c e (node, p) = (record c { engine = some (record e { node = node }) }, p)

module _ (k : Codecs) (accepts : ℕ → Bytes → Bool) where
  unfoldable pub dial : Client → Engine → Fields → Dialed → Result (Client × Option Peer)
  dial c e info d = do
    host ← str_at info (codes "address")
    port ← num_at info (codes "port")
    ok (
        with_peer c e
          (Connections.connect_to_peer k accepts e.node d.opened host port d.now d.first d.second))

  unfoldable pub connect_to_peer : Client → Str → Dialed → Result (Client × Option Peer)
  connect_to_peer c peer_id d = elim c.engine [
    | none ↦ err runtime_error
    | some e ↦ elim (Dict.get c.peers peer_id) [
      | none ↦ ok (c, none)
      | some end ↦ ok (c, none)
      | some info ↦ dial c e info d
    ]
  ]

  -- the beginning of `send_message` and `send_file`: a peer that is not connected is dialed
  unfoldable pub reach : Client → Str → Dialed → Result (Client × Bool)
  reach c recipient_id d = elim c.engine [
    | none ↦ err runtime_error
    | some e ↦ elim (get_peer e.node recipient_id) [
      | some p ↦ ok (c, true)
      | none ↦ do
        (c', p) ← connect_to_peer c recipient_id d
        ok (c', elim p [ none ↦ false | some q ↦ true ])
    ]
  ]

  module _ (p : Primitives) where
    unfoldable pub text_by : Client → Str → Str → Stamp → Client × Bool
    text_by c recipient_id message st = elim c.engine [
      | none ↦ (c, false)
      | some e ↦
          let (e', sent) = send_text k p accepts e recipient_id message true st in
          (record c { engine = some e' }, sent)
    ]

    unfoldable pub send_message : Client → Str → Str → Dialed → Stamp → Result (Client × Bool)
    send_message c recipient_id message d st = do
      (c', reached) ← reach c recipient_id d
      elim reached [ false ↦ ok (c', false) | true ↦ ok (text_by c' recipient_id message st) ]

    unfoldable pub file_by :
        (Bytes → Str)
        → Client
        → Str
        → PathFacts
        → Str
        → (ℕ → Stamp)
        → Stamp
        → Stamp
        → Client × Option Str
    file_by sha256 c recipient_id path id stamps first last = elim c.engine [
      | none ↦ (c, none)
      | some e ↦
          let (e', sent) =
            Sending.send_file k p accepts sha256 e recipient_id path true id stamps first last in
          (record c { engine = some e' }, sent)
    ]

    unfoldable pub send_file :
        (Bytes → Str)
        → Client
        → Str
        → PathFacts
        → Dialed
        → Str
        → (ℕ → Stamp)
        → Stamp
        → Stamp
        → Result (Client × Option Str)
    send_file sha256 c recipient_id path d id stamps first last = do
      (c', reached) ← reach c recipient_id d
      elim reached [
        | false ↦ ok (c', none)
        | true ↦ ok (file_by sha256 c' recipient_id path id stamps first last)
      ]
