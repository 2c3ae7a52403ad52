-- ===== src/P2P/Connections.antt =====
-- src/network/p2p.py: connecting, the frames of a connected peer, and sending.
use blockchain_messaging_pro.Common.{
  ℕ, suc, Bool, false, Option, none, some, [], ◌∷◌, Str, Bytes, str_eq, if◌then◌else◌, Result, ok,
  err,
}
use blockchain_messaging_pro.Common.Dict
use blockchain_messaging_pro.Common.Dict.{Dict}
use blockchain_messaging_pro.Frame.{
  ProtocolFrame, ping, data_frame, close, data_of, pong_frame, to_bytes,
}
use blockchain_messaging_pro.Message.{MessagePayload}
use blockchain_messaging_pro.Message.Packing.{Codecs, message_to_bytes, message_from_bytes}
use blockchain_messaging_pro.Peers.{Peer}
use blockchain_messaging_pro.P2P.{
  P2PNode, close_socket, attach, mark_seen, connection_for, read_frame, transmit, send_frame,
  perform_handshake, receive_handshake,
}

module _ (k : Codecs) (accepts : ℕ → Bytes → Bool) where
  -- `opened` is the WebSocket of `websockets.connect`, or none where it raises; an exception of the
  -- handshake leaves the WebSocket open
  unfoldable pub connect_to_peer :
      P2PNode → Option ℕ → Str → ℕ → ℕ → Option Bytes → Option Bytes → P2PNode × Option Peer
  connect_to_peer s none host port now first second = (s, none)
  connect_to_peer s (some ws) host port now first second =
      let (s', result) = perform_handshake k accepts s ws host port now first second in
      elim result [
        | err e ↦ (s', none)
        | ok none ↦ (close_socket s' ws, none)
        | ok (some p) ↦ (attach s' ws p, some p)
      ]

  -- `_handle_connection` up to its loop over the messages
  unfoldable pub accept_connection :
      P2PNode → ℕ → Str → ℕ → ℕ → Option Bytes → Option Bytes → P2PNode × Option Peer
  accept_connection s ws host port now first second =
      let (s', result) = receive_handshake k accepts s ws host port now first second in
      elim result [ none ↦ (close_socket s' ws, none) | some p ↦ (attach s' ws p, some p) ]

  -- The message is the one that the handlers are called with.
  unfoldable pub process_frame :
      P2PNode → ℕ → ProtocolFrame → Peer → P2PNode × Option MessagePayload
  process_frame s now frame p =
      let s' = mark_seen s now p in
      elim frame.frame_type [
        | ping ↦ elim (Dict.get s'.connections p.id) [
          | none ↦ (s', none)
          | some ws ↦ ((send_frame k accepts s' ws pong_frame).0, none)
        ]
        | data_frame ↦ elim (message_from_bytes k frame.payload) [
          | err e ↦ (s', none)
          | ok m ↦ (s', some m)
        ]
        | close ↦ elim (Dict.get s'.connections p.id) [
          | none ↦ (s', none)
          | some ws ↦ (close_socket s' ws, none)
        ]
        | _ ↦ (s', none)
      ]

  -- one round of `_handle_messages`, which catches every exception
  unfoldable pub handle_input : P2PNode → ℕ → Bytes → Peer → P2PNode × Option MessagePayload
  handle_input s now input p = elim (read_frame (some input)) [
    | err e ↦ (s, none)
    | ok frame ↦ process_frame s now frame p
  ]

  unfoldable pub send_message : P2PNode → MessagePayload → Str → P2PNode × Bool
  send_message s m recipient_id = elim (connection_for s recipient_id) [
    | none ↦ (s, false)
    | some ws ↦ send_frame k accepts s ws (data_of (message_to_bytes k m))
  ]

  -- the loop of `broadcast`, with the number of connections that took the bytes
  unfoldable pub broadcast_loop : P2PNode → Bytes → Dict Str ℕ → P2PNode × ℕ
  broadcast_loop s bytes [] = (s, 0)
  broadcast_loop s bytes ((id, ws) ∷ rest) =
      let (s', took) = transmit k accepts s ws bytes in
      let (s'', n) = broadcast_loop s' bytes rest in (s'', if took then suc n else n)

  -- A frame that cannot be written raises before the loop.
  unfoldable pub broadcast : P2PNode → MessagePayload → P2PNode × Result ℕ
  broadcast s m = elim (to_bytes (data_of (message_to_bytes k m))) [
    | err e ↦ (s, err e)
    | ok bytes ↦ let (s', n) = broadcast_loop s bytes s.connections in (s', ok n)
  ]
