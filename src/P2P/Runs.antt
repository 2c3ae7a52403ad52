-- ===== src/P2P/Runs.antt =====
-- src/network/p2p.py: the node over time. Connections come and go, frames arrive and messages are
-- sent in any order.
use blockchain_messaging_pro.Common.{
  ℕ, inl, inr, Bool, Option, none, some, [], ◌∷◌, Str, Bytes, str_eq, Option-cases, Result-cases,
  Result, ok, err,
}
use blockchain_messaging_pro.Common.Dict
use blockchain_messaging_pro.Common.Dict.{
  Dict, IsUnique, put-IsUnique, remove-IsUnique, get-put, get-remove,
}
use blockchain_messaging_pro.Frame.{
  FrameType, ping, data_frame, close, to_bytes, data_of, pong_frame,
}
use blockchain_messaging_pro.Message.{MessagePayload}
use blockchain_messaging_pro.Message.Packing.{Codecs, message_to_bytes, message_from_bytes}
use blockchain_messaging_pro.Peers.{Peer}
use blockchain_messaging_pro.P2P.{
  P2PNode, close_socket, handle_disconnect, stop, mark_seen, connection_for, read_frame, transmit,
  send_frame, perform_handshake, receive_handshake,
}
use blockchain_messaging_pro.P2P.Connections.{
  connect_to_peer, accept_connection, process_frame, handle_input, send_message, broadcast_loop,
  broadcast,
}
use blockchain_messaging_pro.P2P.Listed.{
  IsListed, IsListed-Same, attach-IsListed, mark_seen-IsListed, handle_disconnect-IsListed,
  stop-IsListed,
}
use blockchain_messaging_pro.P2P.Sends.{
  transmit-Same, send_frame-Same, perform_handshake-Same, receive_handshake-Same,
}

module _ (k : Codecs) (accepts : ℕ → Bytes → Bool) where
  close_socket-IsListed : (s : P2PNode) (ws : ℕ) → IsListed s → IsListed (close_socket s ws)
  unfolding close_socket
  close_socket-IsListed s ws h = h

  connect_to_peer-IsListed :
      (s : P2PNode) (ws : ℕ) (host : Str) (port now : ℕ) (first second : Option Bytes)
      → IsListed s
      → IsListed (connect_to_peer k accepts s (some ws) host port now first second).0
  unfolding connect_to_peer
  connect_to_peer-IsListed s ws host port now first second h =
      let r = perform_handshake k accepts s ws host port now first second in
      let h' =
        IsListed-Same s r.0 (perform_handshake-Same k accepts s ws host port now first second) h in
      elim (Result-cases r.1) [
        | inr (x, e) ↦ rw (connect_to_peer, e) h'
        | inl (found, e) ↦ elim (Option-cases found) [
          | inl f ↦ rw (connect_to_peer, e, f) (close_socket-IsListed r.0 ws h')
          | inr (p, f) ↦ rw (connect_to_peer, e, f) (attach-IsListed r.0 ws p h')
        ]
      ]

  accept_connection-IsListed :
      (s : P2PNode) (ws : ℕ) (host : Str) (port now : ℕ) (first second : Option Bytes)
      → IsListed s
      → IsListed (accept_connection k accepts s ws host port now first second).0
  unfolding accept_connection
  accept_connection-IsListed s ws host port now first second h =
      let r = receive_handshake k accepts s ws host port now first second in
      let h' =
        IsListed-Same s r.0 (receive_handshake-Same k accepts s ws host port now first second) h in
      elim (Option-cases r.1) [
        | inl e ↦ rw (accept_connection, e) (close_socket-IsListed r.0 ws h')
        | inr (p, e) ↦ rw (accept_connection, e) (attach-IsListed r.0 ws p h')
      ]

  by_type :
      (s : P2PNode) (p : Peer) (kind : FrameType) (m : Result MessagePayload)
      (connection : Option ℕ)
      → IsListed s
      → let r : P2PNode × Option MessagePayload = elim kind [
        | ping ↦ elim connection [
          | none ↦ (s, none)
          | some ws ↦ ((send_frame k accepts s ws pong_frame).0, none)
        ]
        | data_frame ↦ elim m [ err e ↦ (s, none) | ok x ↦ (s, some x) ]
        | close ↦ elim connection [ none ↦ (s, none) | some ws ↦ (close_socket s ws, none) ]
        | _ ↦ (s, none)
      ] in
        IsListed r.0
  by_type s p ping m none h = h
  by_type s p ping m (some ws) h =
      IsListed-Same s (send_frame k accepts s ws pong_frame).0
        (send_frame-Same k accepts s ws pong_frame) h
  by_type s p data_frame (err e) connection h = h
  by_type s p data_frame (ok x) connection h = h
  by_type s p close m none h = h
  by_type s p close m (some ws) h = close_socket-IsListed s ws h
  by_type s p _ m connection h = h

  handle_input-IsListed :
      (s : P2PNode) (now : ℕ) (input : Bytes) (p : Peer)
      → IsListed s
      → IsListed (handle_input k accepts s now input p).0
  unfolding handle_input process_frame
  handle_input-IsListed s now input p h = elim (Result-cases (read_frame (some input))) [
    | inr (x, e) ↦ rw (handle_input, e) h
    | inl (frame, e) ↦
        rw (handle_input, e)
          (by_type (mark_seen s now p) p frame.frame_type (message_from_bytes k frame.payload)
            (Dict.get (mark_seen s now p).connections p.id) (mark_seen-IsListed s now p h))
  ]

  send_message-IsListed :
      (s : P2PNode) (m : MessagePayload) (recipient_id : Str)
      → IsListed s
      → IsListed (send_message k accepts s m recipient_id).0
  unfolding send_message
  send_message-IsListed s m recipient_id h = elim (Option-cases (connection_for s recipient_id)) [
    | inl e ↦ rw (send_message, e) h
    | inr (ws, e) ↦
        rw (send_message, e)
          (IsListed-Same s (send_frame k accepts s ws (data_of (message_to_bytes k m))).0
            (send_frame-Same k accepts s ws (data_of (message_to_bytes k m))) h)
  ]

  broadcast_loop-IsListed :
      (d : Dict Str ℕ) (s : P2PNode) (bytes : Bytes)
      → IsListed s
      → IsListed (broadcast_loop k accepts s bytes d).0
  unfolding broadcast_loop
  broadcast_loop-IsListed [] s bytes h = h
  broadcast_loop-IsListed ((id, ws) ∷ d) s bytes h =
      broadcast_loop-IsListed d (transmit k accepts s ws bytes).0 bytes
        (IsListed-Same s (transmit k accepts s ws bytes).0 (transmit-Same k accepts s ws bytes) h)

  broadcast-IsListed :
      (s : P2PNode) (m : MessagePayload) → IsListed s → IsListed (broadcast k accepts s m).0
  unfolding broadcast
  broadcast-IsListed s m h = elim (Result-cases (to_bytes (data_of (message_to_bytes k m)))) [
    | inr (x, e) ↦ rw (broadcast, e) h
    | inl (bytes, e) ↦ rw (broadcast, e) (broadcast_loop-IsListed s.connections s bytes h)
  ]

  -- one call of the node, or one thing that happens to it
  pub data Step (s : P2PNode) : P2PNode → Type 0 where
    dials :
        (ws : ℕ) (host : Str) (port now : ℕ) (first second : Option Bytes)
        → Step s (connect_to_peer k accepts s (some ws) host port now first second).0
    admits :
        (ws : ℕ) (host : Str) (port now : ℕ) (first second : Option Bytes)
        → Step s (accept_connection k accepts s ws host port now first second).0
    hears : (now : ℕ) (input : Bytes) (p : Peer) → Step s (handle_input k accepts s now input p).0
    loses : (now : ℕ) (p : Peer) → Step s (handle_disconnect s now p)
    tells :
        (m : MessagePayload) (recipient_id : Str)
        → Step s (send_message k accepts s m recipient_id).0
    tells_all : (m : MessagePayload) → Step s (broadcast k accepts s m).0
    stops : Step s (stop s)

  pub data Reach (s : P2PNode) : P2PNode → Type 0 where
    here : Reach s s
    next : {t u : P2PNode} → Reach s t → Step t u → Reach s u

  Step-IsListed : {s t : P2PNode} → Step s t → IsListed s → IsListed t
  Step-IsListed {s = s} (dials ws host port now first second) h =
      connect_to_peer-IsListed s ws host port now first second h
  Step-IsListed {s = s} (admits ws host port now first second) h =
      accept_connection-IsListed s ws host port now first second h
  Step-IsListed {s = s} (hears now input p) h = handle_input-IsListed s now input p h
  Step-IsListed {s = s} (loses now p) h = handle_disconnect-IsListed s now p h
  Step-IsListed {s = s} (tells m recipient_id) h = send_message-IsListed s m recipient_id h
  Step-IsListed {s = s} (tells_all m) h = broadcast-IsListed s m h
  Step-IsListed {s = s} stops h = stop-IsListed s h

  -- From a node without connections, or any in which these two hold, every connection belongs to a
  -- peer that the peer manager has, and no peer has two, whatever connects, arrives, is sent and
  -- ends, in any order.
  pub Reach-IsListed : {s t : P2PNode} → IsListed s → Reach s t → IsListed t
  Reach-IsListed h here = h
  Reach-IsListed h (next reach step) = Step-IsListed step (Reach-IsListed h reach)
