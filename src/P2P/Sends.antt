-- ===== src/P2P/Sends.antt =====
-- src/network/p2p.py: sending, and the handshakes, leave the connections and the peers alone.
use blockchain_messaging_pro.Common.{
  ℕ, refl, inl, inr, Bool, true, false, Option, none, Str, Bytes, str_eq, Bool-cases, Result-cases,
  Result, ok, err, connection_error,
}
use blockchain_messaging_pro.Frame.{FrameType, handshake, ProtocolFrame, to_bytes}
use blockchain_messaging_pro.Handshake.{
  HandshakeMessage, handshake_frame, handshake_from_frame, ack_frame,
}
use blockchain_messaging_pro.Message.Packing.{Codecs}
use blockchain_messaging_pro.Peers.{Peer}
use blockchain_messaging_pro.P2P.{
  P2PNode, read_frame, peer_of, own_handshake, own_ack, transmit, send_frame, confirm,
  answer_handshake, perform_handshake, welcome, receive_handshake,
}
use blockchain_messaging_pro.P2P.Listed.{Same, trans_Same}

module _ (k : Codecs) (accepts : ℕ → Bytes → Bool) where
  pub transmit-Same :
      (s : P2PNode) (ws : ℕ) (bytes : Bytes) → Same s (transmit k accepts s ws bytes).0
  unfolding transmit
  transmit-Same s ws bytes = elim (Bool-cases (accepts ws bytes)) [
    | inl e ↦ rw (transmit, e) (refl, refl)
    | inr e ↦ rw (transmit, e) (refl, refl)
  ]

  pub send_frame-Same :
      (s : P2PNode) (ws : ℕ) (frame : ProtocolFrame) → Same s (send_frame k accepts s ws frame).0
  unfolding send_frame
  send_frame-Same s ws frame = elim (Result-cases (to_bytes frame)) [
    | inl (bytes, e) ↦ rw (send_frame, e) (transmit-Same s ws bytes)
    | inr (x, e) ↦ rw (send_frame, e) (refl, refl)
  ]

  confirm-Same :
      (s : P2PNode) (ws : ℕ) (p : Peer) (input : Option Bytes)
      → Same s (confirm k accepts s ws p input).0
  unfolding confirm
  confirm-Same s ws p input =
      let h = send_frame-Same s ws (ack_frame k (own_ack s)) in
      elim (Bool-cases (send_frame k accepts s ws (ack_frame k (own_ack s))).1) [
        | inl e ↦ rw (confirm, e) h
        | inr e ↦ rw (confirm, e) h
      ]

  -- the frame of the other side, of whichever type
  answer-Same :
      (s : P2PNode) (ws : ℕ) (host : Str) (port now : ℕ) (kind : FrameType)
      (hello : Result HandshakeMessage) (second : Option Bytes)
      → let r : P2PNode × Result (Option Peer) = elim kind [
        | handshake ↦ elim hello [
          | err e ↦ (s, err e)
          | ok their ↦ confirm k accepts s ws (peer_of their host port now) second
        ]
        | _ ↦ (s, ok none)
      ] in
        Same s r.0
  answer-Same s ws host port now handshake (ok x) second =
      confirm-Same s ws (peer_of x host port now) second
  answer-Same s ws host port now handshake (err e) second = (refl, refl)
  answer-Same s ws host port now _ hello second = (refl, refl)

  pub perform_handshake-Same :
      (s : P2PNode) (ws : ℕ) (host : Str) (port now : ℕ) (first second : Option Bytes)
      → Same s (perform_handshake k accepts s ws host port now first second).0
  unfolding perform_handshake answer_handshake
  perform_handshake-Same s ws host port now first second =
      let hello = handshake_frame k (own_handshake s) in
      let s' = (send_frame k accepts s ws hello).0 in
      let h = send_frame-Same s ws hello in
      elim (Bool-cases (send_frame k accepts s ws hello).1) [
        | inr e ↦ rw (perform_handshake, e) h
        | inl e ↦ elim (Result-cases (read_frame first)) [
          | inr (x, f) ↦ rw (perform_handshake, e, f) h
          | inl (frame, f) ↦
              rw (perform_handshake, e, f)
                (trans_Same s s' (answer_handshake k accepts s' ws host port now frame second).0 h (
                  answer-Same s' ws host port now frame.frame_type (handshake_from_frame k frame)
                    second))
        ]
      ]

  greet-Same :
      (s : P2PNode) (ws : ℕ) (p : Peer) (second : Option Bytes)
      → let sent = send_frame k accepts s ws (handshake_frame k (own_handshake s)) in
        let r : P2PNode × Result (Option Peer) = elim sent.1 [
          | false ↦ (sent.0, err connection_error)
          | true ↦ confirm k accepts sent.0 ws p second
        ] in
        Same s r.0
  greet-Same s ws p second =
      let hello = handshake_frame k (own_handshake s) in
      let s' = (send_frame k accepts s ws hello).0 in
      let h = send_frame-Same s ws hello in
      elim (Bool-cases (send_frame k accepts s ws hello).1) [
        | inr e ↦ rw (e) h
        | inl e ↦
            rw (e)
              (trans_Same s s' (confirm k accepts s' ws p second).0 h (confirm-Same s' ws p second))
      ]

  welcome-Same :
      (s : P2PNode) (ws : ℕ) (host : Str) (port now : ℕ) (kind : FrameType)
      (hello : Result HandshakeMessage) (second : Option Bytes)
      → let sent = send_frame k accepts s ws (handshake_frame k (own_handshake s)) in
        let r : P2PNode × Result (Option Peer) = elim kind [
          | handshake ↦ elim hello [
            | err e ↦ (s, err e)
            | ok their ↦ elim sent.1 [
              | false ↦ (sent.0, err connection_error)
              | true ↦ confirm k accepts sent.0 ws (peer_of their host port now) second
            ]
          ]
          | _ ↦ (s, ok none)
        ] in
        Same s r.0
  welcome-Same s ws host port now handshake (ok x) second =
      greet-Same s ws (peer_of x host port now) second
  welcome-Same s ws host port now handshake (err e) second = (refl, refl)
  welcome-Same s ws host port now _ hello second = (refl, refl)

  pub receive_handshake-Same :
      (s : P2PNode) (ws : ℕ) (host : Str) (port now : ℕ) (first second : Option Bytes)
      → Same s (receive_handshake k accepts s ws host port now first second).0
  unfolding receive_handshake welcome
  receive_handshake-Same s ws host port now first second = elim (Result-cases (read_frame first)) [
    | inr (x, e) ↦ rw (receive_handshake, e) (refl, refl)
    | inl (frame, e) ↦
        rw (receive_handshake, e)
          (welcome-Same s ws host port now frame.frame_type (handshake_from_frame k frame) second)
  ]
