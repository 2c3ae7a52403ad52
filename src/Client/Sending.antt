-- ===== src/Client/Sending.antt =====
-- src/client/client.py: what a message that counts as sent means, and what the chain has of it.
use blockchain_messaging_pro.Common.{
  ℕ, ◌≡◌, refl, sym, ap, ◌∙◌, subst, Bool, true, false, Option, none, some, List, [], ◌∷◌, ◌++◌,
  Str, Bytes, encode, Bool-cases, Option-cases, Result-cases, inl, inr, Result, ok, ok-pair,
  >>=-eq-ok,
}
use blockchain_messaging_pro.Crypto.{Primitives}
use blockchain_messaging_pro.Frame.{ProtocolFrame, data_of, to_bytes}
use blockchain_messaging_pro.Message.{MessagePayload}
use blockchain_messaging_pro.Message.Creation.{create, signed}
use blockchain_messaging_pro.Message.Packing.{Codecs, message_to_bytes}
use blockchain_messaging_pro.P2P.{P2PNode, get_peer, connection_for, transmit, send_frame}
use blockchain_messaging_pro.P2P.Connections
use blockchain_messaging_pro.P2P.Exchange.{logged, send_frame-eq}
use blockchain_messaging_pro.Engine.{Engine, Stamp, record_data, get_shared_secret, protect, send}
use blockchain_messaging_pro.Engine.Sending.{signed_by, text_message, send_body, send_text}
use blockchain_messaging_pro.Client.{Client}
use blockchain_messaging_pro.Client.Calls.{Dialed, reach, text_by, send_message}

-- The last thing that a node has sent is a frame with a message to someone, on the WebSocket that
-- the node has for it.
pub record HasSent (k : Codecs) (id : Str) (node : P2PNode) : Type 0 where
  pub ws : ℕ
  pub message : MessagePayload
  pub bytes : Bytes
  pub earlier : List (ℕ × Bytes)
  pub connected : connection_for node id ≡ some ws
  pub addressed : message.recipient ≡ id
  pub written : to_bytes (data_of (message_to_bytes k message)) ≡ ok bytes
  pub last : node.sent ≡ earlier ++ ((ws, bytes) ∷ [])

not_true : {A : Type 0} {r : A × Bool} {a : A} → r ≡ (a, false) → r.1 ≡ true → ⊥
not_true e sent = cc

module _ (k : Codecs) (accepts : ℕ → Bytes → Bool) where
  send_frame_sent :
      (s : P2PNode) (ws : ℕ) (frame : ProtocolFrame)
      → (send_frame k accepts s ws frame).1 ≡ true
      → (bytes : Bytes) × (to_bytes frame ≡ ok bytes)
        × (send_frame k accepts s ws frame ≡ (logged s ws bytes, true))
  unfolding send_frame transmit
  send_frame_sent s ws frame sent = elim (Result-cases (to_bytes frame)) [
    | inr (x, too_long) ↦
        let e : send_frame k accepts s ws frame ≡ (s, false) = rw (send_frame, too_long) refl in
        absurd (not_true e sent)
    | inl (bytes, written) ↦ elim (Bool-cases (accepts ws bytes)) [
      | inr refused ↦
          let e : send_frame k accepts s ws frame ≡ (s, false) =
            rw (send_frame, written, refused) refl in
          absurd (not_true e sent)
      | inl took ↦ (bytes, written, send_frame-eq k accepts s ws frame bytes written took)
    ]
  ]

  send_message-HasSent :
      (s : P2PNode) (m : MessagePayload) (id : Str)
      → m.recipient ≡ id
      → (Connections.send_message k accepts s m id).1 ≡ true
      → HasSent k id (Connections.send_message k accepts s m id).0
  unfolding Connections.send_message connection_for get_peer
  send_message-HasSent s m id to sent = elim (Option-cases (connection_for s id)) [
    | inl none_open ↦
        let e : Connections.send_message k accepts s m id ≡ (s, false) =
          rw (Connections.send_message, none_open) refl in
        absurd (not_true e sent)
    | inr (ws, found) ↦
        let frame = data_of (message_to_bytes k m) in
        let e : Connections.send_message k accepts s m id ≡ send_frame k accepts s ws frame =
          rw (Connections.send_message, found) refl in
        let (bytes, written, after) = send_frame_sent s ws frame (ap (λ r. r.1) (sym e) ∙ sent) in
        subst (λ r. HasSent k id r.0) (sym (e ∙ after))
          (record {
            ws = ws;
            message = m;
            bytes = bytes;
            earlier = s.sent;
            connected = found;
            addressed = to;
            written = written;
            last = refl;
          })
  ]

  module _ (p : Primitives) where
    send_body-HasSent :
        (s : Engine) (id : Str) (body : Option Bytes × Bytes) (st : Stamp)
        → (send_body k p accepts s id body st).1 ≡ true
        → HasSent k id (send_body k p accepts s id body st).0.node
    unfolding send_body send record_data text_message signed_by signed create
    send_body-HasSent s id body st sent =
        send_message-HasSent s.node (text_message k p accepts s id body st) id refl sent

    send_text-HasSent :
        (s : Engine) (id message : Str) (st : Stamp)
        → (send_text k p accepts s id message true st).1 ≡ true
        → HasSent k id (send_text k p accepts s id message true st).0.node
    unfolding send_text
    send_text-HasSent s id message st sent = elim (Option-cases (get_peer s.node id)) [
      | inl unknown ↦
          let e : send_text k p accepts s id message true st ≡ (s, false) =
            rw (send_text, unknown) refl in
          absurd (not_true e sent)
      | inr (q, known) ↦
          let (s', secret) = get_shared_secret p s q in
          let e : send_text k p accepts s id message true st
              ≡ send_body k p accepts s' id (protect p secret st.nonce (encode message)) st =
            rw (send_text, known) refl in
          subst (λ r. HasSent k id r.0.node) (sym e)
            (send_body-HasSent s' id (protect p secret st.nonce (encode message)) st
              (ap (λ r. r.1) (sym e) ∙ sent))
    ]

    text_by-HasSent :
        (c : Client) (id message : Str) (st : Stamp)
        → (text_by k accepts p c id message st).1 ≡ true
        → (e : Engine) × ((text_by k accepts p c id message st).0.engine ≡ some e)
          × HasSent k id e.node
    unfolding text_by
    text_by-HasSent c id message st sent = elim (Option-cases c.engine) [
      | inl no_engine ↦
          let same : text_by k accepts p c id message st ≡ (c, false) =
            ap
              (λ o. elim o [
                | none ↦ (c, false)
                | some x ↦ (
                  record c { engine = some (send_text k p accepts x id message true st).0 },
                  (send_text k p accepts x id message true st).1,
                )
              ])
              no_engine in
          absurd (not_true same sent)
      | inr (e, has_engine) ↦
          let r = send_text k p accepts e id message true st in
          let same : text_by k accepts p c id message st ≡ (record c { engine = some r.0 }, r.1) =
            ap
              (λ o. elim o [
                | none ↦ (c, false)
                | some x ↦ (
                  record c { engine = some (send_text k p accepts x id message true st).0 },
                  (send_text k p accepts x id message true st).1,
                )
              ])
              has_engine in
          (
            r.0,
            ap (λ x. x.0.engine) same,
            send_text-HasSent e id message st (ap (λ x. x.1) (sym same) ∙ sent),
          )
    ]

    after_reach :
        (reached : Bool) (c c' : Client) (id message : Str) (st : Stamp)
        → ◌≡◌ {A = Result (Client × Bool)}
            (elim reached [
              | false ↦ ok (c, false)
              | true ↦ ok (text_by k accepts p c id message st)
            ])
            (ok (c', true))
        → (e : Engine) × (c'.engine ≡ some e) × HasSent k id e.node
    after_reach false c c' id message st returned = let (same, differ) = ok-pair returned in cc
    after_reach true c c' id message st returned =
        let (same, sent) = ok-pair returned in
        let (e, found, has) = text_by-HasSent c id message st sent in
        (e, ap (λ x. x.engine) (sym same) ∙ found, has)

    -- When `send_message` returns true, the client has a node that holds a connection for the
    -- recipient, and the last thing that went out on it is a frame with a message to the recipient.
    pub send_message_sent :
        (c c' : Client) (id message : Str) (d : Dialed) (st : Stamp)
        → send_message k accepts p c id message d st ≡ ok (c', true)
        → (e : Engine) × (c'.engine ≡ some e) × HasSent k id e.node
    unfolding send_message text_by
    send_message_sent c c' id message d st returned =
        let ((c1, reached), e, after) = >>=-eq-ok (reach k accepts c id d) _ returned in
        after_reach reached c1 c' id message st after
