-- ===== src/Engine/Texts.antt =====
-- A text that one engine sends to another.
use blockchain_messaging_pro.Common.{
  ℕ, ◌≡◌, ◌≢◌, refl, sym, ap, ◌∙◌, subst, ◌≤◌, length, arith, inr, Bool, true, none, some, [], ◌∷◌,
  ◌++◌, Str, Bytes, encode, ok,
}
use blockchain_messaging_pro.Common.Dict.{Dict}
use blockchain_messaging_pro.Crypto.{Wallet, Primitives}
use blockchain_messaging_pro.Crypto.Laws.{Agree, nonce_size, max_plain}
use blockchain_messaging_pro.Frame.{data_of}
use blockchain_messaging_pro.Chain.State.{add_data}
use blockchain_messaging_pro.Message.{MessagePayload, text, to_dict, get_signable_content}
use blockchain_messaging_pro.Message.Creation.{create, signed}
use blockchain_messaging_pro.Message.RoundTrip.{without_empty_nonce}
use blockchain_messaging_pro.Message.Packing.{Codecs, IsBase64, message_to_bytes}
use blockchain_messaging_pro.Peers.{Peer}
use blockchain_messaging_pro.P2P.{P2PNode, get_peer, connection_for, seen, mark_seen}
use blockchain_messaging_pro.P2P.Connections.{send_message, handle_input}
use blockchain_messaging_pro.P2P.Exchange.{Travels, logged}
use blockchain_messaging_pro.P2P.Delivery.{handle_input-send_message}
use blockchain_messaging_pro.Engine.{
  Engine, Stamp, given, record_data, send, protect, opened, open_content,
}
use blockchain_messaging_pro.Engine.Secrets.{
  secret_with, with_secrets, Trusts, get_shared_secret_trusted, protect_secret, opened_secret,
  open_content_keeps, open_content-eq-opened,
}
use blockchain_messaging_pro.Engine.Sending.{
  signed_by, text_message, message_data, name_field, send_body, send_text,
}
use blockchain_messaging_pro.Engine.Receiving.{
  received_text, acknowledge, take_text, handle_text_message, dispatch, handle_incoming, receive,
}

-- A nonce of the cipher is not empty.
pub sized : (n : Bytes) → length n ≡ nonce_size → n ≢ []
sized [] h e = absurd (omega (arith, h))
sized (x ∷ xs) h e = cc

without_nonce :
    (m : MessagePayload) (n : Bytes)
    → n ≢ []
    → without_empty_nonce (record m { nonce = some n }) ≡ record m { nonce = some n }
without_nonce m [] h = absurd (h refl)
without_nonce m (x ∷ xs) h = refl

module _ (k : Codecs) (c : Primitives) (accepts : ℕ → Bytes → Bool) where
  -- the log of texts after a text that can be opened and decoded
  handle_text-messages :
      (s : Engine) (m : MessagePayload) (p : Peer) (st : Stamp) (plain : Bytes) (t : Str)
      → (open_content c s p m).1 ≡ inr plain
      → k.decode plain ≡ some t
      → (handle_text_message k c accepts s m p true st).messages
        ≡ s.messages ++ (received_text m t true ∷ [])
  unfolding handle_text_message take_text acknowledge send record_data
  handle_text-messages s m p st plain t opens decodes =
      let (d, keeps) = open_content_keeps c s p m in
      rw (handle_text_message, opens, decodes)
        (ap (λ r. r.messages ++ (received_text m t true ∷ [])) keeps)

  handle_incoming-text :
      (sha256 : Bytes → Str) (s : Engine) (m : MessagePayload) (p : Peer) (st : Stamp)
      (key plain : Bytes) (t : Str)
      → m.kind ≡ text
      → given p.public_key ≡ some key
      → c.verify_signature (get_signable_content k.b64encode m) m.signature key ≡ true
      → (open_content c s p m).1 ≡ inr plain
      → k.decode plain ≡ some t
      → (handle_incoming k c accepts sha256 s m p st).messages
        ≡ s.messages ++ (received_text m t true ∷ [])
  unfolding handle_incoming dispatch received_text
  handle_incoming-text sha256 s m p st key plain t kind known verified opens decodes =
      rw (handle_incoming, known, verified, dispatch, kind, verified)
        (handle_text-messages s m p st plain t opens decodes)

  pub signed_by-verifies :
      (s : Engine) (other : Wallet) (m : MessagePayload)
      → Agree c s.wallet other
      → c.verify_signature
          (get_signable_content k.b64encode (signed_by k c accepts s m))
          (signed_by k c accepts s m).signature
          s.wallet.signing_keys.public_key
        ≡ true
  unfolding signed_by signed get_signable_content
  signed_by-verifies s other m agree = agree.signs (get_signable_content k.b64encode m)

  -- the message that carries a text to the other wallet
  abbrev pub sealed_text : Engine → Wallet → Str → Str → Stamp → MessagePayload
  sealed_text a other recipient_id message st =
      text_message k c accepts a recipient_id
        (some st.nonce, c.encrypt (secret_with c a.wallet other) st.nonce (encode message)) st

  module _ (a b : Engine) (q p : Peer) (recipient_id message : Str) (st st' : Stamp) (ws : ℕ)
      (bytes : Bytes) where
    module _ (found : connection_for a.node recipient_id ≡ some ws)
        (travels : Travels
          (data_of (message_to_bytes k (sealed_text a b.wallet recipient_id message st)))
          bytes)
        (took : accepts ws bytes ≡ true) (b64 : IsBase64 k)
        (unpacks : k.unpackb
            (k.packb (to_dict k.b64encode (sealed_text a b.wallet recipient_id message st)))
          ≡ ok (to_dict k.b64encode (sealed_text a b.wallet recipient_id message st))) where
      exchanged :
          (t : P2PNode)
          → (send_message k accepts a.node
                (sealed_text a b.wallet recipient_id message st)
                recipient_id
              ≡ (logged a.node ws bytes, true))
            × (handle_input k accepts t st'.ticks bytes p ≡ (
              mark_seen t st'.ticks p,
              some (without_empty_nonce (sealed_text a b.wallet recipient_id message st)),
            ))
      exchanged t =
          handle_input-send_message k accepts a.node t
            (sealed_text a b.wallet recipient_id message st) recipient_id p ws st'.ticks bytes found
            travels took b64 unpacks

      send_body_sealed :
          (d : Dict Str Bytes)
          → send_body k c accepts
              (with_secrets a d)
              recipient_id
              (some st.nonce, c.encrypt (secret_with c a.wallet b.wallet) st.nonce (encode message))
              st
            ≡ (
              record (record_data
                  (with_secrets a d)
                  (message_data (sealed_text a b.wallet recipient_id message st))) {
                    node = logged a.node ws bytes;
                  },
              true,
            )
      unfolding send_body send text_message signed_by name_field record_data
      send_body_sealed d =
          ap
            (λ r. (
              record (record_data (with_secrets a d)
                  (message_data (sealed_text a b.wallet recipient_id message st))) { node = r.0 },
              r.1,
            ))
            (exchanged a.node).0

      send_text-eq :
          get_peer a.node recipient_id ≡ some q
          → Trusts c a q b.wallet
          → Agree c a.wallet b.wallet
          → (d : Dict Str Bytes) × (send_text k c accepts a recipient_id message true st ≡ (
            record (record_data
                (with_secrets a d)
                (message_data (sealed_text a b.wallet recipient_id message st))) {
                  node = logged a.node ws bytes;
                },
            true,
          ))
      unfolding send_text
      send_text-eq peer trusts agree =
          let (d, e) = get_shared_secret_trusted c a q b.wallet trusts in
          let body =
            protect_secret c (secret_with c a.wallet b.wallet) st.nonce (encode message)
              agree.not_empty in
          (
            d,
            rw (send_text, peer) refl
                ∙ ap
                    (λ r.
                      send_body k c accepts r.0 recipient_id
                        (protect c r.1 st.nonce (encode message)) st)
                    e
                ∙ ap (λ r. send_body k c accepts (with_secrets a d) recipient_id r st) body
                ∙ send_body_sealed d,
          )

      sends_text :
          get_peer a.node recipient_id ≡ some q
          → Trusts c a q b.wallet
          → Agree c a.wallet b.wallet
          → ((send_text k c accepts a recipient_id message true st).1 ≡ true)
            × ((send_text k c accepts a recipient_id message true st).0.node.sent
                ≡ a.node.sent ++ ((ws, bytes) ∷ []))
            × ((send_text k c accepts a recipient_id message true st).0.blockchain
                ≡ (add_data a.blockchain
                    (message_data (sealed_text a b.wallet recipient_id message st))).0)
      unfolding record_data
      sends_text peer trusts agree =
          let (d, whole) = send_text-eq peer trusts agree in
          (ap (λ r. r.1) whole, ap (λ r. r.0.node.sent) whole, ap (λ r. r.0.blockchain) whole)

      receives_text :
          Trusts c b p a.wallet
          → Agree c a.wallet b.wallet
          → length st.nonce ≡ nonce_size
          → length (encode message) ≤ max_plain
          → k.decode (encode message) ≡ some message
          → (sha256 : Bytes → Str)
          → (receive k c accepts sha256 b bytes p st').messages
            ≡ b.messages
              ++ (received_text (sealed_text a b.wallet recipient_id message st) message true ∷ [])
      unfolding receive text_message signed_by signed create received_text seen
      receives_text trusts agree size short decodes sha256 =
          let nonce = sized st.nonce size in
          let m = sealed_text a b.wallet recipient_id message st in
          let b' : Engine = record b { node = mark_seen b.node st'.ticks p } in
          let same = without_nonce m st.nonce nonce in
          let trusts' : Trusts c b' (seen st'.ticks p) a.wallet = record {
            signing = trusts.signing;
            encryption = trusts.encryption;
            cached = trusts.cached;
          } in
          let (d, e) = get_shared_secret_trusted c b' (seen st'.ticks p) a.wallet trusts' in
          let key = secret_with c b.wallet a.wallet in
          let not_empty : key ≢ [] = subst (λ x. x ≢ []) agree.shared agree.not_empty in
          let opens : (open_content c b' (seen st'.ticks p) m).1 ≡ inr (encode message) =
            open_content-eq-opened c b' (seen st'.ticks p) m
            ∙ ap (λ r. opened c r.1 m) e
            ∙ opened_secret c m key st.nonce refl nonce not_empty
            ∙ ap (λ x. c.decrypt_message m.content x st.nonce) (sym agree.shared)
            ∙ agree.decrypts st.nonce (encode message) size short in
          let p' = seen st'.ticks p in
          ap
            (λ r.
              let after : Engine = elim r.1 [
                | none ↦ record b { node = r.0 }
                | some x ↦ handle_incoming k c accepts sha256 (record b { node = r.0 }) x p' st'
              ] in
              after.messages)
            (exchanged b.node).1
          ∙ ap (λ x. (handle_incoming k c accepts sha256 b' x p' st').messages) same
          ∙ handle_incoming-text sha256 b' m p' st' a.wallet.signing_keys.public_key
              (encode message) message refl trusts.signing
              (signed_by-verifies a b.wallet (record m { signature = [] }) agree) opens decodes

      -- A text that `a` sends encrypted to a peer on a connection that takes the frame goes out as one
      -- frame, is given to the chain as data, and the engine `b` that reads the frame, if its peer has
      -- the keys of `a`, hands its callbacks exactly this text as verified. The two wallets agree on
      -- the primitives, kept secrets are right, the nonce has 12 bytes and the text less than 2 GB,
      -- the frame keeps the size limit, and base64, MessagePack and UTF-8 read back what they wrote.
      pub text_arrives :
          get_peer a.node recipient_id ≡ some q
          → Trusts c a q b.wallet
          → Trusts c b p a.wallet
          → Agree c a.wallet b.wallet
          → length st.nonce ≡ nonce_size
          → length (encode message) ≤ max_plain
          → k.decode (encode message) ≡ some message
          → (sha256 : Bytes → Str)
          → ((send_text k c accepts a recipient_id message true st).1 ≡ true)
            × ((send_text k c accepts a recipient_id message true st).0.node.sent
                ≡ a.node.sent ++ ((ws, bytes) ∷ []))
            × ((send_text k c accepts a recipient_id message true st).0.blockchain
                ≡ (add_data a.blockchain
                    (message_data (sealed_text a b.wallet recipient_id message st))).0)
            × ((receive k c accepts sha256 b bytes p st').messages
                ≡ b.messages
                  ++ (received_text (sealed_text a b.wallet recipient_id message st) message true
                      ∷ []))
      text_arrives peer trusts_q trusts_p agree size short decodes sha256 =
          let (sent, log, recorded) = sends_text peer trusts_q agree in
          (sent, log, recorded, receives_text trusts_p agree size short decodes sha256)
