-- ===== src/Engine/Transfers.antt =====
-- src/engine/engine.py: a file from the engine that sends it to the engine that receives it.
use blockchain_messaging_pro.Common.{
  ℕ, suc, ◌+◌, ◌≤◌, ◌≡◌, ◌≢◌, refl, sym, ap, ◌∙◌, subst, inr, Bool, true, Option, none, some, List,
  [], ◌∷◌, ◌++◌, Str, Bytes, length, arith,
}
use blockchain_messaging_pro.Json.{get_field, truthy}
use blockchain_messaging_pro.Crypto.{Primitives}
use blockchain_messaging_pro.Crypto.Laws.{Agree, nonce_size, max_plain}
use blockchain_messaging_pro.Media.{
  MediaInfo, MediaFile, info_to_dict, to_media_info, get_chunk_size, read_chunks,
}
use blockchain_messaging_pro.Media.Reading.{Within, read_chunks-Within, read_chunks-to_media_info}
use blockchain_messaging_pro.Media.RoundTrip.{info_from_dict-to_dict}
use blockchain_messaging_pro.Media.Transfer.{
  MediaTransfer, sends, receives, completed, new_transfer, start, complete, add_chunk,
}
use blockchain_messaging_pro.Message.{MessagePayload}
use blockchain_messaging_pro.Message.Creation.{create, signed}
use blockchain_messaging_pro.Message.Packing.{Codecs}
use blockchain_messaging_pro.Peers.{Peer}
use blockchain_messaging_pro.Engine.{Engine, Stamp, ReceivedMedia, get_transfer, given, opened}
use blockchain_messaging_pro.Engine.Secrets.{
  secret_with, Trusts, get_shared_secret_trusted, protect_secret, opened_secret,
}
use blockchain_messaging_pro.Engine.Sending.{
  name_field, signed_by, file_message, chunk_message, complete_message,
}
use blockchain_messaging_pro.Engine.Receiving.{
  transfer_id_of, media_info_of, received_media, dispatch, handle_incoming,
}
use blockchain_messaging_pro.Engine.Texts.{sized, signed_by-verifies}
use blockchain_messaging_pro.Engine.Files.{
  add_blocks, add_blocks_lem, Downloads, handle_file_start-Downloads, handle_file_chunk-Downloads,
  handle_file_complete-whole,
}

zero_add : (n : ℕ) → 0 + n ≡ n
zero_add n = omega arith

-- the test of a transfer's id
abbrev transfer_id_text : Str → Option Str
transfer_id_text t = elim t [ [] ↦ none | x ∷ xs ↦ some (x ∷ xs) ]

named_text : (id : Str) → id ≢ [] → transfer_id_text id ≡ some id
named_text [] h = absurd (h refl)
named_text (x ∷ xs) h = refl

module _ (k : Codecs) (c : Primitives) (accepts : ℕ → Bytes → Bool) (sha256 : Bytes → Str) where
  -- the messages of these blocks, as `_send_file_chunks` makes them from block `i` on
  abbrev pub chunk_messages :
      Engine
      → Str
      → MediaTransfer
      → Option Bytes
      → (ℕ → Stamp)
      → ℕ
      → List Bytes
      → List MessagePayload
  chunk_messages a recipient_id t secret stamps i [] = []
  chunk_messages a recipient_id t secret stamps i (block ∷ blocks) =
      chunk_message k c accepts a recipient_id t secret i block (stamps i)
      ∷ chunk_messages a recipient_id t secret stamps (suc i) blocks

  -- the engine after it has handled these messages, in order
  abbrev pub hear : Engine → Peer → (ℕ → Stamp) → ℕ → List MessagePayload → Engine
  hear s p stamps i [] = s
  hear s p stamps i (m ∷ ms) =
      hear (handle_incoming k c accepts sha256 s m p (stamps i)) p stamps (suc i) ms

  module _ (a : Engine) (p : Peer) (recipient_id id : Str) (agrees : Engine)
      (known : given p.public_key ≡ some a.wallet.signing_keys.public_key)
      (agree : Agree c a.wallet agrees.wallet) (named : id ≢ []) where
    heard :
        (s : Engine) (m : MessagePayload) (st : Stamp)
        → handle_incoming k c accepts sha256 s (signed_by k c accepts a m) p st
          ≡ dispatch k c accepts sha256 s (signed_by k c accepts a m) p true st
    unfolding handle_incoming
    heard s m st =
        rw (handle_incoming, known, signed_by-verifies k c accepts a agrees.wallet m agree) refl

    file_message-id :
        (info : MediaInfo) (st : Stamp)
        → transfer_id_of (file_message k c accepts a recipient_id id info st) ≡ some id
    unfolding transfer_id_of file_message signed_by signed create name_field get_field
    file_message-id info st = named_text id named

    file_message-info :
        (info : MediaInfo) (st : Stamp)
        → media_info_of (file_message k c accepts a recipient_id id info st) ≡ some info
    unfolding media_info_of file_message signed_by signed create name_field get_field truthy
        info_to_dict
    file_message-info info st = rw (info_from_dict-to_dict info) refl

    chunk_message-id :
        (t : MediaTransfer) (secret : Option Bytes) (i : ℕ) (block : Bytes) (st : Stamp)
        → t.id ≡ id
        → transfer_id_of (chunk_message k c accepts a recipient_id t secret i block st) ≡ some id
    unfolding transfer_id_of chunk_message signed_by signed create get_field
    chunk_message-id t secret i block st e =
        subst (λ x. transfer_id_text x ≡ some id) (sym e) (named_text id named)

    chunk_message-opened :
        (t : MediaTransfer) (i : ℕ) (block : Bytes) (st : Stamp)
        → length st.nonce ≡ nonce_size
        → length block ≤ max_plain
        → let secret = secret_with c a.wallet agrees.wallet in
          opened c
            (some secret)
            (chunk_message k c accepts a recipient_id t (some secret) i block st)
          ≡ inr block
    unfolding chunk_message signed_by signed create
    chunk_message-opened t i block st n short =
        let secret = secret_with c a.wallet agrees.wallet in
        let m = chunk_message k c accepts a recipient_id t (some secret) i block st in
        let e = protect_secret c secret st.nonce block agree.not_empty in
        opened_secret c m secret st.nonce (ap (λ r. r.0) e) (sized st.nonce n) agree.not_empty
        ∙ ap (λ r. c.decrypt_message r.1 secret st.nonce) e
        ∙ agree.decrypts st.nonce block n short

    complete_message-id :
        (file_hash : Str) (st : Stamp)
        → transfer_id_of (complete_message k c accepts a recipient_id id file_hash st) ≡ some id
    unfolding transfer_id_of complete_message signed_by signed create get_field
    complete_message-id file_hash st = named_text id named

    -- every block that is heard is added to the transfer
    hear-Downloads :
        (blocks : List Bytes) (s : Engine) (t sent : MediaTransfer) (files : List ReceivedMedia)
        (stamps stamps' : ℕ → Stamp) (i j : ℕ)
        → Downloads k c accepts p id (secret_with c a.wallet agrees.wallet) s t files
        → sent.id ≡ id
        → ((n : ℕ) → length (stamps n).nonce ≡ nonce_size)
        → Within max_plain blocks
        → let secret = secret_with c a.wallet agrees.wallet in
          Downloads k c accepts p id secret
            (hear s p stamps' j (chunk_messages a recipient_id sent (some secret) stamps i blocks))
            (add_blocks t blocks)
            files
    unfolding dispatch chunk_message signed_by signed create
    hear-Downloads [] s t sent files stamps stamps' i j d e n w = d
    hear-Downloads (block ∷ blocks) s t sent files stamps stamps' i j d e n w =
        let secret = secret_with c a.wallet agrees.wallet in
        let m = chunk_message k c accepts a recipient_id sent (some secret) i block (stamps i) in
        let d' =
          handle_file_chunk-Downloads k c accepts p id secret s t files m (stamps' j) block d
            (chunk_message-id sent (some secret) i block (stamps i) e)
            (chunk_message-opened sent i block (stamps i) (n i) w.0) in
        hear-Downloads blocks (handle_incoming k c accepts sha256 s m p (stamps' j))
          (add_chunk block t) sent files stamps stamps' (suc i) (suc j)
          (subst (λ x. Downloads k c accepts p id secret x (add_chunk block t) files)
            (sym (heard s (record m { signature = [] }) (stamps' j))) d')
          e n w.1

  -- The announcement of a file, its blocks and its completion, signed and encrypted by the engine that
  -- sends it and handled in this order by another that has its keys: the transfer there is completed
  -- with the number of blocks announced and the content of the file, and the callbacks get exactly
  -- this content as verified. The two wallets agree on the primitives, kept secrets are right, every
  -- nonce has 12 bytes, and the file is not empty and has the size and the hash of its content.
  pub file_arrives :
      (a b : Engine) (p : Peer) (recipient_id id : Str) (f : MediaFile) (stamps stamps' : ℕ → Stamp)
      (first last first' last' : Stamp)
      → f.size ≡ length f.content
      → f.file_hash ≡ sha256 f.content
      → f.content ≢ []
      → id ≢ []
      → ((n : ℕ) → length (stamps n).nonce ≡ nonce_size)
      → Trusts c b p a.wallet
      → Agree c a.wallet b.wallet
      → let info = to_media_info f in
        let secret = secret_with c a.wallet b.wallet in
        let blocks = read_chunks f (some (get_chunk_size f.media_type)) in
        let last_message = complete_message k c accepts a recipient_id id f.file_hash last in
        let b1 =
          handle_incoming k c accepts sha256 b
            (file_message k c accepts a recipient_id id info first)
            p
            first' in
        let b2 = hear b1 p stamps' 0 (
          chunk_messages a recipient_id
            (new_transfer id info recipient_id sends)
            (some secret)
            stamps
            0
            blocks) in
        let b3 = handle_incoming k c accepts sha256 b2 last_message p last' in
        (t : MediaTransfer) × (get_transfer b3 id ≡ some t)
        × (t.status ≡ completed)
        × (t.content ≡ f.content)
        × (t.chunks_completed ≡ info.chunk_count)
        × (b3.files ≡ b.files ++ (received_media last_message t id true ∷ []))
  unfolding dispatch file_message complete_message signed_by signed create new_transfer start
      complete read_chunks to_media_info
  file_arrives a b p recipient_id id f stamps stamps' first last first' last' size hash some_bytes
        named nonces trusts agree =
      let info = to_media_info f in
      let secret = secret_with c a.wallet b.wallet in
      let blocks = read_chunks f (some (get_chunk_size f.media_type)) in
      let (content, count) = read_chunks-to_media_info f size in
      let m0 = file_message k c accepts a recipient_id id info first in
      let (d, e) = get_shared_secret_trusted c b p a.wallet trusts in
      let shared = ap (λ r. r.1) e ∙ ap (λ x. some x) (sym agree.shared) in
      let started = start first'.ticks (new_transfer id info p.id receives) in
      let (arrived, chunks, same_info, same_id) = add_blocks_lem blocks started in
      let announced =
        subst (λ x. Downloads k c accepts p id secret x started b.files)
          (sym (
            heard a p recipient_id id b trusts.signing agree named b (record m0 { signature = [] })
              first'))
          (handle_file_start-Downloads k c accepts p id secret b m0 first' info
            (file_message-id a p recipient_id id b trusts.signing agree named info first)
            (file_message-info a p recipient_id id b trusts.signing agree named info first)
            shared) in
      let received =
        hear-Downloads a p recipient_id id b trusts.signing agree named blocks
          (handle_incoming k c accepts sha256 b m0 p first') started
          (new_transfer id info recipient_id sends) b.files stamps stamps' 0 0 announced refl nonces
          (read_chunks-Within max_plain f (omega arith)) in
      let b2 = hear (handle_incoming k c accepts sha256 b m0 p first') p stamps' 0 (
        chunk_messages a recipient_id (new_transfer id info recipient_id sends) (some secret) stamps
          0 blocks) in
      let last_message = complete_message k c accepts a recipient_id id f.file_hash last in
      let whole = add_blocks started blocks in
      let same_content = arrived ∙ content in
      let (stored, files) =
        handle_file_complete-whole k c accepts p id secret sha256 b2 whole b.files last_message
          last' received
          (complete_message-id a p recipient_id id b trusts.signing agree named f.file_hash last)
          (subst (λ x. x ≢ []) (sym same_content) some_bytes)
          (ap sha256 same_content ∙ sym hash ∙ sym (ap (λ i. i.file_hash) same_info)) in
      let ended =
        heard a p recipient_id id b trusts.signing agree named b2
          (record last_message { signature = [] }) last' in
      (
        complete last'.ticks whole,
        ap (λ x. get_transfer x id) ended ∙ stored,
        refl,
        same_content,
        chunks ∙ zero_add (length blocks) ∙ count,
        ap (λ x. x.files) ended ∙ files,
      )
