-- ===== src/Engine/Soundness.antt =====
-- src/engine/engine.py: what the received texts and files have in common, whatever arrives.
use blockchain_messaging_pro.Common.{
  ℕ, ◌≤◌, ◌≡◌, ◌≢◌, refl, sym, subst, ◌⊎◌, inl, inr, Bool, true, none, some, List, [], ◌∷◌, ◌++◌,
  Str, Bytes, length, drop, ltb, str_beq_iff, arith, length-append, length-drop, Bool-cases,
  Option-cases,
}
use blockchain_messaging_pro.Chain.Mempool.{All, All-append}
use blockchain_messaging_pro.Crypto.{Primitives}
use blockchain_messaging_pro.Media.Transfer.{MediaTransfer, complete, verify_hash}
use blockchain_messaging_pro.Message.{
  MessagePayload, MessageType, text, file, file_chunk, file_complete, stream_start, stream_chunk,
  stream_end, get_signable_content,
}
use blockchain_messaging_pro.Message.Packing.{Codecs}
use blockchain_messaging_pro.Peers.{Peer}
use blockchain_messaging_pro.Engine.{
  Engine, Stamp, ReceivedMessage, ReceivedMedia, max_received_files, given, record_data,
  put_transfer, get_transfer, send, open_content,
}
use blockchain_messaging_pro.Engine.Secrets.{open_content_keeps}
use blockchain_messaging_pro.Engine.Receiving.{
  transfer_id_of, media_info_of, keep_latest, received_text, received_media, handle_file_start,
  acknowledge, take_text, handle_text_message, add_block, handle_file_chunk, take_file,
  handle_file_complete, handle_stream_message, dispatch, handle_incoming,
}

-- The content has the announced hash and is not empty, and the sender's signature was verified.
pub record IsIntact (sha256 : Bytes → Str) (r : ReceivedMedia) : Type 0 where
  pub hash : sha256 r.content ≡ r.file_hash
  pub not_empty : r.content ≢ []
  pub signed : r.verified ≡ true

abbrev pub IsVerified : ReceivedMessage → Type 0
IsVerified m = m.verified ≡ true

-- at most a hundred received files, all intact, and only texts with a verified signature
abbrev pub IsSound : (Bytes → Str) → Engine → Type 0
IsSound sha256 s =
    (length s.received_files ≤ max_received_files)
    × All (IsIntact sha256) s.received_files
    × All IsVerified s.messages

module _ (sha256 : Bytes → Str) where
  verify_hash-content :
      (t : MediaTransfer) (content : Bytes)
      → verify_hash sha256 (record t { content = content }) ≡ true
      → (sha256 content ≡ t.media_info.file_hash) × (content ≢ [])
  unfolding verify_hash
  verify_hash-content t [] h = cc
  verify_hash-content t (x ∷ xs) h =
      ((str_beq_iff (sha256 (x ∷ xs)) t.media_info.file_hash).0 h, λ e. cc)

  drop-All :
      (rs : List ReceivedMedia) → All (IsIntact sha256) rs → All (IsIntact sha256) (drop 1 rs)
  drop-All [] h = tt
  drop-All (r ∷ rs) h = h.1

  keep_latest-IsIntact :
      (rs : List ReceivedMedia) (r : ReceivedMedia)
      → length rs ≤ max_received_files
      → All (IsIntact sha256) rs
      → IsIntact sha256 r
      → (length (keep_latest rs r) ≤ max_received_files) × All (IsIntact sha256) (keep_latest rs r)
  unfolding keep_latest
  keep_latest-IsIntact rs r bounded intact new =
      let longer = rs ++ (r ∷ []) in
      let all_intact = All-append (IsIntact sha256) rs (r ∷ []) intact (new, tt) in
      elim (Bool-cases (ltb max_received_files (length longer))) [
        | inl h ↦
            rw (keep_latest, h)
              (
                omega (arith, length-append rs (r ∷ []), length-drop 1 longer),
                drop-All longer all_intact,
              )
        | inr h ↦ rw (keep_latest, h) (ground arith, all_intact)
      ]

  module _ (k : Codecs) (c : Primitives) (accepts : ℕ → Bytes → Bool) where
    take_text-IsSound :
        (s : Engine) (m : MessagePayload) (p : Peer) (st : Stamp) (t : Str)
        → IsSound sha256 s
        → IsSound sha256 (take_text k c accepts s m p st t true)
    unfolding take_text acknowledge send record_data received_text
    take_text-IsSound s m p st t (bounded, intact, verified) = (
      bounded,
      intact,
      All-append IsVerified s.messages (received_text m t true ∷ []) verified (refl, tt),
    )

    after_text :
        (s : Engine) (m : MessagePayload) (p : Peer) (st : Stamp) (content : Str ⊎ Bytes)
        → IsSound sha256 s
        → IsSound sha256 (elim content [
          | inl e ↦ s
          | inr plain ↦ elim (k.decode plain) [
            | none ↦ s
            | some t ↦ take_text k c accepts s m p st t true
          ]
        ])
    after_text s m p st (inl e) h = h
    after_text s m p st (inr plain) h = elim (Option-cases (k.decode plain)) [
      | inl e ↦ rw (e) h
      | inr (t, e) ↦ rw (e) (take_text-IsSound s m p st t h)
    ]

    handle_text_message-IsSound :
        (s : Engine) (m : MessagePayload) (p : Peer) (st : Stamp)
        → IsSound sha256 s
        → IsSound sha256 (handle_text_message k c accepts s m p true st)
    unfolding handle_text_message
    handle_text_message-IsSound s m p st h =
        let (d, e) = open_content_keeps c s p m in
        after_text (open_content c s p m).0 m p st (open_content c s p m).1
          (subst (IsSound sha256) (sym e) h)

    after_chunk :
        (s : Engine) (t : MediaTransfer) (st : Stamp) (content : Str ⊎ Bytes)
        → IsSound sha256 s
        → IsSound sha256 (add_block k c accepts s t st content)
    unfolding add_block put_transfer
    after_chunk s t st (inl e) h = h
    after_chunk s t st (inr plain) h = h

    handle_file_chunk-IsSound :
        (s : Engine) (m : MessagePayload) (p : Peer) (st : Stamp)
        → IsSound sha256 s
        → IsSound sha256 (handle_file_chunk k c accepts s m p st)
    unfolding handle_file_chunk
    handle_file_chunk-IsSound s m p st h = elim (Option-cases (transfer_id_of m)) [
      | inl e ↦ rw (handle_file_chunk, e) h
      | inr (id, e) ↦ elim (Option-cases (get_transfer s id)) [
        | inl f ↦ rw (handle_file_chunk, e, f) h
        | inr (t, f) ↦
            let (d, kept) = open_content_keeps c s p m in
            rw (handle_file_chunk, e, f)
              (after_chunk (open_content c s p m).0 t st (open_content c s p m).1
                (subst (IsSound sha256) (sym kept) h))
      ]
    ]

    handle_file_start-IsSound :
        (s : Engine) (m : MessagePayload) (p : Peer) (st : Stamp)
        → IsSound sha256 s
        → IsSound sha256 (handle_file_start s m p st)
    unfolding handle_file_start record_data put_transfer
    handle_file_start-IsSound s m p st h = elim (Option-cases (transfer_id_of m)) [
      | inl e ↦ rw (handle_file_start, e) h
      | inr (id, e) ↦ elim (Option-cases (media_info_of m)) [
        | inl f ↦ rw (handle_file_start, e, f) h
        | inr (info, f) ↦ rw (handle_file_start, e, f) h
      ]
    ]

    take_file-IsSound :
        (s : Engine) (m : MessagePayload) (p : Peer) (t : MediaTransfer) (id : Str) (st : Stamp)
        → verify_hash sha256 t ≡ true
        → IsSound sha256 s
        → IsSound sha256 (take_file k c accepts sha256 s m p t id true st)
    unfolding take_file acknowledge send put_transfer received_media complete
    take_file-IsSound s m p t id st verified (bounded, intact, texts) =
        let (hash, some_bytes) = verify_hash-content t t.content verified in
        let new : IsIntact sha256 (received_media m (complete st.ticks t) id true) = record {
          hash = hash;
          not_empty = some_bytes;
          signed = refl;
        } in
        let (few, all_intact) =
          keep_latest-IsIntact s.received_files (received_media m (complete st.ticks t) id true)
            bounded intact new in
        (few, all_intact, texts)

    handle_file_complete-IsSound :
        (s : Engine) (m : MessagePayload) (p : Peer) (st : Stamp)
        → IsSound sha256 s
        → IsSound sha256 (handle_file_complete k c accepts sha256 s m p true st)
    unfolding handle_file_complete put_transfer
    handle_file_complete-IsSound s m p st h = elim (Option-cases (transfer_id_of m)) [
      | inl e ↦ rw (handle_file_complete, e) h
      | inr (id, e) ↦ elim (Option-cases (get_transfer s id)) [
        | inl f ↦ rw (handle_file_complete, e, f) h
        | inr (t, f) ↦ elim (Bool-cases (verify_hash sha256 t)) [
          | inl v ↦ rw (handle_file_complete, e, f, v) (take_file-IsSound s m p t id st v h)
          | inr v ↦ rw (handle_file_complete, e, f, v) h
        ]
      ]
    ]

    handle_stream_message-IsSound :
        (s : Engine) (m : MessagePayload)
        → IsSound sha256 s
        → IsSound sha256 (handle_stream_message k c accepts sha256 s m)
    unfolding handle_stream_message
    handle_stream_message-IsSound s m h = elim (Option-cases m.chunk_info) [
      | inl e ↦ rw (handle_stream_message, e) h
      | inr (i, e) ↦ rw (handle_stream_message, e) h
    ]

    dispatch-IsSound :
        (s : Engine) (m : MessagePayload) (p : Peer) (st : Stamp) (kind : MessageType)
        → m.kind ≡ kind
        → IsSound sha256 s
        → IsSound sha256 (dispatch k c accepts sha256 s m p true st)
    unfolding dispatch
    dispatch-IsSound s m p st text e h = rw (dispatch, e) (handle_text_message-IsSound s m p st h)
    dispatch-IsSound s m p st file e h = rw (dispatch, e) (handle_file_start-IsSound s m p st h)
    dispatch-IsSound s m p st file_chunk e h =
        rw (dispatch, e) (handle_file_chunk-IsSound s m p st h)
    dispatch-IsSound s m p st file_complete e h =
        rw (dispatch, e) (handle_file_complete-IsSound s m p st h)
    dispatch-IsSound s m p st stream_start e h =
        rw (dispatch, e) (handle_stream_message-IsSound s m h)
    dispatch-IsSound s m p st stream_chunk e h =
        rw (dispatch, e) (handle_stream_message-IsSound s m h)
    dispatch-IsSound s m p st stream_end e h =
        rw (dispatch, e) (handle_stream_message-IsSound s m h)
    dispatch-IsSound s m p st kind e h = rw (dispatch, e) h

    -- Whatever message comes from whatever peer, the handler keeps at most a hundred files, only intact
    -- ones, and only texts with a verified signature.
    pub handle_incoming-IsSound :
        (s : Engine) (m : MessagePayload) (p : Peer) (st : Stamp)
        → IsSound sha256 s
        → IsSound sha256 (handle_incoming k c accepts sha256 s m p st)
    unfolding handle_incoming
    handle_incoming-IsSound s m p st h = elim (Option-cases (given p.public_key)) [
      | inl e ↦ rw (handle_incoming, e) h
      | inr (key, e) ↦
          elim (Bool-cases
            (c.verify_signature (get_signable_content k.b64encode m) m.signature key)) [
              | inl v ↦ rw (handle_incoming, e, v) (dispatch-IsSound s m p st m.kind refl h)
              | inr v ↦ rw (handle_incoming, e, v) h
            ]
    ]
