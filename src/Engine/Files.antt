-- ===== src/Engine/Files.antt =====
-- src/engine/engine.py: the messages of a file, at the engine that receives them.
use blockchain_messaging_pro.Common.{
  ℕ, ◌+◌, ◌≡◌, ◌≢◌, refl, sym, ap, ◌∙◌, subst, inr, Bool, true, some, List, [], ◌∷◌, ◌++◌, Str,
  Bytes, length, str_beq_iff, arith, str_eq,
}
use mathlib.Core.List.{append-nil, append_assoc}
use blockchain_messaging_pro.Common.Dict.{get-put_same}
use blockchain_messaging_pro.Json.{Fields}
use blockchain_messaging_pro.Crypto.{Primitives}
use blockchain_messaging_pro.Media.{MediaInfo, join}
use blockchain_messaging_pro.Media.Transfer.{
  MediaTransfer, receives, new_transfer, start, complete, add_chunk, verify_hash,
}
use blockchain_messaging_pro.Media.Manager
use blockchain_messaging_pro.Media.Manager.{create_receive_transfer}
use blockchain_messaging_pro.Message.{MessagePayload}
use blockchain_messaging_pro.Message.Packing.{Codecs}
use blockchain_messaging_pro.Peers.{Peer}
use blockchain_messaging_pro.Engine.{
  Engine, Stamp, ReceivedMedia, record_data, put_transfer, get_transfer, send, get_shared_secret,
  opened, open_content,
}
use blockchain_messaging_pro.Engine.Secrets.{
  open_content_keeps, open_content-eq-opened, get_shared_secret_stable, get_shared_secret-eq,
}
use blockchain_messaging_pro.Engine.Receiving.{
  transfer_id_of, media_info_of, received_media, receive_data, handle_file_start, acknowledge,
  add_block, handle_file_chunk, take_file, handle_file_complete,
}

-- the transfer after these blocks
abbrev pub add_blocks : MediaTransfer → List Bytes → MediaTransfer
add_blocks t [] = t
add_blocks t (b ∷ bs) = add_blocks (add_chunk b t) bs

pub add_blocks_lem :
    (bs : List Bytes) (t : MediaTransfer)
    → ((add_blocks t bs).content ≡ t.content ++ join bs)
      × ((add_blocks t bs).chunks_completed ≡ t.chunks_completed + length bs)
      × ((add_blocks t bs).media_info ≡ t.media_info)
      × ((add_blocks t bs).id ≡ t.id)
unfolding add_chunk join
add_blocks_lem [] t = (sym (append-nil t.content), omega arith, refl, refl)
add_blocks_lem (b ∷ bs) t =
    let (content, count, info, id) = add_blocks_lem bs (add_chunk b t) in
    (content ∙ append_assoc t.content b (join bs), omega (arith, count), info, id)

verify_hash_intact :
    (sha256 : Bytes → Str) (t : MediaTransfer) (content : Bytes)
    → content ≢ []
    → sha256 content ≡ t.media_info.file_hash
    → verify_hash sha256 (record t { content = content }) ≡ true
unfolding verify_hash
verify_hash_intact sha256 t [] h e = absurd (h refl)
verify_hash_intact sha256 t (x ∷ xs) h e =
    (str_beq_iff (sha256 (x ∷ xs)) t.media_info.file_hash).1 e

module _ (k : Codecs) (c : Primitives) (accepts : ℕ → Bytes → Bool) (p : Peer) (id : Str)
    (secret : Bytes) where
  -- The engine has a transfer under the id, knows the secret of the peer, and has these files.
  pub record Downloads (s : Engine) (t : MediaTransfer) (files : List ReceivedMedia) : Type 0 where
    pub found : get_transfer s id ≡ some t
    pub named : t.id ≡ id
    pub shared : (get_shared_secret c s p).1 ≡ some secret
    pub logged : s.files ≡ files

  found_again :
      (s : Engine) (t : MediaTransfer) → t.id ≡ id → get_transfer (put_transfer s t) id ≡ some t
  unfolding get_transfer put_transfer Manager.get_transfer Manager.put_transfer
  found_again s t e =
      subst (λ i. get_transfer (put_transfer s t) i ≡ some t) e
        (get-put_same s.transfer_manager.transfers t.id t)

  -- a transfer that is put back
  stored :
      (s : Engine) (t : MediaTransfer) (files : List ReceivedMedia)
      → t.id ≡ id
      → (get_shared_secret c s p).1 ≡ some secret
      → s.files ≡ files
      → Downloads (put_transfer s t) t files
  unfolding put_transfer
  stored s t files named shared logs = record {
    found = found_again s t named;
    named = named;
    shared =
        get_shared_secret-eq c (put_transfer s t) p ∙ sym (get_shared_secret-eq c s p) ∙ shared;
    logged = logs;
  }

  recorded :
      (s : Engine) (t : MediaTransfer) (files : List ReceivedMedia) (d : Fields)
      → Downloads s t files
      → Downloads (record_data s d) t files
  unfolding record_data get_transfer
  recorded s t files d h = record {
    found = h.found;
    named = h.named;
    shared =
        get_shared_secret-eq c (record_data s d) p ∙ sym (get_shared_secret-eq c s p) ∙ h.shared;
    logged = h.logged;
  }

  -- one block that arrives
  pub handle_file_chunk-Downloads :
      (s : Engine) (t : MediaTransfer) (files : List ReceivedMedia) (m : MessagePayload)
      (st : Stamp) (block : Bytes)
      → Downloads s t files
      → transfer_id_of m ≡ some id
      → opened c (some secret) m ≡ inr block
      → Downloads (handle_file_chunk k c accepts s m p st) (add_chunk block t) files
  unfolding handle_file_chunk add_block add_chunk
  handle_file_chunk-Downloads s t files m st block h names opens =
      let r = open_content c s p m in
      let (d, kept) = open_content_keeps c s p m in
      let content : r.1 ≡ inr block =
        open_content-eq-opened c s p m ∙ ap (λ x. opened c x m) h.shared ∙ opens in
      let after : handle_file_chunk k c accepts s m p st ≡ put_transfer r.0 (add_chunk block t) =
        rw (handle_file_chunk, names, h.found, content) refl in
      subst (λ x. Downloads x (add_chunk block t) files) (sym after)
        (stored r.0 (add_chunk block t) files h.named (get_shared_secret_stable c s p m ∙ h.shared)
          (ap (λ x. x.files) kept ∙ h.logged))

  -- the announcement of a file
  pub handle_file_start-Downloads :
      (s : Engine) (m : MessagePayload) (st : Stamp) (info : MediaInfo)
      → transfer_id_of m ≡ some id
      → media_info_of m ≡ some info
      → (get_shared_secret c s p).1 ≡ some secret
      → Downloads
          (handle_file_start s m p st)
          (start st.ticks (new_transfer id info p.id receives))
          s.files
  unfolding handle_file_start start new_transfer create_receive_transfer
  handle_file_start-Downloads s m st info names reads shared =
      let t = start st.ticks (new_transfer id info p.id receives) in
      let (manager, fresh) = create_receive_transfer s.transfer_manager id info p.id in
      let s1 : Engine = record s { transfer_manager = manager } in
      let after : handle_file_start s m p st
          ≡ record_data (put_transfer s1 t) (receive_data s id info m) =
        rw (handle_file_start, names, reads) refl in
      subst (λ x. Downloads x t s.files) (sym after)
        (recorded (put_transfer s1 t) t s.files (receive_data s id info m) (
          stored s1 t s.files refl
            (get_shared_secret-eq c s1 p ∙ sym (get_shared_secret-eq c s p) ∙ shared) refl))

  -- The last message of a file whose bytes have arrived: the transfer is complete, and the callbacks
  -- get the file.
  pub handle_file_complete-whole :
      (sha256 : Bytes → Str) (s : Engine) (t : MediaTransfer) (files : List ReceivedMedia)
      (m : MessagePayload) (st : Stamp)
      → Downloads s t files
      → transfer_id_of m ≡ some id
      → t.content ≢ []
      → sha256 t.content ≡ t.media_info.file_hash
      → let s' = handle_file_complete k c accepts sha256 s m p true st in
        (get_transfer s' id ≡ some (complete st.ticks t))
        × (s'.files ≡ files ++ (received_media m (complete st.ticks t) id true ∷ []))
  unfolding handle_file_complete take_file acknowledge send complete get_transfer put_transfer
  handle_file_complete-whole sha256 s t files m st h names some_bytes hash =
      let after : handle_file_complete k c accepts sha256 s m p true st
          ≡ take_file k c accepts sha256 s m p t id true st =
        rw
          (
            handle_file_complete,
            names,
            h.found,
            verify_hash_intact sha256 t t.content some_bytes hash,
          )
          refl in
      (
        ap (λ x. get_transfer x id) after ∙ found_again s (complete st.ticks t) h.named,
        ap (λ x. x.files) after
            ∙ ap (λ fs. fs ++ (received_media m (complete st.ticks t) id true ∷ [])) h.logged,
      )
