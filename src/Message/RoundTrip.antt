-- ===== src/Message/RoundTrip.antt =====
-- Messages and the dictionaries that `to_dict` makes of them.
use blockchain_messaging_pro.Common.{
  ◌≡◌, refl, ap, ◌∙◌, Option, none, some, [], ◌∷◌, Str, Bytes, ℕ, codes, Result, ok, ◌>>=◌,
}
use blockchain_messaging_pro.Json.{Fields, field, str, get_field, truthy}
use blockchain_messaging_pro.Block.{num_at, str_at, float_at}
use blockchain_messaging_pro.Message.{
  MessageType, text, ack, file, file_chunk, file_complete, file_error, stream_start, stream_chunk,
  stream_end, handshake, handshake_ack, peer_discovery, ping, pong, register, register_ack,
  peer_list, chain_status, chain_request, chain_response, chain_sync_start, chain_sync_end,
  nonce_field, chunk_field, type_name, type_named, named_in, ChunkInfo, chunk_to_dict,
  chunk_from_dict, MessagePayload, metadata_of, chunk_info_of, to_dict, nonce_of, from_dict,
}

pub type_named-type_name : (t : MessageType) → type_named (type_name t) ≡ ok t
unfolding type_named named_in type_name
type_named-type_name text = refl
type_named-type_name ack = refl
type_named-type_name file = refl
type_named-type_name file_chunk = refl
type_named-type_name file_complete = refl
type_named-type_name file_error = refl
type_named-type_name stream_start = refl
type_named-type_name stream_chunk = refl
type_named-type_name stream_end = refl
type_named-type_name handshake = refl
type_named-type_name handshake_ack = refl
type_named-type_name peer_discovery = refl
type_named-type_name ping = refl
type_named-type_name pong = refl
type_named-type_name register = refl
type_named-type_name register_ack = refl
type_named-type_name peer_list = refl
type_named-type_name chain_status = refl
type_named-type_name chain_request = refl
type_named-type_name chain_response = refl
type_named-type_name chain_sync_start = refl
type_named-type_name chain_sync_end = refl

-- the message with an empty nonce taken for none
abbrev pub without_empty_nonce : MessagePayload → MessagePayload
without_empty_nonce m = record m {
  nonce = elim m.nonce [ none ↦ none | some [] ↦ none | some (x ∷ xs) ↦ some (x ∷ xs) ];
}

module _ (b64encode : Bytes → Str) (b64decode : Str → Result Bytes)
    (decodes : (b : Bytes) → b64decode (b64encode b) ≡ ok b)
    (not_empty : (x : ℕ) (xs : Bytes) → (y : ℕ) × (ys : Str) × (b64encode (x ∷ xs) ≡ y ∷ ys)) where
  chunk_info_back :
      (n : Option Bytes) (c : Option ChunkInfo)
      → chunk_info_of (nonce_field b64encode n (chunk_field c)) ≡ ok c
  unfolding chunk_info_of get_field truthy chunk_to_dict chunk_from_dict num_at str_at
  chunk_info_back none none = refl
  chunk_info_back none (some c) = refl
  chunk_info_back (some []) none = refl
  chunk_info_back (some []) (some c) = refl
  chunk_info_back (some (x ∷ xs)) none = refl
  chunk_info_back (some (x ∷ xs)) (some c) = refl

  nonce_text :
      (t : Str) (y : ℕ) (ys : Str) (rest : Fields)
      → t ≡ y ∷ ys
      → nonce_of b64decode (field (codes "nonce") (str t) rest) ≡ (b64decode t >>= λ n. ok (some n))
  unfolding nonce_of get_field
  nonce_text t y ys rest e = rw (e) refl

  nonce_back :
      (n : Option Bytes) (c : Option ChunkInfo)
      → nonce_of b64decode (nonce_field b64encode n (chunk_field c))
        ≡ ok (elim n [ none ↦ none | some [] ↦ none | some (x ∷ xs) ↦ some (x ∷ xs) ])
  unfolding nonce_of get_field
  nonce_back none none = refl
  nonce_back none (some c) = refl
  nonce_back (some []) none = refl
  nonce_back (some []) (some c) = refl
  nonce_back (some (x ∷ xs)) c =
      let (y, ys, e) = not_empty x xs in
      nonce_text (b64encode (x ∷ xs)) y ys (chunk_field c) e
      ∙ ap (λ r. r >>= λ n. ok (some n)) (decodes (x ∷ xs))

  -- If decoding base64 undoes encoding and the code of some bytes is not empty, `from_dict` reads
  -- back every message from the dictionary that `to_dict` makes of it, an empty nonce as none.
  pub from_dict-to_dict_message :
      (m : MessagePayload) → from_dict b64decode (to_dict b64encode m) ≡ ok (without_empty_nonce m)
  unfolding from_dict to_dict get_field chunk_info_of nonce_of str_at float_at metadata_of
  from_dict-to_dict_message m =
      rw
        (
          chunk_info_back m.nonce m.chunk_info,
          nonce_back m.nonce m.chunk_info,
          type_named-type_name m.kind,
          decodes m.content,
          decodes m.signature,
        )
        refl
