-- ===== src/Engine/Sending.antt =====
-- src/engine/engine.py: sending texts and files. What the program draws for each message is a stamp,
-- and a file takes a sequence of them.
use blockchain_messaging_pro.Common.{
  ℕ, suc, ◌+◌, Bool, true, false, Option, none, some, List, [], ◌∷◌, ◌++◌, Str, Bytes, codes,
  encode, length, inl, inr, if◌then◌else◌, Result,
}
use blockchain_messaging_pro.Json.{num, float, str, obj, Fields, end, field, decimal}
use blockchain_messaging_pro.Crypto.{Primitives, sign, address}
use blockchain_messaging_pro.Media.{
  MediaFile, MediaInfo, PathFacts, info_to_dict, to_media_info, get_chunk_size, read_chunks,
  from_path,
}
use blockchain_messaging_pro.Media.Transfer.{MediaTransfer, start, complete, fail}
use blockchain_messaging_pro.Media.Manager.{create_send_transfer}
use blockchain_messaging_pro.Message.{
  MessagePayload, ChunkInfo, text, file, file_chunk, file_complete,
}
use blockchain_messaging_pro.Message.Creation.{create, signed}
use blockchain_messaging_pro.Message.Packing.{Codecs}
use blockchain_messaging_pro.P2P.{get_peer}
use blockchain_messaging_pro.P2P.Connections.{broadcast}
use blockchain_messaging_pro.Engine.{
  Engine, Stamp, record_data, put_transfer, send, get_shared_secret, protect,
}

-- `{"name": self.wallet.name}`
unfoldable pub name_field : Engine → Fields → Fields
name_field s rest = field (codes "name") (str s.wallet.name) rest

-- what the chain records of a text message
unfoldable pub message_data : MessagePayload → Fields
message_data m = field (codes "type") (str (codes "message")) (
    field (codes "id") (str m.id) (
      field (codes "sender") (str m.sender) (
        field (codes "recipient") (str m.recipient)
          (field (codes "timestamp") (float m.timestamp) end))))

unfoldable pub broadcast_data : MessagePayload → Fields
broadcast_data m = field (codes "type") (str (codes "broadcast")) (
    field (codes "id") (str m.id)
      (field (codes "sender") (str m.sender) (field (codes "timestamp") (float m.timestamp) end)))

unfoldable pub transfer_data : Str → MediaInfo → MessagePayload → Fields
transfer_data transfer_id info m = field (codes "type") (str (codes "file_transfer")) (
    field (codes "id") (str transfer_id) (
      field (codes "filename") (str info.filename) (
        field (codes "size") (num info.size) (
          field (codes "sender") (str m.sender) (
            field (codes "recipient") (str m.recipient)
              (field (codes "timestamp") (float m.timestamp) end))))))

module _ (k : Codecs) (c : Primitives) (accepts : ℕ → Bytes → Bool) where
  -- the message with its signature by the wallet
  unfoldable pub signed_by : Engine → MessagePayload → MessagePayload
  signed_by s m = signed k.b64encode (sign c s.wallet) m

  -- the signed text message of `send_text`
  unfoldable pub text_message : Engine → Str → Option Bytes × Bytes → Stamp → MessagePayload
  text_message s recipient_id body st = signed_by s (
      create st.id st.now text (address s.wallet) recipient_id body.1 body.0 none
        (name_field s end))

  -- the part of `send_text` after the content is encrypted
  unfoldable pub send_body : Engine → Str → Option Bytes × Bytes → Stamp → Engine × Bool
  send_body s recipient_id body st =
      let m = text_message s recipient_id body st in
      send k accepts (record_data s (message_data m)) m recipient_id

  unfoldable pub send_text : Engine → Str → Str → Bool → Stamp → Engine × Bool
  send_text s recipient_id message encrypted st = elim (get_peer s.node recipient_id) [
    | none ↦ (s, false)
    | some p ↦
        let (s', secret) : Engine × Option Bytes =
          if encrypted then get_shared_secret c s p else (s, none) in
        send_body s' recipient_id (protect c secret st.nonce (encode message)) st
  ]

  unfoldable pub broadcast_text : Engine → Str → Stamp → Engine × Result ℕ
  broadcast_text s message st =
      let m = signed_by s (
        create st.id st.now text (address s.wallet) (codes "*") (encode message) none none
          (name_field s end)) in
      let s' = record_data s (broadcast_data m) in
      let (node, sent) = broadcast k accepts s'.node m in (record s' { node = node }, sent)

  unfoldable pub file_message : Engine → Str → Str → MediaInfo → Stamp → MessagePayload
  file_message s recipient_id transfer_id info st = signed_by s (
      create st.id st.now file (address s.wallet) recipient_id [] none none (
        name_field s (
          field (codes "transfer_id") (str transfer_id)
            (field (codes "media_info") (obj (info_to_dict info)) end))))

  unfoldable pub chunk_message :
      Engine → Str → MediaTransfer → Option Bytes → ℕ → Bytes → Stamp → MessagePayload
  chunk_message s recipient_id t secret chunk_num block st =
      let body = protect c secret st.nonce block in
      let info : ChunkInfo = record {
        sequence = chunk_num;
        total = t.media_info.chunk_count;
        stream_id = t.id;
        hash = [];
      } in
      signed_by s (
        create st.id st.now file_chunk (address s.wallet) recipient_id body.1 body.0 (some info)
          (field (codes "transfer_id") (str t.id) end))

  unfoldable pub complete_message : Engine → Str → Str → Str → Stamp → MessagePayload
  complete_message s recipient_id transfer_id file_hash st = signed_by s (
      create st.id st.now file_complete (address s.wallet) recipient_id [] none none (
        field (codes "transfer_id") (str transfer_id)
          (field (codes "file_hash") (str file_hash) end)))

  -- The loop over the blocks, and whether all were sent. A block takes the stamp of its number.
  unfoldable pub chunk_loop :
      Engine
      → Str
      → MediaTransfer
      → Option Bytes
      → (ℕ → Stamp)
      → ℕ
      → List Bytes
      → Engine × MediaTransfer × Bool
  chunk_loop s recipient_id t secret stamps chunk_num [] = (s, t, true)
  chunk_loop s recipient_id t secret stamps chunk_num (block ∷ blocks) =
      let st = stamps chunk_num in
      let (s', sent) =
        send k accepts s (chunk_message s recipient_id t secret chunk_num block st) recipient_id in
      let done : MediaTransfer = record t {
        chunks_completed = chunk_num + 1;
        bytes_transferred = t.bytes_transferred + length block;
      } in
      let rest = chunk_loop s' recipient_id done secret stamps (suc chunk_num) blocks in
      elim sent [
        | false ↦ (s', fail st.ticks (codes "Failed to send chunk " ++ decimal chunk_num) t, false)
        | true ↦ rest
      ]

  -- the message after the last block, of which it is not asked whether it was sent
  unfoldable pub finish_file : Engine → Str → MediaTransfer → Str → Stamp → Engine
  finish_file s recipient_id t file_hash st =
      put_transfer
        (send k accepts s (complete_message s recipient_id t.id file_hash st) recipient_id).0
        (complete st.ticks t)

  unfoldable pub send_file_chunks :
      Engine → Str → MediaFile → MediaTransfer → Option Bytes → (ℕ → Stamp) → Stamp → Engine
  send_file_chunks s recipient_id f t secret stamps last =
      let (s', t', all_sent) =
        chunk_loop s recipient_id t secret stamps 0
          (read_chunks f (some (get_chunk_size f.media_type))) in
      elim all_sent [
        | false ↦ put_transfer s' t'
        | true ↦ finish_file s' recipient_id t' f.file_hash last
      ]

  -- the part of `send_file` after the file is loaded; `first` is the stamp of the announcement
  unfoldable pub send_loaded :
      (Engine × Option Bytes)
      → Str
      → Str
      → MediaFile
      → (ℕ → Stamp)
      → Stamp
      → Stamp
      → Engine × Option Str
  send_loaded (s, secret) recipient_id transfer_id f stamps first last =
      let (manager, t) = create_send_transfer s.transfer_manager transfer_id f recipient_id in
      let info = to_media_info f in
      let m = file_message s recipient_id transfer_id info first in
      let s1 =
        record_data (record s { transfer_manager = manager }) (transfer_data transfer_id info m) in
      let (s2, sent) = send k accepts s1 m recipient_id in
      elim sent [
        | false ↦
            (put_transfer s2 (fail first.ticks (codes "Failed to send file metadata") t), none)
        | true ↦ (
          send_file_chunks s2 recipient_id f (start first.ticks t) secret stamps last,
          some transfer_id,
        )
      ]

  unfoldable pub send_file :
      (Bytes → Str)
      → Engine
      → Str
      → PathFacts
      → Bool
      → Str
      → (ℕ → Stamp)
      → Stamp
      → Stamp
      → Engine × Option Str
  send_file sha256 s recipient_id path encrypted transfer_id stamps first last =
      elim (get_peer s.node recipient_id) [
        | none ↦ (s, none)
        | some p ↦ elim (from_path sha256 path true) [
          | inl e ↦ (s, none)
          | inr f ↦
              send_loaded (if encrypted then get_shared_secret c s p else (s, none)) recipient_id
                transfer_id f stamps first last
        ]
      ]
