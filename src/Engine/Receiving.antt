-- ===== src/Engine/Receiving.antt =====
-- src/engine/engine.py: the handlers of received messages. Saving a received file and the log lines
-- are left out; the id of a transfer is a text.
use blockchain_messaging_pro.Common.{
  ℕ, Bool, true, false, Option, none, some, List, [], ◌∷◌, ◌++◌, Str, Bytes, codes, length, ltb,
  drop, ◌⊎◌, inl, inr, not, if◌then◌else◌, ok, err,
}
use blockchain_messaging_pro.Json.{num, float, str, Fields, end, field, get_field, truthy}
use blockchain_messaging_pro.Chunks
use blockchain_messaging_pro.Chunks.{Chunk, new_chunk}
use blockchain_messaging_pro.Crypto.{Primitives, sign, address}
use blockchain_messaging_pro.Media.{MediaInfo, info_from_dict}
use blockchain_messaging_pro.Media.Transfer.{
  MediaTransfer, start, complete, fail, add_chunk, verify_hash,
}
use blockchain_messaging_pro.Media.Manager.{create_receive_transfer}
use blockchain_messaging_pro.Message.{
  MessagePayload, text, file, file_chunk, file_complete, stream_start, stream_chunk, stream_end,
  get_signable_content,
}
use blockchain_messaging_pro.Message.Creation.{create_ack_message}
use blockchain_messaging_pro.Message.Packing.{Codecs}
use blockchain_messaging_pro.Peers.{Peer}
use blockchain_messaging_pro.P2P.{seen}
use blockchain_messaging_pro.P2P.Connections.{handle_input}
use blockchain_messaging_pro.Engine.{
  Engine, Stamp, ReceivedMessage, ReceivedMedia, max_received_files, given, record_data,
  put_transfer, get_transfer, send, open_content,
}

-- `message.metadata.get("transfer_id")`, none where the test of it fails
unfoldable pub transfer_id_of : MessagePayload → Option Str
transfer_id_of m = elim (get_field m.metadata (codes "transfer_id")) [
  | some (str t) ↦ elim t [ [] ↦ none | x ∷ xs ↦ some (x ∷ xs) ]
  | _ ↦ none
]

-- the announced metadata of a file, none where they are missing or cannot be read
unfoldable pub media_info_of : MessagePayload → Option MediaInfo
media_info_of m = elim (get_field m.metadata (codes "media_info")) [
  | none ↦ none
  | some j ↦
      if truthy j then elim (info_from_dict j) [ ok info ↦ some info | err e ↦ none ] else none
]

-- `append`, and `pop(0)` of a list that is too long
unfoldable pub keep_latest : List ReceivedMedia → ReceivedMedia → List ReceivedMedia
keep_latest files received =
    let longer = files ++ (received ∷ []) in
    if ltb max_received_files (length longer) then drop 1 longer else longer

unfoldable pub received_data : MessagePayload → Fields
received_data m = field (codes "type") (str (codes "received")) (
    field (codes "id") (str m.id)
      (field (codes "sender") (str m.sender) (field (codes "timestamp") (float m.timestamp) end)))

unfoldable pub receive_data : Engine → Str → MediaInfo → MessagePayload → Fields
receive_data s transfer_id info m = field (codes "type") (str (codes "file_receive")) (
    field (codes "id") (str transfer_id) (
      field (codes "filename") (str info.filename) (
        field (codes "size") (num info.size) (
          field (codes "sender") (str m.sender) (
            field (codes "recipient") (str (address s.wallet))
              (field (codes "timestamp") (float m.timestamp) end))))))

unfoldable pub received_text : MessagePayload → Str → Bool → ReceivedMessage
received_text m content verified = record {
  id = m.id;
  sender = m.sender;
  sender_name = get_field m.metadata (codes "name");
  content = content;
  timestamp = m.timestamp;
  verified = verified;
}

unfoldable pub received_media : MessagePayload → MediaTransfer → Str → Bool → ReceivedMedia
received_media m t transfer_id verified = record {
  id = transfer_id;
  sender = m.sender;
  sender_name = get_field m.metadata (codes "name");
  filename = t.media_info.filename;
  mime_type = t.media_info.mime_type;
  media_type = t.media_info.media_type;
  size = t.media_info.size;
  content = t.content;
  file_hash = t.media_info.file_hash;
  timestamp = m.timestamp;
  verified = verified;
}

unfoldable pub handle_file_start : Engine → MessagePayload → Peer → Stamp → Engine
handle_file_start s m p st = elim (transfer_id_of m) [
  | none ↦ s
  | some transfer_id ↦ elim (media_info_of m) [
    | none ↦ s
    | some info ↦
        let (manager, t) = create_receive_transfer s.transfer_manager transfer_id info p.id in
        let s1 : Engine = record s { transfer_manager = manager } in
        record_data (put_transfer s1 (start st.ticks t)) (receive_data s transfer_id info m)
  ]
]

module _ (k : Codecs) (c : Primitives) (accepts : ℕ → Bytes → Bool) where
  -- the acknowledgment at the end of two handlers
  unfoldable pub acknowledge : Engine → MessagePayload → Peer → Stamp → Engine
  acknowledge s m p st =
      (send k accepts s
        (create_ack_message k.b64encode st.id st.now (address s.wallet) m.sender m.id
          (sign c s.wallet))
        p.id).0

  unfoldable pub take_text : Engine → MessagePayload → Peer → Stamp → Str → Bool → Engine
  take_text s m p st content verified =
      let s1 = record_data s (received_data m) in
      acknowledge (record s1 { messages = s1.messages ++ (received_text m content verified ∷ []) })
        m p st

  unfoldable pub handle_text_message : Engine → MessagePayload → Peer → Bool → Stamp → Engine
  handle_text_message s m p verified st =
      let (s', content) = open_content c s p m in
      elim content [
        | inl e ↦ s'
        | inr plain ↦ elim (k.decode plain) [ none ↦ s' | some t ↦ take_text s' m p st t verified ]
      ]

  unfoldable pub add_block : Engine → MediaTransfer → Stamp → Str ⊎ Bytes → Engine
  add_block s t st content = elim content [
    | inl e ↦ put_transfer s (fail st.ticks (codes "Decryption failed: " ++ e) t)
    | inr plain ↦ put_transfer s (add_chunk plain t)
  ]

  unfoldable pub handle_file_chunk : Engine → MessagePayload → Peer → Stamp → Engine
  handle_file_chunk s m p st = elim (transfer_id_of m) [
    | none ↦ s
    | some transfer_id ↦ elim (get_transfer s transfer_id) [
      | none ↦ s
      | some t ↦ let (s', content) = open_content c s p m in add_block s' t st content
    ]
  ]

module _ (k : Codecs) (c : Primitives) (accepts : ℕ → Bytes → Bool) (sha256 : Bytes → Str) where
  -- the part of `_handle_file_complete` after the hash is verified
  unfoldable pub take_file :
      Engine → MessagePayload → Peer → MediaTransfer → Str → Bool → Stamp → Engine
  take_file s m p t transfer_id verified st =
      let done = complete st.ticks t in
      let received = received_media m done transfer_id verified in
      let s1 = put_transfer s done in
      acknowledge k c accepts
        (record s1 {
          received_files = keep_latest s1.received_files received;
          files = s1.files ++ (received ∷ []);
        })
        m p st

  unfoldable pub handle_file_complete : Engine → MessagePayload → Peer → Bool → Stamp → Engine
  handle_file_complete s m p verified st = elim (transfer_id_of m) [
    | none ↦ s
    | some transfer_id ↦ elim (get_transfer s transfer_id) [
      | none ↦ s
      | some t ↦ elim (verify_hash sha256 t) [
        | false ↦ put_transfer s (fail st.ticks (codes "Hash verification failed") t)
        | true ↦ take_file s m p t transfer_id verified st
      ]
    ]
  ]

  unfoldable pub handle_stream_message : Engine → MessagePayload → Engine
  handle_stream_message s m = elim m.chunk_info [
    | none ↦ s
    | some i ↦ record s {
      reassembler =
          (Chunks.add_chunk sha256 s.reassembler
            (new_chunk sha256 i.stream_id i.sequence i.total m.content)).0;
    }
  ]

  -- the dispatch on the type of the message
  unfoldable pub dispatch : Engine → MessagePayload → Peer → Bool → Stamp → Engine
  dispatch s m p verified st = elim m.kind [
    | text ↦ handle_text_message k c accepts s m p verified st
    | file ↦ handle_file_start s m p st
    | file_chunk ↦ handle_file_chunk k c accepts s m p st
    | file_complete ↦ handle_file_complete s m p true st
    | stream_start ↦ handle_stream_message s m
    | stream_chunk ↦ handle_stream_message s m
    | stream_end ↦ handle_stream_message s m
    | _ ↦ s
  ]

  unfoldable pub handle_incoming : Engine → MessagePayload → Peer → Stamp → Engine
  handle_incoming s m p st = elim (given p.public_key) [
    | none ↦ s
    | some key ↦
        let verified = c.verify_signature (get_signable_content k.b64encode m) m.signature key in
        if not verified then s else dispatch s m p verified st
  ]

  -- The node reads what came from a peer and calls the engine with its message.
  unfoldable pub receive : Engine → Bytes → Peer → Stamp → Engine
  receive s input p st =
      let (node, message) = handle_input k accepts s.node st.ticks input p in
      let s' : Engine = record s { node = node } in
      elim message [ none ↦ s' | some m ↦ handle_incoming s' m (seen st.ticks p) st ]
