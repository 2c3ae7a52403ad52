-- ===== src/Message.antt =====
-- src/core/message.py: the messages of the protocol, what is signed of them, and their dictionary.
-- `b64encode` and `b64decode` are the coder of the library; generated ids and times are arguments.
pub mod Creation
pub mod Packing
pub mod RoundTrip
pub mod Signing
pub mod Binding
pub mod Names
use blockchain_messaging_pro.Common.{
  ℕ, Bool, true, false, Option, none, some, List, [], ◌∷◌, ◌++◌, Str, Bytes, codes, encode, str_beq,
  if◌then◌else◌, Result, ok, err, ◌>>=◌, key_error, type_error,
}
use blockchain_messaging_pro.Json.{
  Json, num, float, str, obj, Fields, end, field, get_field, truthy, dumps,
}
use blockchain_messaging_pro.Block.{num_at, str_at, float_at, obj_at}

pub data MessageType : Type 0 where
  text ack : MessageType
  file file_chunk file_complete file_error : MessageType
  stream_start stream_chunk stream_end : MessageType
  handshake handshake_ack peer_discovery ping pong : MessageType
  register register_ack peer_list : MessageType
  chain_status chain_request chain_response chain_sync_start chain_sync_end : MessageType

-- `type.name`
unfoldable pub type_name : MessageType → Str
type_name text = codes "TEXT"
type_name ack = codes "ACK"
type_name file = codes "FILE"
type_name file_chunk = codes "FILE_CHUNK"
type_name file_complete = codes "FILE_COMPLETE"
type_name file_error = codes "FILE_ERROR"
type_name stream_start = codes "STREAM_START"
type_name stream_chunk = codes "STREAM_CHUNK"
type_name stream_end = codes "STREAM_END"
type_name handshake = codes "HANDSHAKE"
type_name handshake_ack = codes "HANDSHAKE_ACK"
type_name peer_discovery = codes "PEER_DISCOVERY"
type_name ping = codes "PING"
type_name pong = codes "PONG"
type_name register = codes "REGISTER"
type_name register_ack = codes "REGISTER_ACK"
type_name peer_list = codes "PEER_LIST"
type_name chain_status = codes "CHAIN_STATUS"
type_name chain_request = codes "CHAIN_REQUEST"
type_name chain_response = codes "CHAIN_RESPONSE"
type_name chain_sync_start = codes "CHAIN_SYNC_START"
type_name chain_sync_end = codes "CHAIN_SYNC_END"

abbrev pub message_types : List MessageType
message_types =
    text ∷ ack ∷ file ∷ file_chunk ∷ file_complete ∷ file_error ∷ stream_start ∷ stream_chunk
    ∷ stream_end ∷ handshake ∷ handshake_ack ∷ peer_discovery ∷ ping ∷ pong ∷ register
    ∷ register_ack ∷ peer_list ∷ chain_status ∷ chain_request ∷ chain_response ∷ chain_sync_start
    ∷ chain_sync_end ∷ []

unfoldable pub named_in : Str → List MessageType → Result MessageType
named_in name [] = err key_error
named_in name (t ∷ ts) =
    let rest = named_in name ts in if str_beq (type_name t) name then ok t else rest

-- `MessageType[name]`
unfoldable pub type_named : Str → Result MessageType
type_named name = named_in name message_types

pub record ChunkInfo : Type 0 where
  pub sequence : ℕ
  pub total : ℕ
  pub stream_id : Str
  pub hash : Str

unfoldable pub chunk_to_dict : ChunkInfo → Fields
chunk_to_dict c = field (codes "sequence") (num c.sequence) (
    field (codes "total") (num c.total)
      (field (codes "stream_id") (str c.stream_id) (field (codes "hash") (str c.hash) end)))

unfoldable pub chunk_from_dict : Json → Result ChunkInfo
chunk_from_dict (obj fs) = do
  sequence ← num_at fs (codes "sequence")
  total ← num_at fs (codes "total")
  stream_id ← str_at fs (codes "stream_id")
  hash ← str_at fs (codes "hash")
  ok (record { sequence = sequence; total = total; stream_id = stream_id; hash = hash })
chunk_from_dict _ = err type_error

-- `type` is named `kind` here
pub record MessagePayload : Type 0 where
  pub id : Str
  pub kind : MessageType
  pub sender : Str
  pub recipient : Str
  pub timestamp : Str
  pub content : Bytes
  pub signature : Bytes
  pub nonce : Option Bytes
  pub chunk_info : Option ChunkInfo
  pub metadata : Fields

-- `data.get("metadata", {})`
unfoldable pub metadata_of : Fields → Result Fields
metadata_of fs = elim (get_field fs (codes "metadata")) [
  | none ↦ ok end
  | some (obj d) ↦ ok d
  | some _ ↦ err type_error
]

-- `"chunk_info" in data and data["chunk_info"]`
unfoldable pub chunk_info_of : Fields → Result (Option ChunkInfo)
chunk_info_of fs = elim (get_field fs (codes "chunk_info")) [
  | none ↦ ok none
  | some j ↦ if truthy j then (do c ← chunk_from_dict j; ok (some c)) else ok none
]

unfoldable pub is_broadcast : MessagePayload → Bool
is_broadcast m = str_beq m.recipient (codes "*")

unfoldable pub is_streaming : MessagePayload → Bool
is_streaming m = elim m.kind [
  | stream_start ↦ true
  | stream_chunk ↦ true
  | stream_end ↦ true
  | _ ↦ false
]

-- `if self.chunk_info: result["chunk_info"] = ...`
abbrev pub chunk_field : Option ChunkInfo → Fields
chunk_field none = end
chunk_field (some c) = field (codes "chunk_info") (obj (chunk_to_dict c)) end

module _ (b64encode : Bytes → Str) where
  -- `if self.nonce: result["nonce"] = ...`: an empty nonce is left out
  abbrev pub nonce_field : Option Bytes → Fields → Fields
  nonce_field none rest = rest
  nonce_field (some []) rest = rest
  nonce_field (some (x ∷ xs)) rest = field (codes "nonce") (str (b64encode (x ∷ xs))) rest

  unfoldable pub to_dict : MessagePayload → Fields
  to_dict m = field (codes "id") (str m.id) (
      field (codes "type") (str (type_name m.kind)) (
        field (codes "sender") (str m.sender) (
          field (codes "recipient") (str m.recipient) (
            field (codes "timestamp") (float m.timestamp) (
              field (codes "content") (str (b64encode m.content)) (
                field (codes "signature") (str (b64encode m.signature)) (
                  field (codes "metadata") (obj m.metadata)
                    (nonce_field m.nonce (chunk_field m.chunk_info)))))))))

  unfoldable pub get_signable_content : MessagePayload → Bytes
  get_signable_content m = encode (
      dumps true (
        obj (
          field (codes "id") (str m.id) (
            field (codes "type") (str (type_name m.kind)) (
              field (codes "sender") (str m.sender) (
                field (codes "recipient") (str m.recipient) (
                  field (codes "timestamp") (float m.timestamp) (
                    field (codes "content") (str (b64encode m.content))
                      (nonce_field m.nonce (chunk_field m.chunk_info))))))))))

module _ (b64decode : Str → Result Bytes) where
  unfoldable pub nonce_of : Fields → Result (Option Bytes)
  nonce_of fs = elim (get_field fs (codes "nonce")) [
    | none ↦ ok none
    | some (str []) ↦ ok none
    | some (str (x ∷ xs)) ↦ do n ← b64decode (x ∷ xs); ok (some n)
    | some j ↦ if truthy j then err type_error else ok none
  ]

  unfoldable pub from_dict : Fields → Result MessagePayload
  from_dict fs = do
    chunk_info ← chunk_info_of fs
    nonce ← nonce_of fs
    id ← str_at fs (codes "id")
    name ← str_at fs (codes "type")
    kind ← type_named name
    sender ← str_at fs (codes "sender")
    recipient ← str_at fs (codes "recipient")
    timestamp ← float_at fs (codes "timestamp")
    content_text ← str_at fs (codes "content")
    content ← b64decode content_text
    signature_text ← str_at fs (codes "signature")
    signature ← b64decode signature_text
    metadata ← metadata_of fs
    ok (record {
      id = id;
      kind = kind;
      sender = sender;
      recipient = recipient;
      timestamp = timestamp;
      content = content;
      signature = signature;
      nonce = nonce;
      chunk_info = chunk_info;
      metadata = metadata;
    })
