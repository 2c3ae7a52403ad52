-- ===== src/Handshake.antt =====
-- `HandshakeMessage` and `HandshakeAck` of src/network/protocol.py. A decoded value of a type that
-- the field is not declared with counts as an error at the point where it is read.
pub mod RoundTrip
use blockchain_messaging_pro.Common.{
  ℕ, Bool, false, Option, none, some, List, [], ◌∷◌, Str, Bytes, codes, encode, map, Result, ok,
  err, ◌>>=◌, expect, key_error, value_error, type_error,
}
use blockchain_messaging_pro.Json.{
  Json, null, bool, num, str, arr, obj, Items, nil, cons, items, Fields, end, field, get_field,
  dumps,
}
use blockchain_messaging_pro.Block.{num_at, str_at}
use blockchain_messaging_pro.Frame.{FrameType, handshake, handshake_ack, ProtocolFrame}
use blockchain_messaging_pro.Message.Packing.{Codecs}

abbrev pub protocol_version : ℕ
protocol_version = 1

-- `DEFAULT_CAPABILITIES`
abbrev pub default_capabilities : List Str
default_capabilities = codes "text" ∷ codes "blockchain" ∷ []

pub record HandshakeMessage : Type 0 where
  pub version : ℕ
  pub peer_id : Str
  pub name : Option Str
  pub signing_key : Bytes
  pub encryption_key : Bytes
  pub capabilities : List Str

pub record HandshakeAck : Type 0 where
  pub accepted : Bool
  pub peer_id : Str
  pub reason : Option Str

abbrev pub str_or_null : Option Str → Json
str_or_null none = null
str_or_null (some t) = str t

-- `data.get(key)` of a text or None
unfoldable pub optional_at : Fields → Str → Result (Option Str)
optional_at fs key = elim (get_field fs key) [
  | none ↦ ok none
  | some null ↦ ok none
  | some (str t) ↦ ok (some t)
  | some _ ↦ err type_error
]

unfoldable pub texts : Items → Result (List Str)
texts nil = ok []
texts (cons j js) = elim j [ str t ↦ do rest ← texts js; ok (t ∷ rest) | _ ↦ err type_error ]

-- `data.get("capabilities", [])`
unfoldable pub capabilities_of : Fields → Result (List Str)
capabilities_of fs = elim (get_field fs (codes "capabilities")) [
  | none ↦ ok []
  | some (arr js) ↦ texts js
  | some _ ↦ err type_error
]

unfoldable pub bool_at : Fields → Str → Result Bool
bool_at fs key = elim (get_field fs key) [
  | none ↦ err key_error
  | some (bool b) ↦ ok b
  | some _ ↦ err type_error
]

module _ (k : Codecs) where
  unfoldable pub handshake_to_dict : HandshakeMessage → Fields
  handshake_to_dict h = field (codes "version") (num h.version) (
      field (codes "peer_id") (str h.peer_id) (
        field (codes "name") (str_or_null h.name) (
          field (codes "signing_key") (str (k.b64encode h.signing_key)) (
            field (codes "encryption_key") (str (k.b64encode h.encryption_key))
              (field (codes "capabilities") (arr (items (map str h.capabilities))) end)))))

  unfoldable pub handshake_from_dict : Fields → Result HandshakeMessage
  handshake_from_dict fs = do
    version ← num_at fs (codes "version")
    peer_id ← str_at fs (codes "peer_id")
    name ← optional_at fs (codes "name")
    signing_text ← str_at fs (codes "signing_key")
    signing_key ← k.b64decode signing_text
    encryption_text ← str_at fs (codes "encryption_key")
    encryption_key ← k.b64decode encryption_text
    capabilities ← capabilities_of fs
    ok (record {
      version = version;
      peer_id = peer_id;
      name = name;
      signing_key = signing_key;
      encryption_key = encryption_key;
      capabilities = capabilities;
    })

  unfoldable pub handshake_frame : HandshakeMessage → ProtocolFrame
  handshake_frame h = record {
    frame_type = handshake;
    payload = encode (dumps false (obj (handshake_to_dict h)));
  }

  -- `json.loads(frame.payload.decode())`, used as a dictionary
  unfoldable pub payload_fields : ProtocolFrame → Result Fields
  payload_fields f = do
    t ← expect value_error (k.decode f.payload)
    j ← k.loads t
    elim j [ obj fs ↦ ok fs | _ ↦ err type_error ]

  unfoldable pub handshake_from_frame : ProtocolFrame → Result HandshakeMessage
  handshake_from_frame f = elim f.frame_type [
    | handshake ↦ do fs ← payload_fields f; handshake_from_dict fs
    | _ ↦ err value_error
  ]

  unfoldable pub ack_fields : HandshakeAck → Fields
  ack_fields a =
      field (codes "accepted") (bool a.accepted) (
        field (codes "peer_id") (str a.peer_id) (field (codes "reason") (str_or_null a.reason) end))

  unfoldable pub ack_frame : HandshakeAck → ProtocolFrame
  ack_frame a = record {
    frame_type = handshake_ack;
    payload = encode (dumps false (obj (ack_fields a)));
  }

  unfoldable pub ack_from_frame : ProtocolFrame → Result HandshakeAck
  ack_from_frame f = elim f.frame_type [
    | handshake_ack ↦ do
      fs ← payload_fields f
      accepted ← bool_at fs (codes "accepted")
      peer_id ← str_at fs (codes "peer_id")
      reason ← optional_at fs (codes "reason")
      ok (record { accepted = accepted; peer_id = peer_id; reason = reason })
    | _ ↦ err value_error
  ]
