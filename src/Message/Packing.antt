-- ===== src/Message/Packing.antt =====
-- `to_bytes`, `from_bytes`, `to_json` and `from_json` of src/core/message.py. The coders of the
-- libraries (base64, MessagePack, JSON and the decoding of UTF-8) are a record, `Codecs`.
use blockchain_messaging_pro.Common.{
  ◌≡◌, false, Option, ◌∷◌, ℕ, Str, Bytes, Result, ok, err, ◌>>=◌, type_error,
}
use blockchain_messaging_pro.Json.{Json, obj, Fields, dumps}
use blockchain_messaging_pro.Message.{MessagePayload, to_dict, from_dict}
use blockchain_messaging_pro.Message.RoundTrip.{without_empty_nonce, from_dict-to_dict_message}

pub record Codecs : Type 0 where
  pub b64encode : Bytes → Str
  pub b64decode : Str → Result Bytes
  pub packb : Fields → Bytes
  pub unpackb : Bytes → Result Fields
  pub loads : Str → Result Json
  pub decode : Bytes → Option Str

-- Decoding base64 undoes encoding, and the code of some bytes is not empty.
pub record IsBase64 (k : Codecs) : Type 0 where
  pub decodes : (b : Bytes) → k.b64decode (k.b64encode b) ≡ ok b
  pub not_empty : (x : ℕ) (xs : Bytes) → (y : ℕ) × (ys : Str) × (k.b64encode (x ∷ xs) ≡ y ∷ ys)

module _ (k : Codecs) where
  unfoldable pub message_to_bytes : MessagePayload → Bytes
  message_to_bytes m = k.packb (to_dict k.b64encode m)

  unfoldable pub message_from_bytes : Bytes → Result MessagePayload
  message_from_bytes content = do fs ← k.unpackb content; from_dict k.b64decode fs

  unfoldable pub to_json : MessagePayload → Str
  to_json m = dumps false (obj (to_dict k.b64encode m))

  unfoldable pub from_json : Str → Result MessagePayload
  from_json t = do j ← k.loads t; elim j [ obj fs ↦ from_dict k.b64decode fs | _ ↦ err type_error ]

  -- A message whose dictionary MessagePack reads back is read back from its bytes.
  pub from_bytes-to_bytes_message :
      (m : MessagePayload)
      → IsBase64 k
      → k.unpackb (k.packb (to_dict k.b64encode m)) ≡ ok (to_dict k.b64encode m)
      → message_from_bytes (message_to_bytes m) ≡ ok (without_empty_nonce m)
  unfolding message_to_bytes message_from_bytes
  from_bytes-to_bytes_message m b64 unpacks =
      rw (unpacks) (from_dict-to_dict_message k.b64encode k.b64decode b64.decodes b64.not_empty m)
