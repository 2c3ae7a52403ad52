-- ===== src/Handshake/RoundTrip.antt =====
-- Handshake messages and acknowledgments are read back from their frames.
use blockchain_messaging_pro.Common.{
  ◌≡◌, refl, false, Option, none, some, List, [], ◌∷◌, map, Str, encode, ok,
}
use blockchain_messaging_pro.Json.{str, obj, items, Fields, dumps, get_field}
use blockchain_messaging_pro.Block.{num_at, str_at}
use blockchain_messaging_pro.Message.Packing.{Codecs, IsBase64}
use blockchain_messaging_pro.Handshake.{
  HandshakeMessage, HandshakeAck, optional_at, texts, capabilities_of, bool_at, handshake_to_dict,
  handshake_from_dict, handshake_frame, handshake_from_frame, payload_fields, ack_fields, ack_frame,
  ack_from_frame,
}

-- The text of a dictionary survives UTF-8 and JSON.
pub record ReadsBack (k : Codecs) (fs : Fields) : Type 0 where
  pub decodes : k.decode (encode (dumps false (obj fs))) ≡ some (dumps false (obj fs))
  pub parses : k.loads (dumps false (obj fs)) ≡ ok (obj fs)

texts_back : (ts : List Str) → texts (items (map str ts)) ≡ ok ts
unfolding texts
texts_back [] = refl
texts_back (t ∷ ts) = rw (texts_back ts) refl

module _ (k : Codecs) where
  from_fields :
      (h : HandshakeMessage) (n : Option Str)
      → IsBase64 k
      → handshake_from_dict k (handshake_to_dict k (record h { name = n }))
        ≡ ok (record h { name = n })
  unfolding handshake_from_dict handshake_to_dict num_at str_at optional_at capabilities_of
      get_field
  from_fields h none b64 =
      rw (texts_back h.capabilities, b64.decodes h.signing_key, b64.decodes h.encryption_key) refl
  from_fields h (some t) b64 =
      rw (texts_back h.capabilities, b64.decodes h.signing_key, b64.decodes h.encryption_key) refl

  -- A handshake message, with any name or none and any capabilities, is read back from its frame if
  -- its dictionary survives JSON and UTF-8.
  pub handshake_from_frame-frame :
      (h : HandshakeMessage)
      → IsBase64 k
      → ReadsBack k (handshake_to_dict k h)
      → handshake_from_frame k (handshake_frame k h) ≡ ok h
  unfolding handshake_from_frame handshake_frame payload_fields
  handshake_from_frame-frame h b64 back = rw (back.decodes, back.parses) (from_fields h h.name b64)

  from_ack_fields :
      (a : HandshakeAck) (r : Option Str)
      → ReadsBack k (ack_fields k (record a { reason = r }))
      → ack_from_frame k (ack_frame k (record a { reason = r })) ≡ ok (record a { reason = r })
  unfolding ack_from_frame ack_frame payload_fields ack_fields bool_at str_at optional_at get_field
  from_ack_fields a none back = rw (back.decodes, back.parses) refl
  from_ack_fields a (some t) back = rw (back.decodes, back.parses) refl

  pub ack_from_frame-frame :
      (a : HandshakeAck) → ReadsBack k (ack_fields k a) → ack_from_frame k (ack_frame k a) ≡ ok a
  ack_from_frame-frame a back = from_ack_fields a a.reason back
