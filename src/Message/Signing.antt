-- ===== src/Message/Signing.antt =====
-- What the signature of a message covers.
use blockchain_messaging_pro.Common.{◌≡◌, refl, Option, Str, Bytes}
use blockchain_messaging_pro.Json.{Fields}
use blockchain_messaging_pro.Message.{MessagePayload, get_signable_content}
use blockchain_messaging_pro.Message.Creation.{signed, create_text_message, create_ack_message}

module _ (b64encode : Bytes → Str) where
  signed-signature :
      (sign_func : Bytes → Bytes) (m : MessagePayload)
      → (signed b64encode sign_func m).signature
        ≡ sign_func (get_signable_content b64encode (signed b64encode sign_func m))
  unfolding signed get_signable_content
  signed-signature sign_func m = refl

  -- The signature that `create_text_message` puts on a message, encrypted or not, is the one of the
  -- content that `get_signable_content` gives for the finished message, and so it is for
  -- `create_ack_message`.
  pub create-signature :
      (id now sender recipient message : Str) (sign_func : Bytes → Bytes)
      (encrypted : Option (Bytes → Bytes × Bytes))
      → let m = create_text_message b64encode id now sender recipient message sign_func encrypted in
        let a = create_ack_message b64encode id now sender recipient message sign_func in
        (m.signature ≡ sign_func (get_signable_content b64encode m))
        × (a.signature ≡ sign_func (get_signable_content b64encode a))
  unfolding create_text_message create_ack_message
  create-signature id now sender recipient message sign_func encrypted =
      (signed-signature sign_func _, signed-signature sign_func _)

  -- The content that is signed does not depend on the metadata: a message whose metadata is
  -- exchanged has the same signed content.
  pub get_signable_content-metadata :
      (m : MessagePayload) (metadata : Fields)
      → get_signable_content b64encode (record m { metadata = metadata })
        ≡ get_signable_content b64encode m
  unfolding get_signable_content
  get_signable_content-metadata m metadata = refl
