-- ===== src/Message/Creation.antt =====
-- src/core/message.py: the functions that create text messages and acknowledgments and sign them.
use blockchain_messaging_pro.Common.{false, Option, none, some, [], Str, Bytes, codes, encode}
use blockchain_messaging_pro.Json.{str, obj, Fields, end, field, dumps}
use blockchain_messaging_pro.Message.{
  MessageType, ChunkInfo, MessagePayload, text, ack, get_signable_content,
}

-- `MessagePayload.create`, whose generated id and time are arguments
unfoldable pub create :
    Str
    → Str
    → MessageType
    → Str
    → Str
    → Bytes
    → Option Bytes
    → Option ChunkInfo
    → Fields
    → MessagePayload
create id now kind sender recipient content nonce chunk_info metadata = record {
  id = id;
  kind = kind;
  sender = sender;
  recipient = recipient;
  timestamp = now;
  content = content;
  signature = [];
  nonce = nonce;
  chunk_info = chunk_info;
  metadata = metadata;
}

module _ (b64encode : Bytes → Str) where
  -- the message with its signature, made of the message without one
  unfoldable pub signed : (Bytes → Bytes) → MessagePayload → MessagePayload
  signed sign_func m = record m { signature = sign_func (get_signable_content b64encode m) }

  -- `encrypted` is the result of `encrypt_func`, where there are a function and a key
  unfoldable pub create_text_message :
      Str
      → Str
      → Str
      → Str
      → Str
      → (Bytes → Bytes)
      → Option (Bytes → Bytes × Bytes)
      → MessagePayload
  create_text_message id now sender recipient message sign_func encrypted =
      let (nonce, content) : Option Bytes × Bytes = elim encrypted [
        | none ↦ (none, encode message)
        | some f ↦ let (n, c) = f (encode message) in (some n, c)
      ] in
      signed sign_func (record {
        id = id;
        kind = text;
        sender = sender;
        recipient = recipient;
        timestamp = now;
        content = content;
        signature = [];
        nonce = nonce;
        chunk_info = none;
        metadata = end;
      })

  unfoldable pub create_ack_message : Str → Str → Str → Str → Str → (Bytes → Bytes) → MessagePayload
  create_ack_message id now sender recipient original_message_id sign_func =
      signed sign_func (record {
        id = id;
        kind = ack;
        sender = sender;
        recipient = recipient;
        timestamp = now;
        content =
            encode (dumps false (obj (field (codes "ack_for") (str original_message_id) end)));
        signature = [];
        nonce = none;
        chunk_info = none;
        metadata = end;
      })
