-- ===== src/Message/Names.antt =====
-- src/core/message.py: the names of the types of messages.
use blockchain_messaging_pro.Common.{◌≡◌, refl, sym, ap, ◌∙◌, true, ok-injective}
use blockchain_messaging_pro.Json.Quoted.{IsText, is_text, is_text-IsText}
use blockchain_messaging_pro.Message.{
  MessageType, text, ack, file, file_chunk, file_complete, file_error, stream_start, stream_chunk,
  stream_end, handshake, handshake_ack, peer_discovery, ping, pong, register, register_ack,
  peer_list, chain_status, chain_request, chain_response, chain_sync_start, chain_sync_end,
  type_name, type_named,
}
use blockchain_messaging_pro.Message.RoundTrip.{type_named-type_name}

type_name-is_text : (t : MessageType) → is_text (type_name t) ≡ true
unfolding is_text type_name
type_name-is_text text = refl
type_name-is_text ack = refl
type_name-is_text file = refl
type_name-is_text file_chunk = refl
type_name-is_text file_complete = refl
type_name-is_text file_error = refl
type_name-is_text stream_start = refl
type_name-is_text stream_chunk = refl
type_name-is_text stream_end = refl
type_name-is_text handshake = refl
type_name-is_text handshake_ack = refl
type_name-is_text peer_discovery = refl
type_name-is_text ping = refl
type_name-is_text pong = refl
type_name-is_text register = refl
type_name-is_text register_ack = refl
type_name-is_text peer_list = refl
type_name-is_text chain_status = refl
type_name-is_text chain_request = refl
type_name-is_text chain_response = refl
type_name-is_text chain_sync_start = refl
type_name-is_text chain_sync_end = refl

pub type_name-IsText : (t : MessageType) → IsText (type_name t)
type_name-IsText t = is_text-IsText (type_name t) (type_name-is_text t)

-- Different types have different names.
pub type_name-injective : (s t : MessageType) → type_name s ≡ type_name t → s ≡ t
type_name-injective s t e =
    ok-injective (sym (type_named-type_name s) ∙ ap type_named e ∙ type_named-type_name t)
