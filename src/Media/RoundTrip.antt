-- ===== src/Media/RoundTrip.antt =====
-- src/engine/media.py: the metadata of a file and their dictionary.
use blockchain_messaging_pro.Common.{◌≡◌, refl, ok}
use blockchain_messaging_pro.Json.{obj, get_field}
use blockchain_messaging_pro.Block.{num_at, str_at}
use blockchain_messaging_pro.Media.{
  MediaType, image, audio, video, document, archive, unknown, media_type_name, media_type_named,
  MediaInfo, info_to_dict, info_from_dict,
}

media_type_named-name : (t : MediaType) → media_type_named (media_type_name t) ≡ ok t
unfolding media_type_named media_type_name
media_type_named-name image = refl
media_type_named-name audio = refl
media_type_named-name video = refl
media_type_named-name document = refl
media_type_named-name archive = refl
media_type_named-name unknown = refl

pub info_from_dict-to_dict : (i : MediaInfo) → info_from_dict (obj (info_to_dict i)) ≡ ok i
unfolding info_from_dict info_to_dict num_at str_at get_field
info_from_dict-to_dict i = rw (media_type_named-name i.media_type) refl
