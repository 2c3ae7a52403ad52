-- ===== src/Media.antt =====
-- src/engine/media.py: media types, their limits, the metadata of files and the reading of a file
-- in blocks. What the file system and `mimetypes` say of a path is an argument.
pub mod Transfer
pub mod Manager
pub mod Reading
pub mod RoundTrip
use blockchain_messaging_pro.Common.{
  ℕ, zero, suc, ◌+◌, ◌-◌, ◌*◌, ◌/◌, Bool, true, false, not, Option, none, some, List, [], ◌∷◌, ◌++◌,
  Str, Bytes, codes, ◌⊎◌, inl, inr, length, take, drop, ltb, str_beq, str_eq, if◌then◌else◌, Result,
  ok, err, ◌>>=◌, key_error, type_error,
}
use blockchain_messaging_pro.Common.Dict
use blockchain_messaging_pro.Common.Dict.{Dict}
use blockchain_messaging_pro.Json.{Json, num, str, obj, Fields, end, field}
use blockchain_messaging_pro.Block.{num_at, str_at}

pub data MediaType : Type 0 where
  image audio video document archive unknown : MediaType

-- `MIME_TYPE_MAP`
unfoldable pub mime_type_map : Dict Str MediaType
mime_type_map =
    (codes "image/jpeg", image)
    ∷ (codes "image/png", image)
    ∷ (codes "image/gif", image)
    ∷ (codes "image/webp", image)
    ∷ (codes "image/svg+xml", image)
    ∷ (codes "image/bmp", image)
    ∷ (codes "image/tiff", image)
    ∷ (codes "audio/mpeg", audio)
    ∷ (codes "audio/mp3", audio)
    ∷ (codes "audio/wav", audio)
    ∷ (codes "audio/ogg", audio)
    ∷ (codes "audio/aac", audio)
    ∷ (codes "audio/flac", audio)
    ∷ (codes "audio/x-m4a", audio)
    ∷ (codes "audio/mp4", audio)
    ∷ (codes "video/mp4", video)
    ∷ (codes "video/webm", video)
    ∷ (codes "video/quicktime", video)
    ∷ (codes "video/x-msvideo", video)
    ∷ (codes "video/x-matroska", video)
    ∷ (codes "video/mpeg", video)
    ∷ (codes "application/pdf", document)
    ∷ (codes "application/msword", document)
    ∷ (codes "application/vnd.openxmlformats-officedocument.wordprocessingml.document", document)
    ∷ (codes "application/vnd.ms-excel", document)
    ∷ (codes "application/vnd.openxmlformats-officedocument.spreadsheetml.sheet", document)
    ∷ (codes "text/plain", document)
    ∷ (codes "text/markdown", document)
    ∷ (codes "text/csv", document)
    ∷ (codes "application/json", document)
    ∷ (codes "application/zip", archive)
    ∷ (codes "application/x-tar", archive)
    ∷ (codes "application/gzip", archive)
    ∷ (codes "application/x-7z-compressed", archive)
    ∷ (codes "application/x-rar-compressed", archive)
    ∷ []

unfoldable pub get_media_type : Str → MediaType
get_media_type mime_type = elim (Dict.get mime_type_map mime_type) [ none ↦ unknown | some t ↦ t ]

-- `CHUNK_SIZES`, which has every media type
unfoldable pub get_chunk_size : MediaType → ℕ
get_chunk_size image = 256 * 1024
get_chunk_size audio = 512 * 1024
get_chunk_size video = 1024 * 1024
get_chunk_size document = 256 * 1024
get_chunk_size archive = 512 * 1024
get_chunk_size unknown = 256 * 1024

-- `MAX_FILE_SIZES`, which has every media type
unfoldable pub get_max_file_size : MediaType → ℕ
get_max_file_size image = 50 * 1024 * 1024
get_max_file_size audio = 200 * 1024 * 1024
get_max_file_size video = 2 * 1024 * 1024 * 1024
get_max_file_size document = 100 * 1024 * 1024
get_max_file_size archive = 500 * 1024 * 1024
get_max_file_size unknown = 50 * 1024 * 1024

-- the name of a member of the enumeration
unfoldable pub media_type_name : MediaType → Str
media_type_name image = codes "IMAGE"
media_type_name audio = codes "AUDIO"
media_type_name video = codes "VIDEO"
media_type_name document = codes "DOCUMENT"
media_type_name archive = codes "ARCHIVE"
media_type_name unknown = codes "UNKNOWN"

-- `MediaType[name]`
unfoldable pub media_type_named : Str → Result MediaType
media_type_named name =
    if str_beq name (codes "IMAGE")
    then ok image
    else if str_beq name (codes "AUDIO")
    then ok audio
    else if str_beq name (codes "VIDEO")
    then ok video
    else if str_beq name (codes "DOCUMENT")
    then ok document
    else if str_beq name (codes "ARCHIVE")
    then ok archive
    else if str_beq name (codes "UNKNOWN")
    then ok unknown
    else err key_error

pub record MediaInfo : Type 0 where
  pub filename : Str
  pub mime_type : Str
  pub media_type : MediaType
  pub size : ℕ
  pub file_hash : Str
  pub chunk_count : ℕ
  pub chunk_size : ℕ

unfoldable pub info_to_dict : MediaInfo → Fields
info_to_dict i = field (codes "filename") (str i.filename) (
    field (codes "mime_type") (str i.mime_type) (
      field (codes "media_type") (str (media_type_name i.media_type)) (
        field (codes "size") (num i.size) (
          field (codes "file_hash") (str i.file_hash) (
            field (codes "chunk_count") (num i.chunk_count)
              (field (codes "chunk_size") (num i.chunk_size) end))))))

unfoldable pub info_from_dict : Json → Result MediaInfo
info_from_dict (obj fs) = do
  filename ← str_at fs (codes "filename")
  mime_type ← str_at fs (codes "mime_type")
  type_text ← str_at fs (codes "media_type")
  media_type ← media_type_named type_text
  size ← num_at fs (codes "size")
  file_hash ← str_at fs (codes "file_hash")
  chunk_count ← num_at fs (codes "chunk_count")
  chunk_size ← num_at fs (codes "chunk_size")
  ok (record {
    filename = filename;
    mime_type = mime_type;
    media_type = media_type;
    size = size;
    file_hash = file_hash;
    chunk_count = chunk_count;
    chunk_size = chunk_size;
  })
info_from_dict _ = err type_error

-- what the file system and `mimetypes.guess_type` say of a path
pub record PathFacts : Type 0 where
  pub exists : Bool
  pub is_file : Bool
  pub name : Str
  pub content : Bytes
  pub guessed : Option Str

-- `path`, `size` and the clock's reading are left to the content
pub record MediaFile : Type 0 where
  pub filename : Str
  pub mime_type : Str
  pub media_type : MediaType
  pub size : ℕ
  pub file_hash : Str
  pub content : Bytes

pub data MediaError : Type 0 where
  file_not_found not_a_file file_too_large : MediaError

-- `mime_type or "application/octet-stream"`
unfoldable pub detect_mime_type : PathFacts → Str
detect_mime_type p = elim p.guessed [
  | none ↦ codes "application/octet-stream"
  | some [] ↦ codes "application/octet-stream"
  | some (x ∷ xs) ↦ x ∷ xs
]

-- the loop `chunk = f.read(size); if not chunk: break`, with fuel for the rounds
unfoldable pub read_loop : ℕ → ℕ → Bytes → List Bytes
read_loop zero size content = []
read_loop (suc fuel) size content =
    let rest = read_loop fuel size (drop size content) in
    elim (take size content) [ [] ↦ [] | x ∷ xs ↦ (x ∷ xs) ∷ rest ]

unfoldable pub read_blocks : ℕ → Bytes → List Bytes
read_blocks size content = read_loop (length content) size content

unfoldable pub join : List Bytes → Bytes
join [] = []
join (b ∷ bs) = b ++ join bs

-- `read_chunks` with its size given, or the one of the media type
unfoldable pub read_chunks : MediaFile → Option ℕ → List Bytes
read_chunks f none = read_blocks (get_chunk_size f.media_type) f.content
read_chunks f (some size) = read_blocks size f.content

unfoldable pub to_media_info : MediaFile → MediaInfo
to_media_info f =
    let chunk_size = get_chunk_size f.media_type in
    record {
      filename = f.filename;
      mime_type = f.mime_type;
      media_type = f.media_type;
      size = f.size;
      file_hash = f.file_hash;
      chunk_count = (f.size + chunk_size - 1) / chunk_size;
      chunk_size = chunk_size;
    }

module _ (sha256 : Bytes → Str) where
  -- The digest after the updates is the one of the bytes joined.
  unfoldable pub calculate_file_hash : Bytes → Str
  calculate_file_hash content = sha256 (join (read_blocks 8192 content))

  unfoldable pub from_path : PathFacts → Bool → MediaError ⊎ MediaFile
  from_path p check =
      let mime_type = detect_mime_type p in
      let media_type = get_media_type mime_type in
      if not p.exists
      then inl file_not_found
      else if not p.is_file
      then inl not_a_file
      else if (if check then ltb (get_max_file_size media_type) (length p.content) else false)
      then inl file_too_large
      else inr (record {
        filename = p.name;
        mime_type = mime_type;
        media_type = media_type;
        size = length p.content;
        file_hash = calculate_file_hash p.content;
        content = p.content;
      })
