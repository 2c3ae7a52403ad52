-- ===== src/Media/Transfer.antt =====
-- src/engine/media.py: `MediaTransfer`, the state of one transfer. Times are natural numbers of
-- clock ticks, read by the caller.
use blockchain_messaging_pro.Common.{
  ℕ, ◌+◌, ◌-◌, Bool, false, Option, none, some, [], ◌∷◌, ◌++◌, Str, Bytes, length, leb, str_beq,
}
use blockchain_messaging_pro.Media.{MediaInfo}

pub data TransferStatus : Type 0 where
  pending in_progress completed failed cancelled : TransferStatus

-- the texts "send" and "receive"
pub data Direction : Type 0 where
  sends receives : Direction

pub record MediaTransfer : Type 0 where
  pub id : Str
  pub media_info : MediaInfo
  pub peer_id : Str
  pub direction : Direction
  pub status : TransferStatus
  pub chunks_completed : ℕ
  pub bytes_transferred : ℕ
  pub started_at : Option ℕ
  pub completed_at : Option ℕ
  pub error : Option Str
  pub content : Bytes

-- the constructor, with its default values
unfoldable pub new_transfer : Str → MediaInfo → Str → Direction → MediaTransfer
new_transfer id info peer_id direction = record {
  id = id;
  media_info = info;
  peer_id = peer_id;
  direction = direction;
  status = pending;
  chunks_completed = 0;
  bytes_transferred = 0;
  started_at = none;
  completed_at = none;
  error = none;
  content = [];
}

unfoldable pub start : ℕ → MediaTransfer → MediaTransfer
start now t = record t { status = in_progress; started_at = some now }

unfoldable pub complete : ℕ → MediaTransfer → MediaTransfer
complete now t = record t { status = completed; completed_at = some now }

unfoldable pub fail : ℕ → Str → MediaTransfer → MediaTransfer
fail now error t = record t { status = failed; completed_at = some now; error = some error }

unfoldable pub cancel : ℕ → MediaTransfer → MediaTransfer
cancel now t = record t { status = cancelled; completed_at = some now }

unfoldable pub add_chunk : Bytes → MediaTransfer → MediaTransfer
add_chunk chunk_data t =
    let content = t.content ++ chunk_data in
    record t {
      content = content;
      chunks_completed = t.chunks_completed + 1;
      bytes_transferred = length content;
    }

unfoldable pub is_complete : MediaTransfer → Bool
is_complete t = leb t.media_info.chunk_count t.chunks_completed

-- `end = self.completed_at or now`
unfoldable pub elapsed_time : ℕ → MediaTransfer → Option ℕ
elapsed_time now t = elim t.started_at [
  | none ↦ none
  | some from ↦ elim t.completed_at [ none ↦ some (now - from) | some to ↦ some (to - from) ]
]

-- Nothing received never has the right hash.
unfoldable pub verify_hash : (Bytes → Str) → MediaTransfer → Bool
verify_hash sha256 t = elim t.content [
  | [] ↦ false
  | x ∷ xs ↦ str_beq (sha256 (x ∷ xs)) t.media_info.file_hash
]
