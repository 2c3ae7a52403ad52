-- ===== src/Media/Manager.antt =====
-- src/engine/media.py: `TransferManager`. A transfer that is changed outside it is put back under
-- its id, as the code shares the object.
use blockchain_messaging_pro.Common.{
  ℕ, ◌-◌, Bool, true, false, Option, none, some, List, [], ◌∷◌, Str, length, ltb, str_eq,
  if◌then◌else◌,
}
use blockchain_messaging_pro.Common.Dict
use blockchain_messaging_pro.Common.Dict.{Dict}
use blockchain_messaging_pro.Media.{MediaInfo, MediaFile, to_media_info}
use blockchain_messaging_pro.Media.Transfer.{
  TransferStatus, pending, in_progress, completed, failed, cancelled, sends, receives,
  MediaTransfer, new_transfer,
}

pub record TransferManager : Type 0 where
  pub max_concurrent : ℕ
  pub transfers : Dict Str MediaTransfer

unfoldable pub put_transfer : TransferManager → Str → MediaTransfer → TransferManager
put_transfer m id t = record m { transfers = Dict.put m.transfers id t }

unfoldable pub create_send_transfer :
    TransferManager → Str → MediaFile → Str → TransferManager × MediaTransfer
create_send_transfer m id f peer_id =
    let t = new_transfer id (to_media_info f) peer_id sends in (put_transfer m id t, t)

unfoldable pub create_receive_transfer :
    TransferManager → Str → MediaInfo → Str → TransferManager × MediaTransfer
create_receive_transfer m id info peer_id =
    let t = new_transfer id info peer_id receives in (put_transfer m id t, t)

unfoldable pub get_transfer : TransferManager → Str → Option MediaTransfer
get_transfer m id = Dict.get m.transfers id

unfoldable pub remove_transfer : TransferManager → Str → TransferManager × Bool
remove_transfer m id =
    if Dict.contains m.transfers id
    then (record m { transfers = Dict.remove m.transfers id }, true)
    else (m, false)

abbrev pub status_is : TransferStatus → TransferStatus → Bool
status_is pending pending = true
status_is in_progress in_progress = true
status_is completed completed = true
status_is failed failed = true
status_is cancelled cancelled = true
status_is _ _ = false

-- the comprehensions over the transfers with one status
unfoldable pub with_status : TransferStatus → List MediaTransfer → List MediaTransfer
with_status s [] = []
with_status s (t ∷ ts) =
    let rest = with_status s ts in if status_is t.status s then t ∷ rest else rest

unfoldable pub get_active_transfers : TransferManager → List MediaTransfer
get_active_transfers m = with_status in_progress (Dict.values m.transfers)

unfoldable pub get_pending_transfers : TransferManager → List MediaTransfer
get_pending_transfers m = with_status pending (Dict.values m.transfers)

unfoldable pub get_completed_transfers : TransferManager → List MediaTransfer
get_completed_transfers m = with_status completed (Dict.values m.transfers)

unfoldable pub active_count : TransferManager → ℕ
active_count m = length (get_active_transfers m)

unfoldable pub can_start_transfer : TransferManager → Bool
can_start_transfer m = ltb (active_count m) m.max_concurrent

-- `age > older_than_seconds` of a transfer that has ended
unfoldable pub is_old : ℕ → ℕ → MediaTransfer → Bool
is_old now older_than t = elim t.status [
  | pending ↦ false
  | in_progress ↦ false
  | _ ↦ elim t.completed_at [ none ↦ false | some at ↦ ltb older_than (now - at) ]
]

-- the ids that the first loop of `cleanup_completed` collects
unfoldable pub old_ids : ℕ → ℕ → Dict Str MediaTransfer → List Str
old_ids now older_than [] = []
old_ids now older_than ((id, t) ∷ ts) =
    let rest = old_ids now older_than ts in if is_old now older_than t then id ∷ rest else rest

unfoldable pub remove_all : List Str → Dict Str MediaTransfer → Dict Str MediaTransfer
remove_all [] d = d
remove_all (id ∷ ids) d = remove_all ids (Dict.remove d id)

unfoldable pub cleanup_completed : TransferManager → ℕ → ℕ → TransferManager × ℕ
cleanup_completed m now older_than =
    let to_remove = old_ids now older_than m.transfers in
    (record m { transfers = remove_all to_remove m.transfers }, length to_remove)
