-- ===== src/Sync.antt =====
-- src/core/sync.py: the synchronizer's state and its handlers. A handler runs as one step here;
-- `sender` answers for the transport, and the messages that were handed to it are the log `sent`.
pub mod Transfer
pub mod Batches
pub mod Adoption
pub mod Completion
use blockchain_messaging_pro.Common.{
  ℕ, zero, suc, ◌+◌, ◌-◌, ◌/◌, min, Bool, true, false, not, ◌&&◌, Option, none, some, List, [], ◌∷◌,
  ◌++◌, map, Str, codes, length, nat_beq, leb, str_beq, ◌||◌, if◌then◌else◌, Error, Result, ok, err,
  ◌>>=◌, expect, index_error, type_error, str_eq, head?,
}
use blockchain_messaging_pro.Common.Dict
use blockchain_messaging_pro.Common.Dict.{Dict}
use blockchain_messaging_pro.Json.{
  truthy_at, Json, null, bool, num, float, str, arr, obj, Items, nil, Fields, end, field, items,
  get_field, to_list,
}
use blockchain_messaging_pro.Block
use blockchain_messaging_pro.Block.{Block, num_at, str_at}
use blockchain_messaging_pro.Chain.State.{
  Blockchain, ChainStatus, height, get_blocks_from, get_status, should_accept_chain,
}
use blockchain_messaging_pro.Chain.Methods.{replace_chain}
use blockchain_messaging_pro.Chain.Storage.{blocks_from}

pub data SyncState : Type 0 where
  idle requesting_status comparing downloading validating applying complete failed : SyncState

-- the texts that `error` is set to
pub data SyncError : Type 0 where
  request_failed no_blocks replacement_failed : SyncError
  invalid_block : Error → SyncError

-- Python's difference of two natural numbers
pub data ℤ : Type 0 where
  pos : ℕ → ℤ
  negsuc : ℕ → ℤ

unfoldable pub difference : ℕ → ℕ → ℤ
difference a b = if leb b a then pos (a - b) else negsuc (b - a - 1)

unfoldable pub at_most : ℤ → ℕ → Bool
at_most (pos n) received = leb n received
at_most (negsuc n) received = true

pub record SyncProgress : Type 0 where
  pub state : SyncState
  pub peer_id : Str
  pub total_blocks : ℤ
  pub received_blocks : ℕ
  pub error : Option SyncError

pub record SyncRequest : Type 0 where
  pub start_height : ℕ
  pub end_height : ℕ
  pub peer_id : Str

-- the messages that the synchronizer makes, with their metadata
pub data Message : Type 0 where
  chain_status : ChainStatus → Bool → Message
  chain_request : ℕ → ℕ → Message
  chain_response : ℕ → List Json → Message

pub record ChainSynchronizer : Type 0 where
  pub blockchain : Blockchain
  pub syncing : Bool
  pub sync_progress : Dict Str SyncProgress
  pub pending_requests : Dict Str SyncRequest
  pub received_blocks : Dict Str (List Block)
  pub peer_status : Dict Str ChainStatus
  pub sent : List (Message × Str)

abbrev pub Sender : Type 0
Sender = Option (Message → Str → Bool)

abbrev pub blocks_per_request : ℕ
blocks_per_request = 100

abbrev pub max_concurrent_syncs : ℕ
max_concurrent_syncs = 3

abbrev pub fresh_progress : SyncState → Str → ℤ → SyncProgress
fresh_progress state peer_id total_blocks = record {
  state = state;
  peer_id = peer_id;
  total_blocks = total_blocks;
  received_blocks = 0;
  error = none;
}

-- `ChainStatus.from_dict`
unfoldable pub status_from_dict : Json → Result ChainStatus
status_from_dict (obj fs) = do
  height ← num_at fs (codes "height")
  latest_hash ← str_at fs (codes "latest_hash")
  genesis_hash ← str_at fs (codes "genesis_hash")
  difficulty ← num_at fs (codes "difficulty")
  total_work ← num_at fs (codes "total_work")
  ok (record {
    height = height;
    latest_hash = latest_hash;
    genesis_hash = genesis_hash;
    difficulty = difficulty;
    total_work = total_work;
  })
status_from_dict _ = err type_error

-- `await self.message_sender(message, peer_id)`
unfoldable pub send :
    (Message → Str → Bool) → ChainSynchronizer → Message → Str → ChainSynchronizer × Bool
send f s m id = (record s { sent = s.sent ++ ((m, id) ∷ []) }, f m id)

-- an assignment to a field of the progress object that the dictionary holds
unfoldable pub set_progress : ChainSynchronizer → Str → SyncProgress → ChainSynchronizer
set_progress s id p = record s { sync_progress = Dict.put s.sync_progress id p }

unfoldable pub request_chain_status :
    Sender → ChainSynchronizer → Str → Result (ChainSynchronizer × Bool)
request_chain_status none s id = ok (s, false)
request_chain_status (some f) s id = do
  status ← get_status s.blockchain
  ok (
      send f (set_progress s id (fresh_progress requesting_status id (pos 0)))
        (chain_status status true) id)

unfoldable pub request_blocks : Sender → ChainSynchronizer → Str → ℕ → ℕ → ChainSynchronizer × Bool
request_blocks none s id start_height end_height = (s, false)
request_blocks (some f) s id start_height end_height =
    let request : SyncRequest = record {
      start_height = start_height;
      end_height = end_height;
      peer_id = id;
    } in
    send f (record s { pending_requests = Dict.put s.pending_requests id request })
      (chain_request start_height end_height) id

-- how many rounds `range(start_height, end_height, BLOCKS_PER_REQUEST)` has
unfoldable pub batch_count : ℕ → ℕ → ℕ
batch_count start_height end_height =
    (end_height - start_height + (blocks_per_request - 1)) / blocks_per_request

-- the loop of `start_sync` over the batches
unfoldable pub request_batches :
    Sender → Str → SyncProgress → ℕ → ℕ → ℕ → ChainSynchronizer → ChainSynchronizer × Bool
request_batches sender id progress zero batch_start end_height s = (s, true)
request_batches sender id progress (suc rounds) batch_start end_height s =
    let (s', success) =
      request_blocks sender s id batch_start (min (batch_start + blocks_per_request) end_height) in
    let rest =
      request_batches sender id progress rounds (batch_start + blocks_per_request) end_height s' in
    if success then rest else (
      set_progress s' id (record progress { state = failed; error = some request_failed }),
      false,
    )

unfoldable pub find_common_ancestor : ChainSynchronizer → ℕ
find_common_ancestor s = min (height s.blockchain) 0

unfoldable pub start_sync :
    Sender → ChainSynchronizer → Str → ChainStatus → ChainSynchronizer × Bool
start_sync sender s id remote_status =
    if s.syncing && leb max_concurrent_syncs (length s.sync_progress)
    then (s, false)
    else let progress =
        fresh_progress downloading id (difference remote_status.height (height s.blockchain)) in
      let started = record (set_progress s id progress) {
        syncing = true;
        received_blocks = Dict.put s.received_blocks id [];
      } in
      let start_height = find_common_ancestor s + 1 in
      let end_height = remote_status.height + 1 in
      request_batches sender id progress (batch_count start_height end_height) start_height
        end_height started

-- the answer to a status that asked for one
unfoldable pub answer_status : Sender → ChainSynchronizer → Bool → Str → Result ChainSynchronizer
answer_status (some f) s true id = do
  status ← get_status s.blockchain
  ok ((send f s (chain_status status false) id).0)
answer_status _ s _ id = ok s

unfoldable pub accept_status :
    Sender → ChainSynchronizer → Bool → ChainStatus → Str → Result ChainSynchronizer
accept_status sender s asked remote_status id = do
  answered ←
      answer_status sender (record s { peer_status = Dict.put s.peer_status id remote_status })
        asked id
  ok (
      if should_accept_chain answered.blockchain remote_status
      then (start_sync sender answered id remote_status).0
      else answered)

-- A status that is missing or cannot be read is dropped.
unfoldable pub handle_chain_status :
    Sender → ChainSynchronizer → Fields → Str → Result ChainSynchronizer
handle_chain_status sender s metadata id = elim (get_field metadata (codes "status")) [
  | none ↦ ok s
  | some status_data ↦ elim (status_from_dict status_data) [
    | err e ↦ ok s
    | ok remote_status ↦
        accept_status sender s (truthy_at metadata (codes "request")) remote_status id
  ]
]
