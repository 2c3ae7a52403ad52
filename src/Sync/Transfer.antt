-- ===== src/Sync/Transfer.antt =====
-- src/core/sync.py: serving blocks, receiving them, and applying a finished download.
use blockchain_messaging_pro.Common.{
  ℕ, ◌+◌, ◌-◌, min, Bool, true, false, none, some, List, [], ◌∷◌, ◌++◌, map, Str, Bytes, codes,
  length, leb, if◌then◌else◌, Result, ok, err, ◌>>=◌, index_error, type_error, str_eq, head?,
}
use blockchain_messaging_pro.Common.Dict
use blockchain_messaging_pro.Common.Dict.{Dict}
use blockchain_messaging_pro.Json.{Json, num, Fields, get_field}
use blockchain_messaging_pro.Block
use blockchain_messaging_pro.Block.{Block}
use blockchain_messaging_pro.Chain.State.{Blockchain, get_blocks_from}
use blockchain_messaging_pro.Chain.Methods.{replace_chain}
use blockchain_messaging_pro.Chain.Storage.{blocks_from, list_or_empty}
use blockchain_messaging_pro.Sync.{
  downloading, validating, applying, complete, failed, no_blocks, replacement_failed, invalid_block,
  at_most, SyncProgress, ChainSynchronizer, Sender, blocks_per_request, send, set_progress,
  chain_response,
}

-- `message.metadata.get(key, 0)`
unfoldable pub num_or_zero : Fields → Str → Result ℕ
num_or_zero fs k = elim (get_field fs k) [
  | none ↦ ok 0
  | some (num n) ↦ ok n
  | some _ ↦ err type_error
]

-- the blocks that answer a request
unfoldable pub blocks_to_serve : Blockchain → ℕ → ℕ → List Block
blocks_to_serve chain start_height end_height =
    if leb end_height start_height
    then []
    else get_blocks_from chain start_height (min (end_height - start_height) blocks_per_request)

unfoldable pub respond : Sender → ChainSynchronizer → Str → ℕ → List Block → ChainSynchronizer
respond none s id start_height blocks = s
respond (some f) s id start_height [] = s
respond (some f) s id start_height (b ∷ bs) =
    (send f s (chain_response start_height (map Block.to_dict (b ∷ bs))) id).0

unfoldable pub handle_chain_request :
    Sender → ChainSynchronizer → Fields → Str → Result ChainSynchronizer
handle_chain_request sender s metadata id = do
  start_height ← num_or_zero metadata (codes "start_height")
  end_height ← num_or_zero metadata (codes "end_height")
  ok (respond sender s id start_height (blocks_to_serve s.blockchain start_height end_height))

-- the states that the cleanup looks for
unfoldable pub is_active : SyncProgress → Bool
is_active p = elim p.state [ downloading ↦ true | validating ↦ true | _ ↦ false ]

unfoldable pub any_active : List SyncProgress → Bool
any_active [] = false
any_active (p ∷ ps) = if is_active p then true else any_active ps

-- the cleanup of `_apply_sync`
unfoldable pub clean_up : ChainSynchronizer → Str → ChainSynchronizer
clean_up s id = record s {
  received_blocks = Dict.remove s.received_blocks id;
  pending_requests = Dict.remove s.pending_requests id;
  syncing = if any_active (Dict.values s.sync_progress) then s.syncing else false;
}

-- the blocks that have come from a peer
unfoldable pub received_from : ChainSynchronizer → Str → List Block
received_from s id = elim (Dict.get s.received_blocks id) [ none ↦ [] | some bs ↦ bs ]

unfoldable pub reset : ChainSynchronizer → ChainSynchronizer
reset s = record s {
  syncing = false;
  sync_progress = [];
  pending_requests = [];
  received_blocks = [];
  peer_status = [];
}

-- The state of the progress before the attempt is `applying`, which an exception leaves.
unfoldable pub outcome : SyncProgress → Result Bool → SyncProgress
outcome progress (ok true) = record progress { state = complete }
outcome progress (ok false) = record progress { state = failed; error = some replacement_failed }
outcome progress (err e) = record progress { state = applying }

-- what is done with the result of `replace_chain`, with the cleanup unless it raised
unfoldable pub settle :
    ChainSynchronizer
    → Str
    → SyncProgress
    → Blockchain × Result Bool
    → ChainSynchronizer × Result (Unit {0})
settle s id progress (chain, ok replaced) = (
  clean_up (set_progress (record s { blockchain = chain }) id (outcome progress (ok replaced))) id,
  ok tt,
)
settle s id progress (chain, err e) =
    (set_progress (record s { blockchain = chain }) id (outcome progress (err e)), err e)

module _ (sha256 : Bytes → Str) where
  -- `self.blockchain.chain[0]` is an `IndexError` on an empty chain
  unfoldable pub apply_received :
      ChainSynchronizer → Str → SyncProgress → List Block → ChainSynchronizer × Result (Unit {0})
  apply_received s id progress [] =
      (set_progress s id (record progress { state = failed; error = some no_blocks }), ok tt)
  apply_received s id progress (b ∷ bs) = elim (head? s.blockchain.chain) [
    | none ↦ (set_progress s id (record progress { state = validating }), err index_error)
    | some genesis ↦ settle s id progress (replace_chain sha256 s.blockchain (genesis ∷ b ∷ bs))
  ]

  unfoldable pub apply_sync : ChainSynchronizer → Str → ChainSynchronizer × Result (Unit {0})
  apply_sync s id = elim (Dict.get s.sync_progress id) [
    | none ↦ (s, ok tt)
    | some progress ↦ apply_received s id progress (received_from s id)
  ]

  -- the part of `handle_chain_response` after the blocks are decoded
  unfoldable pub receive_blocks :
      ChainSynchronizer → Str → SyncProgress → List Block → ChainSynchronizer × Result (Unit {0})
  receive_blocks s id progress blocks =
      let counted = record progress {
        received_blocks = progress.received_blocks + length blocks;
      } in
      let s' =
        set_progress
          (record s {
            received_blocks = Dict.put s.received_blocks id (received_from s id ++ blocks);
          })
          id counted in
      if at_most counted.total_blocks counted.received_blocks then apply_sync s' id else (s', ok tt)

  unfoldable pub decode_blocks :
      ChainSynchronizer → Str → SyncProgress → List Json → ChainSynchronizer × Result (Unit {0})
  decode_blocks s id progress blocks_data = elim (blocks_from blocks_data) [
    | err e ↦ (
      set_progress s id (record progress { state = failed; error = some (invalid_block e) }),
      ok tt,
    )
    | ok blocks ↦ receive_blocks s id progress blocks
  ]

  -- `if not blocks_data`, `if not progress`
  unfoldable pub take_blocks :
      ChainSynchronizer → Str → List Json → ChainSynchronizer × Result (Unit {0})
  take_blocks s id [] = (s, ok tt)
  take_blocks s id (j ∷ js) = elim (Dict.get s.sync_progress id) [
    | none ↦ (s, ok tt)
    | some progress ↦ decode_blocks s id progress (j ∷ js)
  ]

  unfoldable pub handle_chain_response :
      ChainSynchronizer → Fields → Str → ChainSynchronizer × Result (Unit {0})
  handle_chain_response s metadata id = elim (list_or_empty metadata (codes "blocks")) [
    | err e ↦ (s, err e)
    | ok blocks_data ↦ take_blocks s id blocks_data
  ]
