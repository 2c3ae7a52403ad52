-- ===== src/Sync/Batches.antt =====
-- The requests of `start_sync`, and what the peer that has the chain answers to them.
use native.Mathlib.Decide.{dec_le}
use mathlib.Core.List.{append-nil, append_assoc}
use blockchain_messaging_pro.Common.{
  ℕ, zero, suc, ◌+◌, ◌-◌, ◌*◌, ◌≤◌, ◌≡◌, refl, sym, ap, ap₂, ◌∙◌, Bool, true, false, ◌&&◌, some,
  List, [], ◌∷◌, ◌++◌, Str, min, arith, length, take, drop, take_add, drop-drop, take_of_length-le,
  length-drop, leb, str_eq,
}
use blockchain_messaging_pro.Block.{Block}
use blockchain_messaging_pro.Chain.State.{Blockchain, ChainStatus, get_blocks_from}
use blockchain_messaging_pro.Sync.{
  SyncProgress, ChainSynchronizer, Message, chain_request, max_concurrent_syncs, batch_count,
  request_blocks, request_batches, find_common_ancestor, start_sync, send, set_progress,
}
use blockchain_messaging_pro.Sync.Transfer.{blocks_to_serve}

-- the requests of the loop, in order
abbrev pub requests : Str → ℕ → ℕ → ℕ → List (Message × Str)
requests id zero batch_start end_height = []
requests id (suc rounds) batch_start end_height =
    (chain_request batch_start (min (batch_start + 100) end_height), id)
    ∷ requests id rounds (batch_start + 100) end_height

-- the blocks that a peer with the chain `c` answers to the requests among the messages, in order
abbrev pub answers : Blockchain → List (Message × Str) → List Block
answers c [] = []
answers c ((chain_request start_height end_height, id) ∷ ms) =
    blocks_to_serve c start_height end_height ++ answers c ms
answers c (_ ∷ ms) = answers c ms

serve-slice :
    (c : Blockchain) (a b : ℕ)
    → b ≤ a + 100
    → b ≤ length c.chain
    → blocks_to_serve c a b ≡ take (b - a) (drop a c.chain)
unfolding blocks_to_serve get_blocks_from
serve-slice c a b near inside = elim (dec_le b a) [
  | yes le ↦ ground (arith, ap (λ k. take k (drop a c.chain)) {x = b - a} {y = 0} (omega arith))
  | no gt ↦ ground (
    arith,
    ap (λ k. take k (drop a c.chain)) {x = min (a + min (b - a) 100) (length c.chain) - a}
        {y = b - a} (omega arith),
  )
]

-- one batch, and the rest of the range
batch-append :
    (xs : List Block) (a b : ℕ)
    → take (min (a + 100) b - a) (drop a xs) ++ take (b - (a + 100)) (drop (a + 100) xs)
      ≡ take (b - a) (drop a xs)
batch-append xs a b = elim (dec_le (a + 100) b) [
  | yes le ↦
      ap (λ k. take k (drop a xs) ++ take (b - (a + 100)) (drop (a + 100) xs))
        {x = min (a + 100) b - a} {y = 100} (omega arith)
      ∙ ap (λ ys. take 100 (drop a xs) ++ take (b - (a + 100)) ys) (sym (drop-drop 100 a xs))
      ∙ sym (take_add 100 (b - (a + 100)) (drop a xs))
      ∙ ap (λ k. take k (drop a xs)) {x = 100 + (b - (a + 100))} {y = b - a} (omega arith)
  | no gt ↦
      ap (λ k. take (min (a + 100) b - a) (drop a xs) ++ take k (drop (a + 100) xs))
        {x = b - (a + 100)} {y = 0} (omega arith)
      ∙ append-nil _
      ∙ ap (λ k. take k (drop a xs)) {x = min (a + 100) b - a} {y = b - a} (omega arith)
]

answers-requests :
    (c : Blockchain) (id : Str) (rounds a b : ℕ)
    → b ≤ length c.chain
    → b ≤ a + rounds * 100
    → answers c (requests id rounds a b) ≡ take (b - a) (drop a c.chain)
answers-requests c id zero a b inside enough =
    ap (λ k. take k (drop a c.chain)) {x = 0} {y = b - a} (omega arith)
answers-requests c id (suc rounds) a b inside enough =
    ap₂ (◌++◌) (serve-slice c a (min (a + 100) b) (omega arith) (omega arith))
      (answers-requests c id rounds (a + 100) b inside (omega arith))
    ∙ batch-append c.chain a b

batches-sent :
    (f : Message → Str → Bool) (id : Str) (p : SyncProgress) (rounds a b : ℕ)
    (s : ChainSynchronizer)
    → ((m : Message) (to : Str) → f m to ≡ true)
    → ((request_batches (some f) id p rounds a b s).0.sent ≡ s.sent ++ requests id rounds a b)
      × ((request_batches (some f) id p rounds a b s).1 ≡ true)
unfolding request_batches request_blocks send
batches-sent f id p zero a b s delivers = (sym (append-nil s.sent), refl)
batches-sent f id p (suc rounds) a b s delivers =
    let later =
      batches-sent f id p rounds (a + 100) b ((request_blocks (some f) s id a (min (a + 100) b)).0)
        delivers in
    rw (delivers (chain_request a (min (a + 100) b)) id) (
      later.0
          ∙ append_assoc s.sent ((chain_request a (min (a + 100) b), id) ∷ [])
              (requests id rounds (a + 100) b),
      later.1,
    )

find_common_ancestor-zero : (s : ChainSynchronizer) → find_common_ancestor s ≡ 0
unfolding find_common_ancestor
find_common_ancestor-zero s = omega arith

batch_count_enough : (a b : ℕ) → b ≤ a + batch_count a b * 100
unfolding batch_count
batch_count_enough a b = grind arith

-- If every message can be sent, no limit on concurrent synchronizations stops it and the status
-- gives the height of the peer's chain, `start_sync` succeeds, and what a peer with that chain
-- answers to the requests it has sent are, in order, all blocks after the first one.
pub start_sync-answers :
    (f : Message → Str → Bool) (s : ChainSynchronizer) (id : Str) (remote : Blockchain)
    (remote_status : ChainStatus)
    → ((m : Message) (to : Str) → f m to ≡ true)
    → (s.syncing && leb max_concurrent_syncs (length s.sync_progress)) ≡ false
    → remote_status.height + 1 ≡ length remote.chain
    → (asked : List (Message × Str)) × ((start_sync (some f) s id remote_status).0.sent
        ≡ s.sent ++ asked)
      × ((start_sync (some f) s id remote_status).1 ≡ true)
      × (answers remote asked ≡ drop 1 remote.chain)
unfolding start_sync set_progress
start_sync-answers f s id remote remote_status delivers free e =
    let start = find_common_ancestor s + 1 in
    let stop = remote_status.height + 1 in
    let from_genesis = find_common_ancestor-zero s in
    (
      requests id (batch_count start stop) start stop,
      rw (free) ((batches-sent f id _ (batch_count start stop) start stop _ delivers).0),
      rw (free) ((batches-sent f id _ (batch_count start stop) start stop _ delivers).1),
      answers-requests remote id (batch_count start stop) start stop (omega (arith, e))
            (batch_count_enough start stop)
          ∙ ap (λ a. take (stop - a) (drop a remote.chain)) {x = start} {y = 1}
              (omega (arith, from_genesis))
          ∙ take_of_length-le (stop - 1) (drop 1 remote.chain)
              (omega (arith, length-drop 1 remote.chain, e)),
    )
