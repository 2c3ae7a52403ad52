-- ===== src/Chain/Methods.antt =====
-- The methods of `Blockchain` that hash: mining, validation, replacement and Merkle proofs.
use blockchain_messaging_pro.Common.{
  ℕ, Bool, true, false, not, Option, none, some, List, [], ◌∷◌, ◌++◌, map, Str, Bytes, length,
  replicate, str_beq, leb, if◌then◌else◌, Result, ok, err, ◌>>=◌, expect, out_of_fuel, get_or,
  str_eq, nat_eq,
}
use blockchain_messaging_pro.Json.{Fields}
use blockchain_messaging_pro.Merkle.{MerkleProof, build_path}
use blockchain_messaging_pro.Block.{
  Block, messages_of, message_bytes, has_work, calculate_hash, new_block, mine,
}
use blockchain_messaging_pro.Chain.State.{
  Blockchain, no_indexes, index_block, rebuild_index, latest_block, work_of, total_work, select,
  block_content, genesis_content, get_message_block, find_message,
}

module _ (sha256 : Bytes → Str) where
  -- the three tests of one round of the validation loops
  unfoldable pub check_block : ℕ → Block → Block → Bool
  check_block difficulty previous current =
      if not (str_beq current.hash (calculate_hash sha256 current))
      then false
      else if not (str_beq current.previous_hash previous.hash)
      then false
      else if not (has_work difficulty current.hash)
      then false
      else true

  -- the loop over `range(1, len(chain))`, from a previous block on
  unfoldable pub check_links : ℕ → Block → List Block → Bool
  check_links difficulty previous [] = true
  check_links difficulty previous (current ∷ rest) =
      if check_block difficulty previous current then check_links difficulty current rest else false

  unfoldable pub is_chain_valid : Blockchain → Bool
  is_chain_valid s = elim s.chain [ [] ↦ true | b ∷ bs ↦ check_links s.difficulty b bs ]

  unfoldable pub validate_chain : Blockchain → List Block → Bool
  validate_chain s [] = false
  validate_chain s (b ∷ bs) = check_links s.difficulty b bs

  -- When the indexes cannot be rebuilt, the chain has been replaced before the exception.
  unfoldable pub replace_chain : Blockchain → List Block → Blockchain × Result Bool
  replace_chain s new_chain =
      if not (validate_chain s new_chain)
      then (s, ok false)
      else if leb (work_of s.difficulty new_chain) (total_work s)
      then (s, ok false)
      else let r = rebuild_index (record s { chain = new_chain }) in (r.0, r.1 >>= λ done. ok true)

  -- `self.chain.append(block); self._index_block(block)`
  unfoldable pub append_block : Blockchain → Block → Blockchain × Result (Unit {0})
  append_block s b =
      let r = index_block s.indexes b in
      (record s { chain = s.chain ++ (b ∷ []); indexes = r.0 }, r.1)

  -- `__init__` with `_create_genesis_block`
  unfoldable pub init : ℕ → Str → ℕ → Option (Fields → Bool) → ℕ → ℕ → Result Blockchain
  init fuel now difficulty validator max_size max_pending = do
    genesis ←
        expect out_of_fuel (
          mine sha256 fuel difficulty
            (new_block sha256 0 now genesis_content (replicate 64 b'0') 0))
    let started =
        append_block
          (record {
            difficulty = difficulty;
            validator = validator;
            max_block_size = max_size;
            max_pending = max_pending;
            chain = [];
            pending_data = [];
            indexes = no_indexes;
          })
          genesis
    started.1 >>= λ done. ok started.0

  -- the block that `mine_pending` starts to mine
  unfoldable pub fresh_block : Blockchain → Str → List Fields → Block → Block
  fresh_block s now block_data latest =
      new_block sha256 (length s.chain) now (block_content block_data) latest.hash 0

  -- The pending data is reduced after the block is indexed.
  unfoldable pub add_mined : Blockchain → Block → List Fields → Blockchain × Result (Option Block)
  add_mined s b remaining =
      let r = append_block s b in
      elim r.1 [
        | ok done ↦ (record r.0 { pending_data = remaining }, ok (some b))
        | err e ↦ (r.0, err e)
      ]

  -- the part of `mine_pending` after the selection
  unfoldable pub mine_selected :
      ℕ → Str → Blockchain → List Fields → List Fields → Blockchain × Result (Option Block)
  mine_selected fuel now s [] remaining = (s, ok none)
  mine_selected fuel now s (x ∷ xs) remaining = elim (latest_block s) [
    | err e ↦ (s, err e)
    | ok latest ↦ elim (mine sha256 fuel s.difficulty (fresh_block s now (x ∷ xs) latest)) [
      | none ↦ (s, err out_of_fuel)
      | some b ↦ add_mined s b remaining
    ]
  ]

  unfoldable pub mine_pending : ℕ → Str → Blockchain → Blockchain × Result (Option Block)
  mine_pending fuel now s = elim s.pending_data [
    | [] ↦ (s, ok none)
    | d ∷ ds ↦
        let (block_data, remaining) = select s.max_block_size 0 (d ∷ ds) in
        mine_selected fuel now s block_data remaining
  ]

  -- `not block or "messages" not in block.data`, the search, the path
  unfoldable pub get_merkle_proof : Blockchain → Str → Option MerkleProof
  get_merkle_proof s id = elim (get_message_block s id) [
    | none ↦ none
    | some b ↦ elim (messages_of b.content) [
      | none ↦ none
      | some ms ↦ elim (find_message id ms) [
        | none ↦ none
        | some i ↦
            let hashes = map (λ m. sha256 (message_bytes m)) ms in
            some (record {
              block_hash = b.hash;
              block_height = b.index;
              data_hash = get_or hashes i [];
              merkle_root = b.merkle_root;
              proof_path = build_path sha256 (length hashes) hashes i [];
            })
      ]
    ]
  ]
