-- ===== src/Merkle.antt =====
-- `calculate_merkle_root`, `generate_merkle_path` and `MerkleProof` of src/core/blockchain.py,
-- over a hash function `sha256` that maps bytes to a hexadecimal text.
pub mod Levels
pub mod Verify
pub mod Binding
use blockchain_messaging_pro.Common.{
  ℕ, zero, suc, ◌+◌, ◌-◌, ◌/◌, ◌%◌, Bool, List, [], ◌∷◌, ◌++◌, map, Str, Bytes, codes, str_beq,
  encode, length, get_or, last_or, ltb, leb, nat_beq, if◌then◌else◌, not,
}

-- `data_hash`, `merkle_root`, `proof_path` and the block that the proof is about
pub record MerkleProof : Type 0 where
  pub block_hash : Str
  pub block_height : ℕ
  pub data_hash : Str
  pub merkle_root : Str
  pub proof_path : List (Str × Str)

abbrev pub left : Str
left = codes "left"

abbrev pub right : Str
right = codes "right"

-- `if len(hashes) % 2 != 0: hashes.append(hashes[-1])`
unfoldable pub pad_level : List Str → List Str
pad_level hashes =
    if not (nat_beq (length hashes % 2) 0) then hashes ++ (last_or [] hashes ∷ []) else hashes

abbrev pub sibling_idx : ℕ → ℕ
sibling_idx idx = if nat_beq (idx % 2) 0 then idx + 1 else idx - 1

abbrev pub position : ℕ → Str
position idx = if nat_beq (idx % 2) 0 then right else left

-- what the round for a padded level appends to `proof_path`
unfoldable pub path_step : List Str → ℕ → List (Str × Str)
path_step hashes idx =
    if ltb (sibling_idx idx) (length hashes)
    then (get_or hashes (sibling_idx idx) [], position idx) ∷ []
    else []

module _ (sha256 : Bytes → Str) where
  -- The loop over `range(0, len(hashes), 2)`. A padded level has no last odd element.
  unfoldable pub next_level : List Str → List Str
  next_level [] = []
  next_level (a ∷ []) = []
  next_level (a ∷ b ∷ rest) = sha256 (encode (a ++ b)) ∷ next_level rest

  -- `while len(hashes) > 1`, with fuel for the number of levels
  unfoldable pub build_tree : ℕ → List Str → List Str
  unfolding next_level pad_level
  build_tree zero hashes = hashes
  build_tree (suc fuel) hashes =
      let rest = build_tree fuel (next_level (pad_level hashes)) in
      if ltb 1 (length hashes) then rest else hashes

  unfoldable pub calculate_merkle_root : List Bytes → Str
  calculate_merkle_root [] = sha256 []
  calculate_merkle_root (d ∷ ds) =
      let hashes = map sha256 (d ∷ ds) in get_or (build_tree (length hashes) hashes) 0 []

  unfoldable pub build_path : ℕ → List Str → ℕ → List (Str × Str) → List (Str × Str)
  unfolding next_level pad_level path_step
  build_path zero hashes idx proof_path = proof_path
  build_path (suc fuel) hashes idx proof_path =
      let level = pad_level hashes in
      let rest = build_path fuel (next_level level) (idx / 2) (proof_path ++ path_step level idx) in
      if ltb 1 (length hashes) then rest else proof_path

  unfoldable pub generate_merkle_path : List Bytes → ℕ → List (Str × Str)
  generate_merkle_path data_list target_index =
      if leb (length data_list) target_index
      then []
      else build_path (length data_list) (map sha256 data_list) target_index []

  -- the loop of `verify`
  unfoldable pub climb : Str → List (Str × Str) → Str
  climb current [] = current
  climb current ((sibling_hash, pos) ∷ path) =
      climb
        (sha256
          (encode (if str_beq pos left then sibling_hash ++ current else current ++ sibling_hash)))
        path

  unfoldable pub verify : MerkleProof → Bool
  verify p = str_beq (climb p.data_hash p.proof_path) p.merkle_root
