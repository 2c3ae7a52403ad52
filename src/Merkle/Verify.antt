-- ===== src/Merkle/Verify.antt =====
-- Every generated path leads from the item's hash to the root.
use blockchain_messaging_pro.Common.{
  ℕ, zero, suc, ◌-◌, ◌/◌, ◌%◌, ◌≤◌, ◌<◌, ◌≡◌, refl, List, [], ◌∷◌, ◌++◌, map, Str, Bytes, encode,
  arith, length, get_or, str_beq, if◌then◌else◌, length-map, get_or-map,
}
use blockchain_messaging_pro.Merkle.{
  left, pad_level, next_level, build_tree, calculate_merkle_root, path_step, build_path,
  generate_merkle_path, climb,
}
use blockchain_messaging_pro.Merkle.Levels.{
  length-pad_level, get_or-pad_level, length-round, get_or-next_level,
}

module _ (sha256 : Bytes → Str) where
  pub climb-append :
      (d : Str) (p q : List (Str × Str))
      → climb sha256 d (p ++ q) ≡ climb sha256 (climb sha256 d p) q
  unfolding climb
  climb-append d [] q = refl
  climb-append d (s ∷ p) q =
      climb-append (sha256 (encode (if str_beq s.1 left then s.0 ++ d else d ++ s.0))) p q

  -- one step of the path leads from an entry of the level to its parent
  climb-path_step :
      (hs : List Str) (idx : ℕ)
      → length hs % 2 ≡ 0
      → idx < length hs
      → climb sha256 (get_or hs idx []) (path_step hs idx)
        ≡ get_or (next_level sha256 hs) (idx / 2) []
  unfolding climb path_step
  climb-path_step hs idx even h = ground (
    arith,
    get_or-next_level sha256 hs (idx / 2) idx,
    get_or-next_level sha256 hs (idx / 2) (idx - 1),
  )

  -- The loop keeps: the path so far leads to the entry at `idx` of the level.
  pub climb-build_path :
      (fuel : ℕ) (hs : List Str) (idx : ℕ) (d : Str) (path : List (Str × Str))
      → idx < length hs
      → length hs ≤ fuel
      → climb sha256 d path ≡ get_or hs idx []
      → climb sha256 d (build_path sha256 fuel hs idx path)
        ≡ get_or (build_tree sha256 fuel hs) 0 []
  unfolding build_path build_tree
  climb-build_path zero hs idx d path h f e = absurd (omega arith)
  climb-build_path (suc fuel) hs idx d path h f e =
      let level = pad_level hs in
      ground (
        arith,
        length-pad_level hs,
        get_or-pad_level hs idx,
        length-round sha256 hs,
        climb-append d path (path_step level idx),
        climb-path_step level idx,
        climb-build_path fuel (next_level sha256 level) (idx / 2) d (path ++ path_step level idx),
      )

  -- For every position of a list of data, the path that `generate_merkle_path` gives leads from
  -- the hash of the item there to the root that `calculate_merkle_root` gives for the list.
  pub climb-generate_merkle_path :
      (data_list : List Bytes) (i : ℕ)
      → i < length data_list
      → climb sha256 (sha256 (get_or data_list i [])) (generate_merkle_path sha256 data_list i)
        ≡ calculate_merkle_root sha256 data_list
  unfolding generate_merkle_path calculate_merkle_root climb
  climb-generate_merkle_path [] i h = absurd (omega arith)
  climb-generate_merkle_path (x ∷ ds) i h = ground (
    arith,
    length-map sha256 (x ∷ ds),
    get_or-map sha256 (x ∷ ds) i [] [],
    climb-build_path (length (x ∷ ds)) (map sha256 (x ∷ ds)) i (sha256 (get_or (x ∷ ds) i [])) [],
  )
