-- ===== src/Merkle/Binding.antt =====
-- What a Merkle path and a Merkle root pin down: a path binds one data hash unless two inputs of
-- the hash function collide; a root does not bind the number of items.
use mathlib.Core.List.{append_cancel_left, append_cancel_right, map-append, append_assoc}
use blockchain_messaging_pro.Common.{
  ℕ, suc, ◌+◌, ◌%◌, ◌<◌, ◌≡◌, ◌≢◌, ◌⊎◌, inl, inr, sym, ap, ◌∙◌, true, List, [], ◌∷◌, ◌++◌, map, Str,
  Bytes, encode, encode_injective, arith, length, get_or, str_beq, str_beq_iff, Bool-cases,
  if◌then◌else◌, length-append, last_or-append, length-map,
}
use blockchain_messaging_pro.Merkle.{
  MerkleProof, left, pad_level, build_tree, calculate_merkle_root, climb, verify,
}
use blockchain_messaging_pro.Merkle.Levels.{build_tree-fuel}

-- Two different inputs with one hash.
abbrev pub Collision : (Bytes → Str) → Type 0
Collision sha256 = (x : Bytes) × (y : Bytes) × (x ≢ y) × (sha256 x ≡ sha256 y)

module _ (sha256 : Bytes → Str) where
  pub sha256_binding : (x y : Bytes) → sha256 x ≡ sha256 y → (x ≡ y) ⊎ Collision sha256
  sha256_binding x y h = elim (Bool-cases (str_beq x y)) [
    | inl same ↦ inl ((str_beq_iff x y).0 same)
    | inr other ↦ inr (x, y, (λ e. ground (arith, (str_beq_iff x y).1 e)), h)
  ]

  text_binding : (s t : Str) → sha256 (encode s) ≡ sha256 (encode t) → (s ≡ t) ⊎ Collision sha256
  text_binding s t h = elim (sha256_binding (encode s) (encode t) h) [
    | inl e ↦ inl (encode_injective s t e)
    | inr c ↦ inr c
  ]

  parent_binding :
      (sibling pos d e : Str)
      → sha256 (encode (if str_beq pos left then sibling ++ d else d ++ sibling))
        ≡ sha256 (encode (if str_beq pos left then sibling ++ e else e ++ sibling))
      → (d ≡ e) ⊎ Collision sha256
  parent_binding sibling pos d e h = elim (Bool-cases (str_beq pos left)) [
    | inl l ↦ elim (text_binding (sibling ++ d) (sibling ++ e) (rw l at h)) [
      | inl same ↦ inl (append_cancel_left sibling d e same)
      | inr c ↦ inr c
    ]
    | inr r ↦ elim (text_binding (d ++ sibling) (e ++ sibling) (rw r at h)) [
      | inl same ↦ inl (append_cancel_right d e sibling same)
      | inr c ↦ inr c
    ]
  ]

  climb_binding :
      (path : List (Str × Str)) (d e : Str)
      → climb sha256 d path ≡ climb sha256 e path
      → (d ≡ e) ⊎ Collision sha256
  unfolding climb
  climb_binding [] d e h = inl h
  climb_binding ((sibling, pos) ∷ path) d e h = elim (climb_binding path _ _ h) [
    | inl same ↦ parent_binding sibling pos d e same
    | inr c ↦ inr c
  ]

  -- If a Merkle proof verifies for two data hashes, with the same root and path, then the hashes
  -- are equal or two different inputs with the same SHA-256 value are given.
  pub verify_binding :
      (p : MerkleProof) (d : Str)
      → verify sha256 p ≡ true
      → verify sha256 (record p { data_hash = d }) ≡ true
      → (p.data_hash ≡ d) ⊎ Collision sha256
  unfolding verify
  verify_binding p d h k =
      climb_binding p.proof_path p.data_hash d
        ((str_beq_iff _ p.merkle_root).0 h ∙ sym ((str_beq_iff _ p.merkle_root).0 k))

  root_of_hashes :
      (ds : List Bytes) (fuel : ℕ)
      → 0 < length ds
      → length ds < fuel
      → calculate_merkle_root sha256 ds ≡ get_or (build_tree sha256 fuel (map sha256 ds)) 0 []
  unfolding calculate_merkle_root
  root_of_hashes [] fuel p h = absurd (omega arith)
  root_of_hashes (d ∷ ds) fuel p h =
      ap (λ (t : List Str). get_or t 0 [])
        (build_tree-fuel sha256 (length (map sha256 (d ∷ ds))) fuel (map sha256 (d ∷ ds))
          (omega (arith, length-map sha256 ds)) (omega (arith, length-map sha256 ds)))

  pad_duplicate :
      (hs : List Str) (a : Str)
      → length hs % 2 ≡ 0
      → pad_level (hs ++ (a ∷ [])) ≡ pad_level (hs ++ (a ∷ a ∷ []))
  unfolding pad_level
  pad_duplicate hs a even = ground (
    arith,
    length-append hs (a ∷ []),
    length-append hs (a ∷ a ∷ []),
    last_or-append [] a hs,
    append_assoc hs (a ∷ []) (a ∷ []),
  )

  tree_duplicate :
      (hs : List Str) (a : Str) (fuel : ℕ)
      → length hs % 2 ≡ 0
      → 0 < length hs
      → build_tree sha256 (suc fuel) (hs ++ (a ∷ []))
        ≡ build_tree sha256 (suc fuel) (hs ++ (a ∷ a ∷ []))
  unfolding build_tree
  tree_duplicate hs a fuel even p =
      ground
        (arith, pad_duplicate hs a even, length-append hs (a ∷ []), length-append hs (a ∷ a ∷ []))

  -- After an even number of items, not zero, one more item and the same item twice give the same
  -- Merkle root.
  pub calculate_merkle_root-duplicate :
      (ds : List Bytes) (d : Bytes)
      → length ds % 2 ≡ 0
      → 0 < length ds
      → calculate_merkle_root sha256 (ds ++ (d ∷ d ∷ []))
        ≡ calculate_merkle_root sha256 (ds ++ (d ∷ []))
  calculate_merkle_root-duplicate ds d even p =
      let fuel : ℕ = length ds + 3 in
      rw (
        root_of_hashes (ds ++ (d ∷ d ∷ [])) (suc fuel)
            (omega (arith, length-append ds (d ∷ d ∷ [])))
            (omega (arith, length-append ds (d ∷ d ∷ []))),
        root_of_hashes (ds ++ (d ∷ [])) (suc fuel) (omega (arith, length-append ds (d ∷ [])))
            (omega (arith, length-append ds (d ∷ []))),
        map-append,
        map-append,
        tree_duplicate (map sha256 ds) (sha256 d) fuel (omega (arith, length-map sha256 ds))
            (omega (arith, length-map sha256 ds)),
      )
