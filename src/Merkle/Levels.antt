-- ===== src/Merkle/Levels.antt =====
-- The levels of the tree: their lengths, their entries, and the end of the loop.
use blockchain_messaging_pro.Common.{
  ℕ, zero, suc, ◌+◌, ◌*◌, ◌%◌, ◌≤◌, ◌<◌, ◌≡◌, refl, List, [], ◌∷◌, ◌++◌, Str, Bytes, encode, arith,
  length, get_or, last_or, length-append, get_or-append_left,
}
use blockchain_messaging_pro.Merkle.{pad_level, next_level, build_tree}

pub length-pad_level : (hs : List Str) → length (pad_level hs) ≡ length hs + length hs % 2
unfolding pad_level
length-pad_level hs = ground (arith, length-append hs (last_or [] hs ∷ []))

pub get_or-pad_level :
    (hs : List Str) (i : ℕ) → i < length hs → get_or (pad_level hs) i [] ≡ get_or hs i []
unfolding pad_level
get_or-pad_level hs i h = ground (arith, get_or-append_left hs (last_or [] hs ∷ []) i [] h)

module _ (sha256 : Bytes → Str) where
  pub length-next_level :
      (hs : List Str) → length hs % 2 ≡ 0 → 2 * length (next_level sha256 hs) ≡ length hs
  unfolding next_level
  length-next_level [] h = omega arith
  length-next_level (a ∷ []) h = absurd (omega arith)
  length-next_level (a ∷ b ∷ rest) h = omega (arith, length-next_level rest (omega arith))

  pub get_or-next_level :
      (hs : List Str) (j k : ℕ)
      → k ≡ 2 * j
      → suc k < length hs
      → get_or (next_level sha256 hs) j []
        ≡ sha256 (encode (get_or hs k [] ++ get_or hs (suc k) []))
  unfolding next_level
  get_or-next_level [] j k e h = absurd (omega arith)
  get_or-next_level (a ∷ []) j k e h = absurd (omega arith)
  get_or-next_level (a ∷ b ∷ rest) zero zero e h = refl
  get_or-next_level (a ∷ b ∷ rest) zero (suc k) e h = absurd (omega arith)
  get_or-next_level (a ∷ b ∷ rest) (suc j) zero e h = absurd (omega arith)
  get_or-next_level (a ∷ b ∷ rest) (suc j) (suc zero) e h = absurd (omega arith)
  get_or-next_level (a ∷ b ∷ rest) (suc j) (suc (suc k)) e h =
      get_or-next_level rest j k (omega arith) (omega arith)

  -- one round halves the level, rounding up
  pub length-round :
      (hs : List Str) → 2 * length (next_level sha256 (pad_level hs)) ≡ length hs + length hs % 2
  length-round hs = omega (
    arith,
    length-pad_level hs,
    length-next_level (pad_level hs) (omega (arith, length-pad_level hs)),
  )

  -- With fuel for every entry the loop ends by its test, with one hash.
  pub build_tree-single :
      (fuel : ℕ) (hs : List Str)
      → 0 < length hs
      → length hs ≤ fuel
      → length (build_tree sha256 fuel hs) ≡ 1
  unfolding build_tree
  build_tree-single zero hs p h = absurd (omega arith)
  build_tree-single (suc fuel) hs p h =
      ground (arith, length-round hs, build_tree-single fuel (next_level sha256 (pad_level hs)))

  -- More fuel changes nothing.
  pub build_tree-fuel :
      (fuel more : ℕ) (hs : List Str)
      → length hs ≤ fuel
      → length hs ≤ more
      → build_tree sha256 fuel hs ≡ build_tree sha256 more hs
  unfolding build_tree
  build_tree-fuel zero zero hs p q = refl
  build_tree-fuel zero (suc more) hs p q = ground arith
  build_tree-fuel (suc fuel) zero hs p q = ground arith
  build_tree-fuel (suc fuel) (suc more) hs p q =
      ground (arith, length-round hs, build_tree-fuel fuel more (next_level sha256 (pad_level hs)))
