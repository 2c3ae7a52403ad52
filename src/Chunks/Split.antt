-- ===== src/Chunks/Split.antt =====
-- The chunks of a payload: how many, and that they make it up.
use mathlib.Core.List.{append-nil}
use native.Mathlib.Decide.{dec_le}
use blockchain_messaging_pro.Common.{
  ℕ, zero, suc, ◌+◌, ◌-◌, ◌*◌, ◌≤◌, ◌<◌, ◌≡◌, ap, ◌∙◌, sym, min, [], ◌++◌, Bytes, arith, length,
  slice, take, drop, take-append-drop, take_of_length-le, drop_of_length-le, drop-drop, length-drop,
}
use blockchain_messaging_pro.Chunks.{piece, chunk_total}

-- a slice of at most `size` elements, and what follows it
window-append :
    (xs : Bytes) (a size : ℕ)
    → slice xs a (min (a + size) (length xs)) ++ drop (a + size) xs ≡ drop a xs
window-append xs a size = elim (dec_le (a + size) (length xs)) [
  | yes inside ↦
      ap (λ k. take k (drop a xs) ++ drop (a + size) xs) {x = min (a + size) (length xs) - a}
        {y = size} (omega arith)
      ∙ ap (◌++◌ (take size (drop a xs))) (sym (drop-drop size a xs))
      ∙ take-append-drop size (drop a xs)
  | no outside ↦
      ap (◌++◌ (slice xs a (min (a + size) (length xs))))
        (drop_of_length-le (a + size) xs (omega arith))
      ∙ append-nil _
      ∙ take_of_length-le (min (a + size) (length xs) - a) (drop a xs)
          (omega (arith, length-drop a xs))
]

module _ (chunk_size : ℕ) (content : Bytes) (positive : 0 < chunk_size) where
  -- With a chunk size above zero, the chunks have room for all bytes, with less than one chunk to
  -- spare.
  pub chunk_total_bounds :
      (length content ≤ chunk_total chunk_size content * chunk_size)
      × (chunk_total chunk_size content * chunk_size < length content + chunk_size)
  unfolding chunk_total
  chunk_total_bounds = (grind arith, grind arith)

  -- the pieces from round `i` on, joined
  unfoldable pub pieces : ℕ → ℕ → Bytes
  pieces i zero = []
  pieces i (suc rounds) = piece chunk_size content i ++ pieces (suc i) rounds

  piece-append-drop :
      (i : ℕ)
      → piece chunk_size content i ++ drop (suc i * chunk_size) content
        ≡ drop (i * chunk_size) content
  piece-append-drop i =
      ap (λ k. piece chunk_size content i ++ drop k content) (grind arith)
      ∙ window-append content (i * chunk_size) chunk_size

  pub pieces-eq-drop :
      (rounds i : ℕ)
      → length content ≤ (i + rounds) * chunk_size
      → pieces i rounds ≡ drop (i * chunk_size) content
  unfolding pieces
  pieces-eq-drop zero i h = sym (drop_of_length-le (i * chunk_size) content (grind arith))
  pieces-eq-drop (suc rounds) i h =
      ap (◌++◌ (piece chunk_size content i)) (pieces-eq-drop rounds (suc i) (grind arith))
      ∙ piece-append-drop i

  -- With a chunk size above zero, the pieces of all chunks, joined in order, are the payload.
  pub pieces-eq-content : pieces 0 (chunk_total chunk_size content) ≡ content
  pieces-eq-content =
      pieces-eq-drop (chunk_total chunk_size content) 0 (grind (arith, chunk_total_bounds.0))
      ∙ ap (λ k. drop k content) {x = 0 * chunk_size} {y = 0} (grind arith)
