-- ===== src/Chunks/Arrivals.antt =====
-- Chunks of one payload as they come: their numbers, and the calls that receive them.
use blockchain_messaging_pro.Common.{
  ℕ, zero, suc, ◌+◌, ◌≤◌, ◌<◌, ◌≡◌, ◌⊎◌, refl, ap, true, Option, none, List, [], ◌∷◌, map, Bytes,
  Str, arith, length, Result, ok, nat_eq, str_eq,
}
use blockchain_messaging_pro.Common.Dict
use blockchain_messaging_pro.Common.Dict.{Dict, get-put, get-remove}
use blockchain_messaging_pro.Chunks.{
  Chunk, Reassembler, chunk_total, missing_from, add_chunk, chunks_from, chunk,
}
use blockchain_messaging_pro.Chunks.Buffer.{nth_chunk}

-- The calls of `add_chunk` up to the first one that completes a stream or raises.
unfoldable pub receive :
    (Bytes → Str) → Reassembler → List Chunk → Reassembler × Result (Option Bytes)
receive sha256 r [] = (r, ok none)
receive sha256 r (c ∷ cs) =
    let (r', result) = add_chunk sha256 r c in
    elim result [ ok none ↦ receive sha256 r' cs | other ↦ (r', other) ]

abbrev pub Occurs : ℕ → List ℕ → Type 0
Occurs j [] = ⊥
Occurs j (i ∷ order) = (j ≡ i) ⊎ Occurs j order

abbrev pub AllBelow : ℕ → List ℕ → Type 0
AllBelow n [] = Unit
AllBelow n (i ∷ order) = (i < n) × AllBelow n order

pub missing_from-full :
    (d : Dict ℕ Bytes) (i rounds : ℕ)
    → ((j : ℕ) → i ≤ j → j < i + rounds → Dict.contains d j ≡ true)
    → length (missing_from d i rounds) ≡ 0
unfolding missing_from
missing_from-full d i zero h = refl
missing_from-full d i (suc rounds) h =
    rw (h i (omega arith) (omega arith))
      (missing_from-full d (suc i) rounds (λ j lo hi. h j (omega arith) (omega arith)))

-- the chunks of the payload with the numbers of a list
abbrev pub arrivals :
    (Bytes → Str) → (chunk_size : ℕ) (content : Bytes) → 0 < chunk_size → Str → List ℕ → List Chunk
arrivals sha256 chunk_size content positive id order =
    map (nth_chunk chunk_size content positive sha256 id) order

-- the numbers of `range(i, i + rounds)`
abbrev pub range : ℕ → ℕ → List ℕ
range i zero = []
range i (suc rounds) = i ∷ range (suc i) rounds

chunks_from-eq-map :
    (sha256 : Bytes → Str) (chunk_size : ℕ) (content : Bytes) (positive : 0 < chunk_size) (id : Str)
    (rounds i : ℕ)
    → chunks_from sha256 chunk_size content id (chunk_total chunk_size content) i rounds
      ≡ map (nth_chunk chunk_size content positive sha256 id) (range i rounds)
unfolding chunks_from
chunks_from-eq-map sha256 chunk_size content positive id zero i = refl
chunks_from-eq-map sha256 chunk_size content positive id (suc rounds) i =
    ap (◌∷◌ (nth_chunk chunk_size content positive sha256 id i))
      (chunks_from-eq-map sha256 chunk_size content positive id rounds (suc i))

-- With a chunk size above zero, `chunk` gives the chunks with the numbers from 0 on, in order, as
-- many as `chunk_total` says.
pub chunk-arrivals :
    (sha256 : Bytes → Str) (chunk_size : ℕ) (content : Bytes) (positive : 0 < chunk_size) (id : Str)
    → chunk sha256 chunk_size content id
      ≡ ok (
          arrivals sha256 chunk_size content positive id (range 0 (chunk_total chunk_size content)))
unfolding chunk
chunk-arrivals sha256 chunk_size content positive id = ground (
  arith,
  chunks_from-eq-map sha256 chunk_size content positive id (chunk_total chunk_size content) 0,
)
