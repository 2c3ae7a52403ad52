-- ===== src/Chunks/Buffer.antt =====
-- A reassembly buffer that has only seen chunks of one payload.
use blockchain_messaging_pro.Common.{
  ℕ, zero, suc, ◌+◌, ◌≤◌, ◌<◌, ◌≡◌, refl, ap, ◌∙◌, true, false, some, [], Bytes, Str, arith, length,
  ok, nat_beq, str_beq_refl, nat_eq, nat_beq_iff, Option-cases, inl, inr, if◌then◌else◌,
}
use blockchain_messaging_pro.Common.Dict
use blockchain_messaging_pro.Common.Dict.{Dict, get-put, contains-eq-get, length-put}
use blockchain_messaging_pro.Chunks.{
  Chunk, ReassemblyBuffer, piece, chunk_total, is_complete, missing_from, missing, collect,
  reassemble, new_chunk, verify, add_to_buffer,
}
use blockchain_messaging_pro.Chunks.Split.{pieces, pieces-eq-content}

pub contains-put :
    (d : Dict ℕ Bytes) (k j : ℕ) (v : Bytes)
    → Dict.contains (Dict.put d k v) j ≡ (if nat_beq k j then true else Dict.contains d j)
contains-put d k j v =
    ground (arith, contains-eq-get (Dict.put d k v) j, contains-eq-get d j, get-put d k j v)

-- a key outside the range misses nothing
missing_from-put_outside :
    (d : Dict ℕ Bytes) (k : ℕ) (v : Bytes) (i rounds : ℕ)
    → (k < i)
    → missing_from (Dict.put d k v) i rounds ≡ missing_from d i rounds
unfolding missing_from
missing_from-put_outside d k v i zero h = refl
missing_from-put_outside d k v i (suc rounds) h =
    ground (arith, contains-put d k i v, missing_from-put_outside d k v (suc i) rounds)

-- A new key of the range is missing no longer.
length-missing_from-put :
    (d : Dict ℕ Bytes) (k : ℕ) (v : Bytes) (i rounds : ℕ)
    → Dict.contains d k ≡ false
    → i ≤ k
    → k < i + rounds
    → suc (length (missing_from (Dict.put d k v) i rounds)) ≡ length (missing_from d i rounds)
unfolding missing_from
length-missing_from-put d k v i zero h lo hi = absurd (omega arith)
length-missing_from-put d k v i (suc rounds) h lo hi = ground (
  arith,
  contains-put d k i v,
  nat_beq_iff k i,
  missing_from-put_outside d k v (suc i) rounds,
  length-missing_from-put d k v (suc i) rounds,
)

missing_from-nil :
    (d : Dict ℕ Bytes) (i rounds j : ℕ)
    → length (missing_from d i rounds) ≡ 0
    → i ≤ j
    → j < i + rounds
    → Dict.contains d j ≡ true
unfolding missing_from
missing_from-nil d i zero j h lo hi = absurd (omega arith)
missing_from-nil d i (suc rounds) j h lo hi = ground (arith, missing_from-nil d (suc i) rounds j)

pub missing_from_empty : (i rounds : ℕ) → length (missing_from [] i rounds) ≡ rounds
unfolding missing_from Dict.contains
missing_from_empty i zero = refl
missing_from_empty i (suc rounds) = ground (arith, missing_from_empty (suc i) rounds)

get_of_contains :
    (d : Dict ℕ Bytes) (j : ℕ) → Dict.contains d j ≡ true → (v : Bytes) × (Dict.get d j ≡ some v)
get_of_contains d j h = elim (Option-cases (Dict.get d j)) [
  | inl none_there ↦ absurd (ground (arith, contains-eq-get d j, none_there))
  | inr found ↦ found
]

module _ (chunk_size : ℕ) (content : Bytes) (positive : 0 < chunk_size) where
  -- The buffer holds pieces of the payload at their places, and the numbers that are missing are
  -- as many as the chunks that have not come.
  pub record IsPartial (b : ReassemblyBuffer) : Type 0 where
    pub total : b.total ≡ chunk_total chunk_size content
    pub pieces_in :
        (i : ℕ) (v : Bytes) → Dict.get b.chunks i ≡ some v → v ≡ piece chunk_size content i
    pub count : length (missing b) + length b.chunks ≡ b.total

  collect-pieces :
      (d : Dict ℕ Bytes) (rounds i : ℕ)
      → ((j : ℕ) → i ≤ j → j < i + rounds → Dict.get d j ≡ some (piece chunk_size content j))
      → collect d i rounds ≡ ok (pieces chunk_size content positive i rounds)
  unfolding collect pieces
  collect-pieces d zero i h = refl
  collect-pieces d (suc rounds) i h = rw (
    h i (omega arith) (omega arith),
    collect-pieces d rounds (suc i) (λ j lo hi. h j (omega arith) (omega arith)),
  )

  piece_at :
      (b : ReassemblyBuffer)
      → IsPartial b
      → length (missing b) ≡ 0
      → (j : ℕ) → j < b.total
      → Dict.get b.chunks j ≡ some (piece chunk_size content j)
  unfolding missing
  piece_at b p e j h =
      let (v, at) =
        get_of_contains b.chunks j
          (missing_from-nil b.chunks 0 b.total j e (omega arith) (omega arith)) in
      at ∙ ap some (p.pieces_in j v at)

  -- A complete buffer of pieces makes up the payload.
  pub reassemble-IsPartial :
      (b : ReassemblyBuffer) → IsPartial b → is_complete b ≡ true → reassemble b ≡ ok content
  unfolding reassemble
  reassemble-IsPartial b p h =
      let complete : length b.chunks ≡ b.total = (nat_beq_iff _ _).0 (unfold is_complete in h) in
      let none_missing : length (missing b) ≡ 0 = omega (arith, p.count) in
      rw h (
        ap (collect b.chunks 0) p.total
        ∙ collect-pieces b.chunks (chunk_total chunk_size content) 0
            (λ j lo hi. piece_at b p none_missing j (omega (arith, p.total)))
        ∙ ap ok (pieces-eq-content chunk_size content positive))

  -- what a chunk of the payload looks like, at its place
  abbrev pub nth_chunk : (Bytes → Str) → Str → ℕ → Chunk
  nth_chunk sha256 id i =
      new_chunk sha256 id i (chunk_total chunk_size content) (piece chunk_size content i)

  module _ (sha256 : Bytes → Str) (id : Str) where
    pub verify-new_chunk : (i : ℕ) → verify sha256 (nth_chunk sha256 id i) ≡ true
    unfolding verify new_chunk
    verify-new_chunk i = str_beq_refl (sha256 (piece chunk_size content i))

    -- a chunk that is already there changes nothing
    pub add_to_buffer-again :
        (b : ReassemblyBuffer) (i : ℕ)
        → b.stream_id ≡ id
        → Dict.contains b.chunks i ≡ true
        → add_to_buffer sha256 b (nth_chunk sha256 id i) ≡ ok (b, false)
    unfolding add_to_buffer new_chunk
    add_to_buffer-again b i e h = rw (e, str_beq_refl id, h)

    -- a new chunk of the payload is stored, and the buffer still holds pieces of the payload
    pub add_to_buffer-new :
        (b : ReassemblyBuffer) (i : ℕ)
        → IsPartial b
        → b.stream_id ≡ id
        → i < chunk_total chunk_size content
        → Dict.contains b.chunks i ≡ false
        → let b' = record b { chunks = Dict.put b.chunks i (piece chunk_size content i) } in
          (add_to_buffer sha256 b (nth_chunk sha256 id i) ≡ ok (b', true)) × IsPartial b'
    unfolding add_to_buffer new_chunk verify missing
    add_to_buffer-new b i p e lt h = (
      ground (arith, str_beq_refl id, str_beq_refl (sha256 (piece chunk_size content i))),
      record {
        total = p.total;
        pieces_in = λ j v at. ground (
          arith,
          get-put b.chunks i j (piece chunk_size content i),
          nat_beq_iff i j,
          p.pieces_in j v,
        );
        count = omega (
          arith,
          p.count,
          p.total,
          length-put b.chunks i (piece chunk_size content i) h,
          length-missing_from-put b.chunks i (piece chunk_size content i) 0 b.total h (omega arith)
              (omega (arith, p.total)),
        );
      },
    )
