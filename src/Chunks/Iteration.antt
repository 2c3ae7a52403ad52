-- ===== src/Chunks/Iteration.antt =====
-- src/engine/chunker.py: the generator `chunk_iter`, `to_chunk_info`, and the chunks that come out.
use blockchain_messaging_pro.Common.{
  ℕ, zero, suc, ◌+◌, ◌-◌, ◌*◌, ◌≤◌, ◌<◌, ◌≡◌, refl, sym, ap, ◌∙◌, subst, min, true, Option, none,
  some, List, [], ◌∷◌, Str, Bytes, arith, length, drop, length-take, length-drop, ltb, nat_beq,
  if◌then◌else◌, Result, ok, err, ◌>>=◌, zero_division, out_of_fuel, str_beq_refl,
}
use blockchain_messaging_pro.Chain.Mempool.{All}
use blockchain_messaging_pro.Message.{ChunkInfo}
use blockchain_messaging_pro.Chunks.{
  Chunk, piece, chunk_total, new_chunk, verify, chunks_from, chunk,
}
use blockchain_messaging_pro.Chunks.Split.{chunk_total_bounds}

unfoldable pub to_chunk_info : Chunk → ChunkInfo
to_chunk_info c = record {
  sequence = c.sequence;
  total = c.total;
  stream_id = c.stream_id;
  hash = c.hash;
}

-- what a chunk of a payload in so many chunks is like
pub record IsPiece (sha256 : Bytes → Str) (chunk_size total : ℕ) (c : Chunk) : Type 0 where
  pub below : c.sequence < total
  pub counts : c.total ≡ total
  pub some_bytes : 0 < length c.content
  pub bounded : length c.content ≤ chunk_size
  pub intact : verify sha256 c ≡ true

module _ (sha256 : Bytes → Str) (chunk_size : ℕ) (content : Bytes) (stream_id : Str) where
  -- `next` of the generator before round `i`: the chunk that it yields and the round after it, or
  -- its end. The division comes with the first call.
  unfoldable pub chunk_iter : ℕ → Result (Option (Chunk × ℕ))
  chunk_iter i =
      let total = chunk_total chunk_size content in
      if nat_beq chunk_size 0
      then err zero_division
      else if ltb i total
      then ok (some (new_chunk sha256 stream_id i total (piece chunk_size content i), suc i))
      else ok none

  -- a loop over the generator to its end, with fuel for the calls of `next`
  unfoldable pub drain : ℕ → ℕ → Result (List Chunk)
  drain zero i = err out_of_fuel
  drain (suc fuel) i = do
    step ← chunk_iter i
    elim step [ none ↦ ok [] | some (c, j) ↦ do cs ← drain fuel j; ok (c ∷ cs) ]

  module _ (positive : 0 < chunk_size) where
    length-piece :
        (i : ℕ)
        → i < chunk_total chunk_size content
        → (0 < length (piece chunk_size content i))
          × (length (piece chunk_size content i) ≤ chunk_size)
    length-piece i h =
        let (room, spare) = chunk_total_bounds chunk_size content positive in
        let start : i * chunk_size < length content = grind arith in
        let window = min (i * chunk_size + chunk_size) (length content) - i * chunk_size in
        let after = length-drop (i * chunk_size) content in
        let taken = length-take window (drop (i * chunk_size) content) in (omega arith, omega arith)

    chunks_from-IsPiece :
        (rounds i : ℕ)
        → i + rounds ≡ chunk_total chunk_size content
        → let cs =
            chunks_from sha256 chunk_size content stream_id
              (chunk_total chunk_size content)
              i
              rounds in
          (length cs ≡ rounds) × All (IsPiece sha256 chunk_size (chunk_total chunk_size content)) cs
    unfolding chunks_from new_chunk verify
    chunks_from-IsPiece zero i e = (refl, tt)
    chunks_from-IsPiece (suc rounds) i e =
        let (some_bytes, bounded) = length-piece i (omega arith) in
        let (size, pieces) = chunks_from-IsPiece rounds (suc i) (omega arith) in
        (
          omega arith,
          (
            record {
              below = omega arith;
              counts = refl;
              some_bytes = some_bytes;
              bounded = bounded;
              intact = str_beq_refl (sha256 (piece chunk_size content i));
            },
            pieces,
          ),
        )

    chunk_iter_next :
        (i : ℕ)
        → i < chunk_total chunk_size content
        → chunk_iter i
          ≡ ok (
              some (
                new_chunk sha256 stream_id i
                    (chunk_total chunk_size content)
                    (piece chunk_size content i),
                suc i,
              ))
    unfolding chunk_iter
    chunk_iter_next i h = ground arith

    chunk_iter_end : chunk_iter (chunk_total chunk_size content) ≡ ok none
    unfolding chunk_iter
    chunk_iter_end = ground arith

    drain-chunks_from :
        (rounds i fuel : ℕ)
        → i + rounds ≡ chunk_total chunk_size content
        → rounds < fuel
        → drain fuel i
          ≡ ok (
              chunks_from sha256 chunk_size content stream_id
                (chunk_total chunk_size content)
                i
                rounds)
    unfolding drain chunks_from
    drain-chunks_from rounds i zero e h = absurd (omega arith)
    drain-chunks_from zero i (suc fuel) e h =
        let last : i ≡ chunk_total chunk_size content = omega arith in
        rw (drain, ap chunk_iter last ∙ chunk_iter_end) refl
    drain-chunks_from (suc rounds) i (suc fuel) e h =
        rw
          (
            chunk_iter_next i (omega arith),
            drain-chunks_from rounds (suc i) fuel (omega arith) (omega arith),
          )
          refl

    -- With a chunk size above zero, the generator ends within one call more than there are chunks,
    -- and yields what `chunk` returns. The chunks are as many as are announced in each, have room for
    -- the payload with less than one chunk to spare, and each has a number below their count, at
    -- least one byte and at most as many as the chunk size, and the hash of its bytes.
    pub drain-chunk_iter :
        (fuel : ℕ)
        → chunk_total chunk_size content < fuel
        → (cs : List Chunk) × (drain fuel 0 ≡ ok cs)
          × (chunk sha256 chunk_size content stream_id ≡ ok cs)
          × (length content ≤ length cs * chunk_size)
          × (length cs * chunk_size < length content + chunk_size)
          × All (IsPiece sha256 chunk_size (length cs)) cs
    unfolding chunk
    drain-chunk_iter fuel h =
        let total = chunk_total chunk_size content in
        let cs = chunks_from sha256 chunk_size content stream_id total 0 total in
        let (size, pieces) = chunks_from-IsPiece total 0 (omega arith) in
        let (room, spare) = chunk_total_bounds chunk_size content positive in
        (
          cs,
          drain-chunks_from total 0 fuel (omega arith) h,
          ground arith,
          subst (λ n. length content ≤ n * chunk_size) (sym size) room,
          subst (λ n. n * chunk_size < length content + chunk_size) (sym size) spare,
          subst (λ n. All (IsPiece sha256 chunk_size n) cs) (sym size) pieces,
        )
