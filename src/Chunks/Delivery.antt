-- ===== src/Chunks/Delivery.antt =====
-- Chunks of one payload that arrive in any order, some of them more than once.
use blockchain_messaging_pro.Common.{
  ℕ, ◌<◌, ◌≡◌, ◌⊎◌, inl, inr, refl, ap, ◌∙◌, sym, subst, Bool, true, false, none, some, List, [],
  ◌∷◌, Bytes, Str, arith, length, ok, nat_beq_iff, str_beq_refl, nat_eq, str_eq, Bool-cases,
}
use blockchain_messaging_pro.Common.Dict
use blockchain_messaging_pro.Common.Dict.{Dict, get-put, get-remove}
use blockchain_messaging_pro.Chunks.{
  Chunk, ReassemblyBuffer, Reassembler, piece, chunk_total, is_complete, missing, new_chunk,
  fresh_buffer, add_to_buffer, buffer_for, finish, add_chunk,
}
use blockchain_messaging_pro.Chunks.Split.{chunk_total_bounds}
use blockchain_messaging_pro.Chunks.Buffer.{
  IsPartial, reassemble-IsPartial, nth_chunk, add_to_buffer-again, add_to_buffer-new, contains-put,
  missing_from_empty,
}
use blockchain_messaging_pro.Chunks.Arrivals.{
  receive, Occurs, AllBelow, missing_from-full, arrivals,
}

module _ (sha256 : Bytes → Str) (chunk_size : ℕ) (content : Bytes) (positive : 0 < chunk_size)
    (id : Str) where
  abbrev total : ℕ
  total = chunk_total chunk_size content

  -- the stream's buffer, before the next chunk of the payload
  record IsOpen (r : Reassembler) (b : ReassemblyBuffer) : Type 0 where
    buffer : (i : ℕ) → buffer_for r (nth_chunk chunk_size content positive sha256 id i) ≡ b
    stream : b.stream_id ≡ id
    partial : IsPartial chunk_size content positive b
    open_still : is_complete b ≡ false

  abbrev Covers : ReassemblyBuffer → List ℕ → Type 0
  Covers b order = (j : ℕ) → j < total → (Dict.contains b.chunks j ≡ true) ⊎ Occurs j order

  not_covered :
      (b : ReassemblyBuffer)
      → IsPartial chunk_size content positive b
      → is_complete b ≡ false
      → ¬ Covers b []
  unfolding is_complete missing
  not_covered b p e c =
      let full = missing_from-full b.chunks 0 b.total (λ j lo hi.
        elim (c j (omega (arith, p.total))) [ inl k ↦ k | inr none_left ↦ absurd none_left ]) in
      ground (arith, p.count, full)

  buffer-put :
      (r : Reassembler) (b : ReassemblyBuffer) (i : ℕ)
      → buffer_for (Dict.put r id b) (nth_chunk chunk_size content positive sha256 id i) ≡ b
  unfolding buffer_for new_chunk
  buffer-put r b i = ground (arith, get-put r id id b, str_beq_refl id)

  -- what the call does with the buffer that the stream has
  add_chunk_steps :
      (r : Reassembler) (c : Chunk) (b b' : ReassemblyBuffer) (added : Bool)
      → buffer_for r c ≡ b
      → add_to_buffer sha256 b c ≡ ok (b', added)
      → add_chunk sha256 r c ≡ finish sha256 (Dict.put r c.stream_id b') b' c.stream_id
  unfolding add_chunk
  add_chunk_steps r c b b' added e f = rw (add_chunk, e, f) refl

  add_again :
      (r : Reassembler) (b : ReassemblyBuffer) (i : ℕ)
      → IsOpen r b
      → Dict.contains b.chunks i ≡ true
      → add_chunk sha256 r (nth_chunk chunk_size content positive sha256 id i)
        ≡ (Dict.put r id b, ok none)
  unfolding finish new_chunk
  add_again r b i o h =
      add_chunk_steps r _ b b false (o.buffer i)
        (add_to_buffer-again chunk_size content positive sha256 id b i o.stream h)
      ∙ rw (o.open_still) refl

  abbrev with_piece : ReassemblyBuffer → ℕ → ReassemblyBuffer
  with_piece b i = record b { chunks = Dict.put b.chunks i (piece chunk_size content i) }

  -- A new chunk completes the stream, or leaves it open with the chunk stored.
  add_new :
      (r : Reassembler) (b : ReassemblyBuffer) (i : ℕ)
      → IsOpen r b
      → i < total
      → Dict.contains b.chunks i ≡ false
      → (add_chunk sha256 r (nth_chunk chunk_size content positive sha256 id i)
          ≡ (Dict.remove (Dict.put r id (with_piece b i)) id, ok (some content)))
        ⊎ ((add_chunk sha256 r (nth_chunk chunk_size content positive sha256 id i)
              ≡ (Dict.put r id (with_piece b i), ok none))
            × IsOpen (Dict.put r id (with_piece b i)) (with_piece b i))
  unfolding finish new_chunk
  add_new r b i o lt h =
      let (stored, partial) =
        add_to_buffer-new chunk_size content positive sha256 id b i (o.partial) (o.stream) lt h in
      let steps = add_chunk_steps r _ b (with_piece b i) true (o.buffer i) stored in
      elim (Bool-cases (is_complete (with_piece b i))) [
        | inl e ↦ inl (
            steps
            ∙ rw (e, reassemble-IsPartial chunk_size content positive (with_piece b i) partial e)
                refl)
        | inr e ↦ inr (
          steps ∙ rw (e) refl,
          record {
            buffer = λ j. buffer-put r (with_piece b i) j;
            stream = o.stream;
            partial = partial;
            open_still = e;
          },
        )
      ]

  -- one step of `receive`
  receive-more :
      (r r' : Reassembler) (c : Chunk) (cs : List Chunk)
      → add_chunk sha256 r c ≡ (r', ok none)
      → receive sha256 r (c ∷ cs) ≡ receive sha256 r' cs
  unfolding receive
  receive-more r r' c cs e =
      ap (λ p. elim p.1 [ ok none ↦ receive sha256 p.0 cs | other ↦ (p.0, other) ]) e

  receive-done :
      (r r' : Reassembler) (c : Chunk) (cs : List Chunk)
      → add_chunk sha256 r c ≡ (r', ok (some content))
      → receive sha256 r (c ∷ cs) ≡ (r', ok (some content))
  unfolding receive
  receive-done r r' c cs e =
      ap (λ p. elim p.1 [ ok none ↦ receive sha256 p.0 cs | other ↦ (p.0, other) ]) e

  abbrev Delivers : Reassembler → List ℕ → Type 0
  Delivers r order =
      (r' : Reassembler) × ((receive sha256 r (arrivals sha256 chunk_size content positive id order)
          ≡ (r', ok (some content)))
        × (Dict.get r' id ≡ none))

  Covers-again :
      (b : ReassemblyBuffer) (i : ℕ) (order : List ℕ)
      → Dict.contains b.chunks i ≡ true
      → Covers b (i ∷ order)
      → Covers b order
  Covers-again b i order h c j lt = elim (c j lt) [
    | inl k ↦ inl k
    | inr (inl e) ↦ inl (subst (λ k. Dict.contains b.chunks k ≡ true) (sym e) h)
    | inr (inr later) ↦ inr later
  ]

  Covers-new :
      (b : ReassemblyBuffer) (i : ℕ) (order : List ℕ)
      → Covers b (i ∷ order)
      → Covers (with_piece b i) order
  Covers-new b i order c j lt = elim (c j lt) [
    | inl k ↦ inl (ground (arith, contains-put b.chunks i j (piece chunk_size content i)))
    | inr (inl e) ↦
        inl
          (ground (arith, contains-put b.chunks i j (piece chunk_size content i), nat_beq_iff i j))
    | inr (inr later) ↦ inr later
  ]

  Delivers-open :
      (order : List ℕ) (r : Reassembler) (b : ReassemblyBuffer)
      → IsOpen r b
      → AllBelow total order
      → Covers b order
      → Delivers r order
  Delivers-open [] r b o below c = absurd (not_covered b (o.partial) (o.open_still) c)
  Delivers-open (i ∷ order) r b o (lt, below) c = elim (Bool-cases (Dict.contains b.chunks i)) [
    | inl h ↦
        let (r', rest) =
          Delivers-open order (Dict.put r id b) b
            (record {
              buffer = λ j. buffer-put r b j;
              stream = o.stream;
              partial = o.partial;
              open_still = o.open_still;
            })
            below (Covers-again b i order h c) in
        (r', (receive-more r _ _ _ (add_again r b i o h) ∙ rest.0, rest.1))
    | inr h ↦ elim (add_new r b i o lt h) [
      | inl e ↦ (
        _,
        (
          receive-done r _ _ _ e,
          ground (arith, get-remove (Dict.put r id (with_piece b i)) id id, str_beq_refl id),
        ),
      )
      | inr (e, still) ↦
          let (r', rest) =
            Delivers-open order (Dict.put r id (with_piece b i)) (with_piece b i) still below
              (Covers-new b i order c) in
          (r', (receive-more r _ _ _ e ∙ rest.0, rest.1))
    ]
  ]

  IsOpen-fresh :
      (r : Reassembler) → Dict.get r id ≡ none → 0 < total → IsOpen r (fresh_buffer id total)
  unfolding buffer_for new_chunk is_complete missing Dict.get
  IsOpen-fresh r absent some_chunk = record {
    buffer = λ i. rw (buffer_for, absent) refl;
    stream = refl;
    partial = record {
      total = refl;
      pieces_in = λ i v at. absurd (cc);
      count = omega (arith, missing_from_empty 0 total);
    };
    open_still = ground arith;
  }

  -- Let a payload be not empty and the chunk size be above zero. If the stream has no buffer yet,
  -- the chunks come in any order and any of them more than once, with numbers below the total and
  -- each number at least once, then `add_chunk` returns the payload when the last missing chunk
  -- comes, and the buffer of the stream is gone.
  pub receive-content :
      (r : Reassembler) (order : List ℕ)
      → Dict.get r id ≡ none
      → 0 < length content
      → AllBelow total order
      → ((j : ℕ) → j < total → Occurs j order)
      → (r' : Reassembler) × ((receive sha256 r
              (arrivals sha256 chunk_size content positive id order)
            ≡ (r', ok (some content)))
          × (Dict.get r' id ≡ none))
  receive-content r order absent nonempty below all =
      Delivers-open order r (fresh_buffer id total)
        (IsOpen-fresh r absent (grind (arith, chunk_total_bounds chunk_size content positive)))
        below (λ j lt. inr (all j lt))
