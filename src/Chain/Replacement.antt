-- ===== src/Chain/Replacement.antt =====
-- When `replace_chain` and `should_accept_chain` adopt a foreign chain, and what they do not check.
use native.Mathlib.Nat.{lt_of_mul-lt-mul_left, mul-lt-mul_of_pos_left, one-le-pow}
use blockchain_messaging_pro.Common.{
  ℕ, ◌*◌, ◌^◌, ◌<◌, ◌≡◌, ◌↔◌, ◌⊎◌, inl, inr, refl, sym, ap, ◌∙◌, Bool, true, false, List, [], ◌∷◌,
  Str, Bytes, arith, length, leb, Error, Result, ok, err, ◌>>=◌, Bool-cases, Result-cases,
}
use blockchain_messaging_pro.Chain.State.{
  Blockchain, work_of, total_work, index_blocks, rebuild_index, no_indexes,
}
use mathlib.Core.Bool.{false≢true}
use blockchain_messaging_pro.Chain.Entries.{IsReadable, index_blocks-eq}
use blockchain_messaging_pro.Chain.Index.{IsIndexed}
use blockchain_messaging_pro.Chain.Mempool.{All}
use blockchain_messaging_pro.Block.{Block}
use blockchain_messaging_pro.Chain.Methods.{validate_chain, replace_chain}
use blockchain_messaging_pro.Chain.Links.{IsChain, validate_chain_iff}

-- the sum is a product
pub work_of-length : (d : ℕ) (bs : List Block) → work_of d bs ≡ 2 ^ d * length bs
unfolding work_of
work_of-length d [] = omega arith
work_of-length d (b ∷ bs) = omega (arith, work_of-length d bs)

-- With one difficulty for both, more work is more blocks.
pub work_of-lt :
    (d : ℕ) (xs ys : List Block) → (work_of d xs < work_of d ys) ↔ (length xs < length ys)
work_of-lt d xs ys = (
  (λ h. lt_of_mul-lt-mul_left (2 ^ d) (omega (arith, h, work_of-length d xs, work_of-length d ys))),
  (λ h.
      let more = mul-lt-mul_of_pos_left h (one-le-pow d 2 (omega arith)) in
      omega (arith, more, work_of-length d xs, work_of-length d ys)),
)

ok≢err : (r : Result (Unit {0})) {x : Error} → r ≡ ok tt → ¬ (r ≡ err x)
ok≢err r e f = absurd (ground (arith, e, f))

module _ (sha256 : Bytes → Str) where
  -- the state with another chain, as far as its indexes can be rebuilt
  abbrev pub with_chain : Blockchain → List Block → Blockchain
  with_chain s bs = record s { chain = bs; indexes = (index_blocks no_indexes bs).0 }

  -- what `replace_chain` may do: refuse, adopt, or raise an exception with the chain replaced
  abbrev pub Replaced : Blockchain → List Block → Blockchain × Result Bool → Type 0
  Replaced s bs r =
      (¬ (IsChain sha256 s.difficulty bs × (length s.chain < length bs)) × (r ≡ (s, ok false)))
      ⊎ (IsChain sha256 s.difficulty bs
          × (length s.chain < length bs)
          × IsIndexed (with_chain s bs)
          × (r ≡ (with_chain s bs, ok true)))
      ⊎ (IsChain sha256 s.difficulty bs
          × (length s.chain < length bs)
          × ¬ (All IsReadable bs)
          × (e : Error) × (r ≡ (with_chain s bs, err e)))

  accepted_iff :
      (s : Blockchain) (bs : List Block)
      → ((validate_chain sha256 s bs ≡ true)
          × (leb (work_of s.difficulty bs) (total_work s) ≡ false))
        ↔ (IsChain sha256 s.difficulty bs × (length s.chain < length bs))
  unfolding total_work
  accepted_iff s bs = (
    λ h. ground (arith, validate_chain_iff sha256 s bs, work_of-lt s.difficulty s.chain bs),
    λ h. ground (arith, validate_chain_iff sha256 s bs, work_of-lt s.difficulty s.chain bs),
  )

  adopted_step :
      (s : Blockchain) (bs : List Block)
      → validate_chain sha256 s bs ≡ true
      → leb (work_of s.difficulty bs) (total_work s) ≡ false
      → replace_chain sha256 s bs
        ≡ (with_chain s bs, (index_blocks no_indexes bs).1 >>= λ done. ok true)
  unfolding replace_chain rebuild_index
  adopted_step s bs valid more = rw (replace_chain, valid, more) refl

  adopted-Replaced :
      (s : Blockchain) (bs : List Block)
      → validate_chain sha256 s bs ≡ true
      → leb (work_of s.difficulty bs) (total_work s) ≡ false
      → Replaced s bs (replace_chain sha256 s bs)
  adopted-Replaced s bs valid more =
      let (linked, longer) = (accepted_iff s bs).0 (valid, more) in
      let step = adopted_step s bs valid more in
      elim (Result-cases (index_blocks no_indexes bs).1) [
        | inl (done, e) ↦ inr (
            inl (
              linked,
              longer,
              ap (λ r. ((index_blocks no_indexes bs).0, r)) e,
              step ∙ ap (λ r. (with_chain s bs, r >>= λ d. ok true)) e,
            ))
        | inr (x, e) ↦ inr (
            inr (
              linked,
              longer,
              (λ all.
                  ok≢err (index_blocks no_indexes bs).1
                    (ap (λ r. r.1) (index_blocks-eq no_indexes bs all)) e),
              x,
              step ∙ ap (λ r. (with_chain s bs, r >>= λ d. ok true)) e,
            ))
      ]

  -- `replace_chain` refuses exactly the chains that are not linked or not longer than its own, and
  -- then nothing changes. Any other becomes the chain, and the pending data is kept: if all its
  -- blocks can be indexed, the indexes are rebuilt from it, and otherwise an exception leaves those
  -- of the blocks before the first that cannot, and what the indexing of this one has put in.
  pub replace_chain_lem :
      (s : Blockchain) (bs : List Block) → Replaced s bs (replace_chain sha256 s bs)
  unfolding replace_chain
  replace_chain_lem s bs = elim (Bool-cases (validate_chain sha256 s bs)) [
    | inl valid ↦ elim (Bool-cases (leb (work_of s.difficulty bs) (total_work s))) [
      | inl less ↦ inl (
        λ h. absurd (false≢true (sym ((accepted_iff s bs).1 h).1 ∙ less)),
        rw (replace_chain, valid, less) refl,
      )
      | inr more ↦ adopted-Replaced s bs valid more
    ]
    | inr invalid ↦ inl (
      λ h. absurd (false≢true (sym invalid ∙ ((accepted_iff s bs).1 h).0)),
      rw (replace_chain, invalid) refl,
    )
  ]
