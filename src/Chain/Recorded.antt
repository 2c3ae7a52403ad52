-- ===== src/Chain/Recorded.antt =====
-- Every message that the blocks of a chain hold can be looked up and proved.
use native.Mathlib.Nat.{sub_self, sub-zero}
use blockchain_messaging_pro.Common.{
  ◌-◌, ℕ, zero, suc, ◌≤◌, ◌≡◌, refl, ap, ◌∙◌, subst, Bool, true, false, none, some, List, [], ◌∷◌,
  Str, Bytes, arith, get_elem?, str_eq, nat_eq, Option-cases, inl, inr, some-injective,
}
use blockchain_messaging_pro.Common.Dict
use blockchain_messaging_pro.Common.Dict.{Dict, get-put}
use blockchain_messaging_pro.Json.{Json}
use blockchain_messaging_pro.Merkle.{MerkleProof}
use blockchain_messaging_pro.Block.{Block, messages_of}
use blockchain_messaging_pro.Chain.State.{
  Blockchain, Indexes, no_indexes, message_id, messages_or_none, find_message, get_message_block,
  get_block_by_height,
}
use blockchain_messaging_pro.Chain.Entries.{indexed_block, indexed_chain, indexed_messages}
use blockchain_messaging_pro.Chain.Methods.{get_merkle_proof}
use blockchain_messaging_pro.Chain.Index.{
  IsIndexed-indexes, HasHeights, find_last, get_block_by_height-get_elem?,
}
use blockchain_messaging_pro.Chain.Proofs.{IsProofOf, get_merkle_proof-IsProofOf}
use blockchain_messaging_pro.Chain.Runs.{IsLocal, IsLocal-IsIndexed}

-- the messages of the block hold one with the id
abbrev pub holds : Str → Block → Bool
holds id b = elim (find_message id (messages_or_none b)) [ none ↦ false | some i ↦ true ]

get-indexed_messages :
    (id : Str) (k : ℕ) (ms : List Json) (d : Dict Str ℕ)
    → Dict.get (indexed_messages k ms d) id
      ≡ elim (find_message id ms) [ none ↦ Dict.get d id | some i ↦ some k ]
unfolding indexed_messages find_message
get-indexed_messages id k [] d = refl
get-indexed_messages id k (m ∷ ms) d = elim (Option-cases (message_id m)) [
  | inl e ↦ ground (arith, e, get-indexed_messages id k ms d)
  | inr (j, e) ↦ ground (arith, e, get-indexed_messages id k ms (Dict.put d j k), get-put d j id k)
]

by_message-indexed_chain :
    (id : Str) (bs : List Block) (ix : Indexes)
    → Dict.get (indexed_chain ix bs).by_message id
      ≡ elim (find_last (holds id) bs) [ none ↦ Dict.get ix.by_message id | some c ↦ some c.index ]
unfolding indexed_chain indexed_block find_last
by_message-indexed_chain id [] ix = refl
by_message-indexed_chain id (b ∷ bs) ix = ground (
  arith,
  by_message-indexed_chain id bs (indexed_block ix b),
  get-indexed_messages id b.index (messages_or_none b) ix.by_message,
)

sub_suc : (n i : ℕ) → suc n ≤ i → i - n ≡ suc (i - suc n)
sub_suc n i h = omega arith

-- what `find_last` finds stands in the list, at its own height, and passes
find_last_sound :
    (p : Block → Bool) (n : ℕ) (bs : List Block) {c : Block}
    → HasHeights n bs
    → find_last p bs ≡ some c
    → (get_elem? bs (c.index - n) ≡ some c) × (n ≤ c.index) × (p c ≡ true)
unfolding find_last
find_last_sound p n [] h e = absurd (ground arith)
find_last_sound p n (x ∷ bs) {c = c} h e = elim (Option-cases (find_last p bs)) [
  | inl none_there ↦
      let same : x ≡ c = ground (arith, none_there) in
      subst
        (λ (t : Block). (get_elem? (x ∷ bs) (t.index - n) ≡ some t) × (n ≤ t.index) × (p t ≡ true))
        same (rw (h.0, sub_self) refl, omega (arith, h.0), ground (arith, none_there))
  | inr (y, f) ↦
      let same : y ≡ c = ground (arith, f) in
      let (at, le, py) = find_last_sound p (suc n) bs h.1 (f ∙ ap some same) in
      (rw (sub_suc n c.index le) at, omega (arith, le), py)
]

find_last_exists :
    (p : Block → Bool) (k : ℕ) (bs : List Block) {b : Block}
    → get_elem? bs k ≡ some b
    → p b ≡ true
    → (c : Block) × (find_last p bs ≡ some c)
unfolding find_last
find_last_exists p k [] e t = absurd (ground arith)
find_last_exists p zero (x ∷ bs) e t = elim (Option-cases (find_last p bs)) [
  | inl none_there ↦ (x, ground (arith, none_there, some-injective e))
  | inr (c, f) ↦ (c, rw f)
]
find_last_exists p (suc k) (x ∷ bs) e t = let (c, f) = find_last_exists p k bs e t in (c, rw f)

module _ (sha256 : Bytes → Str) where
  message_block-found :
      (s : Blockchain) (id : Str) (c : Block)
      → IsLocal sha256 false s
      → find_last (holds id) s.chain ≡ some c
      → get_elem? s.chain c.index ≡ some c
      → get_message_block s id ≡ some c
  unfolding get_message_block get_block_by_height Dict.get
  message_block-found s id c l f at =
      let stored : Dict.get s.indexes.by_message id ≡ some c.index =
        rw
          (
            IsIndexed-indexes s (IsLocal-IsIndexed sha256 l),
            by_message-indexed_chain id s.chain no_indexes,
            f,
          )
          refl in
      let back : get_block_by_height s c.index ≡ some c =
        get_block_by_height-get_elem? s c.index (IsLocal-IsIndexed sha256 l) l.heights ∙ at in
      rw (stored, get_message_block) back

  proof_of_found :
      (s : Blockchain) (id : Str) (c : Block)
      → get_message_block s id ≡ some c
      → holds id c ≡ true
      → (p : MerkleProof) × (get_merkle_proof sha256 s id ≡ some p)
  unfolding get_merkle_proof find_message
  proof_of_found s id c e has = elim (Option-cases (messages_of c.content)) [
    | inl none_there ↦ absurd (ground (arith, none_there))
    | inr (ms, em) ↦ elim (Option-cases (find_message id ms)) [
      | inl none_there ↦ absurd (ground (arith, em, none_there))
      | inr (i, ei) ↦ elim (Option-cases (get_merkle_proof sha256 s id)) [
        | inl no_proof ↦ absurd (ground (arith, e, em, ei, no_proof))
        | inr found ↦ found
      ]
    ]
  ]

  pub get_merkle_proof_complete :
      (s : Blockchain) (id : Str) (k : ℕ) (b : Block)
      → IsLocal sha256 false s
      → get_elem? s.chain k ≡ some b
      → holds id b ≡ true
      → (p : MerkleProof) × (get_merkle_proof sha256 s id ≡ some p) × IsProofOf sha256 s id p
  get_merkle_proof_complete s id k b l at has =
      let (c, f) = find_last_exists (holds id) k s.chain at has in
      let (at_c, _, has_c) = find_last_sound (holds id) 0 s.chain l.heights f in
      let (p, e) =
        proof_of_found s id c (message_block-found s id c l f (rw sub-zero at at_c)) has_c in
      (p, e, get_merkle_proof-IsProofOf sha256 s id l e)
