-- ===== src/Chain/Proofs.antt =====
-- Merkle proofs of a chain: each one verifies, and each recorded message has one.
use mathlib.Core.List.{map-map}
use blockchain_messaging_pro.Common.{
  ℕ, zero, suc, ◌+◌, ◌<◌, ◌≡◌, refl, sym, ap, ◌∙◌, subst, true, false, some, List, [], ◌∷◌, map,
  Str, Bytes, arith, length, get_elem?, get_or, length-map, str_beq_iff, str_eq, nat_eq,
  Option-cases, inl, inr, some-injective,
}
use blockchain_messaging_pro.Common.Dict
use blockchain_messaging_pro.Common.Dict.{Dict, get-put}
use blockchain_messaging_pro.Json.{Json, Fields}
use blockchain_messaging_pro.Merkle.{
  MerkleProof, build_tree, calculate_merkle_root, build_path, climb, verify,
}
use blockchain_messaging_pro.Merkle.Verify.{climb-build_path}
use blockchain_messaging_pro.Block.{Block, messages_of, message_bytes, merkle_root_of}
use blockchain_messaging_pro.Chain.State.{
  Blockchain, find_message, get_message_block, get_block_by_height,
}
use blockchain_messaging_pro.Chain.Methods.{get_merkle_proof}
use blockchain_messaging_pro.Chain.Index.{HasHeights, get_block_by_height-get_elem?}
use blockchain_messaging_pro.Chain.Mempool.{All}
use blockchain_messaging_pro.Chain.Runs.{HasRoot, IsLocal, IsLocal-IsIndexed}

find_message-lt : (id : Str) (ms : List Json) (i : ℕ) → find_message id ms ≡ some i → i < length ms
unfolding find_message
find_message-lt id [] i h = cc
find_message-lt id (m ∷ ms) i h = elim (Option-cases (find_message id ms)) [
  | inl none_there ↦ ground (arith, none_there)
  | inr (j, e) ↦ ground (arith, e, find_message-lt id ms j e)
]

All-get_elem? {ℓ κ} :
    {A : Type ℓ} (P : A → Type κ) (xs : List A) (i : ℕ) {a : A}
    → All P xs
    → get_elem? xs i ≡ some a
    → P a
All-get_elem? P [] i h e = absurd (cc)
All-get_elem? P (x ∷ xs) zero h e = subst P (some-injective e) h.0
All-get_elem? P (x ∷ xs) (suc i) h e = All-get_elem? P xs i h.1 e

HasHeights-get_elem? :
    (n i : ℕ) (bs : List Block) {b : Block}
    → HasHeights n bs
    → get_elem? bs i ≡ some b
    → b.index ≡ n + i
HasHeights-get_elem? n i [] h e = cc
HasHeights-get_elem? n zero (c ∷ bs) h e =
    omega (arith, h.0, ap (λ (t : Block). t.index) (some-injective e))
HasHeights-get_elem? n (suc i) (c ∷ bs) h e = omega (arith, HasHeights-get_elem? (suc n) i bs h.1 e)

module _ (sha256 : Bytes → Str) where
  -- the path of a message leads to the root that the block's constructor computes
  climb-messages :
      (content : Fields) (ms : List Json) (i : ℕ)
      → messages_of content ≡ some ms
      → i < length ms
      → let hashes = map (λ m. sha256 (message_bytes m)) ms in
        climb sha256 (get_or hashes i []) (build_path sha256 (length hashes) hashes i [])
        ≡ merkle_root_of sha256 content
  unfolding merkle_root_of calculate_merkle_root climb
  climb-messages content [] i e h = absurd (omega arith)
  climb-messages content (m ∷ ms) i e h =
      let hashes = map (λ n. sha256 (message_bytes n)) (m ∷ ms) in
      let same = length-map (λ n. sha256 (message_bytes n)) (m ∷ ms) in
      rw (e, merkle_root_of)
        (climb-build_path sha256 (length hashes) hashes i (get_or hashes i []) []
            (omega (arith, h, same)) (omega arith) refl
          ∙ ap (λ t. get_or (build_tree sha256 (length t) t) 0 [])
              (sym (map-map sha256 message_bytes (m ∷ ms))))

  -- what a proof of a chain says
  pub record IsProofOf (s : Blockchain) (id : Str) (p : MerkleProof) : Type 0 where
    pub block : Block
    pub at : get_elem? s.chain p.block_height ≡ some block
    pub block_hash : p.block_hash ≡ block.hash
    pub root : p.merkle_root ≡ block.merkle_root
    pub verified : verify sha256 p ≡ true

  proof_of_block :
      (b : Block) (ms : List Json) (i : ℕ)
      → HasRoot sha256 b
      → messages_of b.content ≡ some ms
      → i < length ms
      → verify sha256 (record {
        block_hash = b.hash;
        block_height = b.index;
        data_hash = get_or (map (λ m. sha256 (message_bytes m)) ms) i [];
        merkle_root = b.merkle_root;
        proof_path =
            build_path sha256
              (length (map (λ m. sha256 (message_bytes m)) ms))
              (map (λ m. sha256 (message_bytes m)) ms)
              i
              [];
      })
        ≡ true
  unfolding verify
  proof_of_block b ms i root e lt =
      (str_beq_iff _ b.merkle_root).1 (climb-messages b.content ms i e lt ∙ sym root)

  message_block-at :
      (s : Blockchain) (id : Str) (b : Block)
      → IsLocal sha256 false s
      → get_message_block s id ≡ some b
      → get_elem? s.chain b.index ≡ some b
  unfolding get_message_block
  message_block-at s id b l h = elim (Option-cases (Dict.get s.indexes.by_message id)) [
    | inl none_there ↦ absurd (ground (arith, none_there))
    | inr (k, e) ↦
        let at : get_elem? s.chain k ≡ some b =
          sym (get_block_by_height-get_elem? s k (IsLocal-IsIndexed sha256 l) l.heights)
          ∙ unfold get_block_by_height in ground (arith, e) in
        subst (λ n. get_elem? s.chain n ≡ some b)
          (omega (arith, HasHeights-get_elem? 0 k s.chain l.heights at)) at
  ]

  -- On a chain that is linked and indexed, with heights and Merkle roots of its own, every proof
  -- that `get_merkle_proof` returns is about a block of the chain, carries its hash and root, and
  -- verifies.
  pub get_merkle_proof-IsProofOf :
      (s : Blockchain) (id : Str) {p : MerkleProof}
      → IsLocal sha256 false s
      → get_merkle_proof sha256 s id ≡ some p
      → IsProofOf s id p
  unfolding get_merkle_proof
  get_merkle_proof-IsProofOf s id {p = p} l h = elim (Option-cases (get_message_block s id)) [
    | inl none_there ↦ absurd (ground (arith, none_there))
    | inr (b, eb) ↦ elim (Option-cases (messages_of b.content)) [
      | inl none_there ↦ absurd (ground (arith, eb, none_there))
      | inr (ms, em) ↦ elim (Option-cases (find_message id ms)) [
        | inl none_there ↦ absurd (ground (arith, eb, em, none_there))
        | inr (i, ei) ↦
            let at = message_block-at s id b l eb in
            subst (IsProofOf s id) (some-injective (rw (eb, em, ei, get_merkle_proof) at h))
              (record {
                block = b;
                at = at;
                block_hash = refl;
                root = refl;
                verified =
                    proof_of_block b ms i
                      (All-get_elem? (HasRoot sha256) s.chain b.index l.roots at) em
                      (find_message-lt id ms i ei);
              })
      ]
    ]
  ]
