-- ===== src/Chain/Entries.antt =====
-- The indexes of blocks that can be indexed, and which blocks these are.
use blockchain_messaging_pro.Common.{
  ℕ, ◌≡◌, refl, ap, ◌∙◌, false, none, some, List, [], ◌∷◌, Str, Result, ok, err, Bool-cases,
  Result-cases, inl, inr, arith, str_eq, nat_eq,
}
use blockchain_messaging_pro.Common.Dict
use blockchain_messaging_pro.Common.Dict.{Dict}
use blockchain_messaging_pro.Json.{Json}
use blockchain_messaging_pro.Block.{Block}
use blockchain_messaging_pro.Chain.Mempool.{All}
use blockchain_messaging_pro.Chain.State.{
  Indexes, message_id, messages_or_none, unhashable, unreadable, index_messages, index_content,
  index_block, index_blocks,
}

unfoldable pub indexed_messages : ℕ → List Json → Dict Str ℕ → Dict Str ℕ
indexed_messages height [] d = d
indexed_messages height (m ∷ ms) d =
    indexed_messages height ms (elim (message_id m) [ none ↦ d | some k ↦ Dict.put d k height ])

unfoldable pub indexed_block : Indexes → Block → Indexes
indexed_block ix b = record {
  by_hash = Dict.put ix.by_hash b.hash b;
  by_height = Dict.put ix.by_height b.index b;
  by_message = indexed_messages b.index (messages_or_none b) ix.by_message;
}

unfoldable pub indexed_chain : Indexes → List Block → Indexes
indexed_chain ix [] = ix
indexed_chain ix (b ∷ bs) = indexed_chain (indexed_block ix b) bs

abbrev pub IsHashable : Json → Type 0
IsHashable m = unhashable m ≡ false

-- The messages can be iterated, and none has an id that cannot be a key.
pub record IsReadable (b : Block) : Type 0 where
  pub readable : unreadable b.content ≡ false
  pub hashable : All IsHashable (messages_or_none b)

index_messages-eq :
    (k : ℕ) (ms : List Json) (d : Dict Str ℕ)
    → All IsHashable ms
    → index_messages k ms d ≡ (indexed_messages k ms d, ok tt)
unfolding index_messages indexed_messages
index_messages-eq k [] d h = refl
index_messages-eq k (m ∷ ms) d h = rw (index_messages, h.0) (index_messages-eq k ms _ h.1)

index_messages-ok :
    (k : ℕ) (ms : List Json) (d : Dict Str ℕ)
    → (index_messages k ms d).1 ≡ ok tt
    → All IsHashable ms
unfolding index_messages
index_messages-ok k [] d h = tt
index_messages-ok k (m ∷ ms) d h = elim (Bool-cases (unhashable m)) [
  | inl e ↦ absurd (ground (arith, e))
  | inr e ↦ (
    e,
    index_messages-ok k ms (elim (message_id m) [ none ↦ d | some i ↦ Dict.put d i k ])
        (ground (arith, e)),
  )
]

pub index_block-eq :
    (ix : Indexes) (b : Block) → IsReadable b → index_block ix b ≡ (indexed_block ix b, ok tt)
unfolding index_block indexed_block index_content
index_block-eq ix b h =
    let e : index_content b ix.by_message
        ≡ (indexed_messages b.index (messages_or_none b) ix.by_message, ok tt) =
      rw (index_content, h.readable)
        (index_messages-eq b.index (messages_or_none b) ix.by_message h.hashable) in
    ap
      (λ r. (
        record {
          by_hash = Dict.put ix.by_hash b.hash b;
          by_height = Dict.put ix.by_height b.index b;
          by_message = r.0;
        },
        r.1,
      ))
      e

index_content-ok : (b : Block) (d : Dict Str ℕ) → (index_content b d).1 ≡ ok tt → IsReadable b
unfolding index_content
index_content-ok b d h = elim (Bool-cases (unreadable b.content)) [
  | inl e ↦ absurd (ground (arith, e))
  | inr e ↦ record {
    readable = e;
    hashable = index_messages-ok b.index (messages_or_none b) d (ground (arith, e));
  }
]

pub index_block-ok : (ix : Indexes) (b : Block) → (index_block ix b).1 ≡ ok tt → IsReadable b
unfolding index_block
index_block-ok ix b h = index_content-ok b ix.by_message h

pub index_blocks-eq :
    (ix : Indexes) (bs : List Block)
    → All IsReadable bs
    → index_blocks ix bs ≡ (indexed_chain ix bs, ok tt)
unfolding index_blocks indexed_chain
index_blocks-eq ix [] h = refl
index_blocks-eq ix (b ∷ bs) h =
    ap
      (λ r.
        let rest : Indexes × Result (Unit {0}) = elim r.1 [
          | ok done ↦ index_blocks r.0 bs
          | err e ↦ (r.0, err e)
        ] in
        rest)
      (index_block-eq ix b h.0)
    ∙ index_blocks-eq (indexed_block ix b) bs h.1

-- Indexing raises nothing exactly if every block can be indexed.
pub index_blocks-ok :
    (ix : Indexes) (bs : List Block) → (index_blocks ix bs).1 ≡ ok tt → All IsReadable bs
unfolding index_blocks
index_blocks-ok ix [] h = tt
index_blocks-ok ix (b ∷ bs) h = elim (Result-cases (index_block ix b).1) [
  | inl (done, e) ↦
      (index_block-ok ix b e, index_blocks-ok (index_block ix b).0 bs (ground (arith, e)))
  | inr (x, e) ↦ absurd (ground (arith, e))
]
