-- ===== src/Chain/Index.antt =====
-- The three indexes against the chain that they index.
use blockchain_messaging_pro.Common.{
  ℕ, zero, suc, ◌+◌, ◌<◌, ◌≤◌, ◌≡◌, refl, ap, ◌∙◌, sym, Bool, Option, none, some, List, [], ◌∷◌,
  ◌++◌, Str, Bytes, arith, length, get_elem?, str_beq, if◌then◌else◌, str_eq, nat_eq,
  get_elem?_of_length-le, ok,
}
use native.Mathlib.Nat.{add-zero, zero-add}
use native.Mathlib.Decide.{dec_lt}
use blockchain_messaging_pro.Common.Dict
use blockchain_messaging_pro.Common.Dict.{get-put}
use blockchain_messaging_pro.Block.{Block}
use blockchain_messaging_pro.Chain.State.{
  Blockchain, Indexes, no_indexes, index_blocks, get_block_by_hash, get_block_by_height,
}
use blockchain_messaging_pro.Chain.Entries.{
  indexed_block, indexed_chain, IsReadable, index_block-eq, index_block-ok, index_blocks-eq,
  index_blocks-ok,
}
use blockchain_messaging_pro.Chain.Mempool.{All, All-append}
use blockchain_messaging_pro.Chain.Methods.{append_block}

-- The indexes are those of the chain: building them raises nothing and gives these.
abbrev pub IsIndexed : Blockchain → Type 0
IsIndexed s = index_blocks no_indexes s.chain ≡ (s.indexes, ok tt)

pub IsIndexed-IsReadable : (s : Blockchain) → IsIndexed s → All IsReadable s.chain
IsIndexed-IsReadable s h = index_blocks-ok no_indexes s.chain (ap (λ r. r.1) h)

pub IsIndexed-indexes :
    (s : Blockchain) → IsIndexed s → s.indexes ≡ indexed_chain no_indexes s.chain
IsIndexed-indexes s h =
    ap (λ r. r.0) (sym h ∙ index_blocks-eq no_indexes s.chain (IsIndexed-IsReadable s h))

pub indexed_chain-append :
    (ix : Indexes) (xs ys : List Block)
    → indexed_chain ix (xs ++ ys) ≡ indexed_chain (indexed_chain ix xs) ys
unfolding indexed_chain
indexed_chain-append ix [] ys = refl
indexed_chain-append ix (x ∷ xs) ys = indexed_chain-append (indexed_block ix x) xs ys

-- Indexing one more block, if it raises nothing, is the same as rebuilding.
pub append_block-IsIndexed :
    (sha256 : Bytes → Str) (s : Blockchain) (b : Block)
    → IsIndexed s
    → (append_block sha256 s b).1 ≡ ok tt
    → IsIndexed (append_block sha256 s b).0
unfolding append_block indexed_chain
append_block-IsIndexed sha256 s b h raised =
    let good = index_block-ok s.indexes b raised in
    let all = All-append IsReadable s.chain (b ∷ []) (IsIndexed-IsReadable s h) (good, tt) in
    index_blocks-eq no_indexes (s.chain ++ (b ∷ [])) all
    ∙ ap (λ ix. (ix, ok tt))
        (indexed_chain-append no_indexes s.chain (b ∷ [])
          ∙ ap (λ ix. indexed_block ix b) (sym (IsIndexed-indexes s h))
          ∙ ap (λ r. r.0) (sym (index_block-eq s.indexes b good)))

-- the last block of a list that passes a test
unfoldable pub find_last : (Block → Bool) → List Block → Option Block
find_last p [] = none
find_last p (b ∷ bs) = elim (find_last p bs) [
  | some c ↦ some c
  | none ↦ if p b then some b else none
]

by_hash-indexed_chain :
    (h : Str) (bs : List Block) (ix : Indexes)
    → Dict.get (indexed_chain ix bs).by_hash h ≡ elim (find_last (λ b. str_beq b.hash h) bs) [
      | some c ↦ some c
      | none ↦ Dict.get ix.by_hash h
    ]
unfolding indexed_chain indexed_block find_last
by_hash-indexed_chain h [] ix = refl
by_hash-indexed_chain h (b ∷ bs) ix =
    ground (arith, by_hash-indexed_chain h bs (indexed_block ix b), get-put ix.by_hash b.hash h b)

-- If the indexes are those of the blocks, the lookup by hash finds the last block of the chain
-- with that hash, and none if there is none.
pub get_block_by_hash-find_last :
    (s : Blockchain) (h : Str)
    → IsIndexed s
    → get_block_by_hash s h ≡ find_last (λ b. str_beq b.hash h) s.chain
unfolding get_block_by_hash Dict.get
get_block_by_hash-find_last s h e =
    rw (IsIndexed-indexes s e) (ground (arith, by_hash-indexed_chain h s.chain no_indexes))

-- the block at each position carries the position as its index
abbrev pub HasHeights : ℕ → List Block → Type 0
HasHeights n [] = Unit
HasHeights n (b ∷ bs) = (b.index ≡ n) × HasHeights (suc n) bs

pub HasHeights-append :
    (n : ℕ) (bs : List Block) (b : Block)
    → HasHeights n bs
    → b.index ≡ n + length bs
    → HasHeights n (bs ++ (b ∷ []))
HasHeights-append n [] b h e = (omega arith, tt)
HasHeights-append n (c ∷ bs) b h e = (h.0, HasHeights-append (suc n) bs b h.1 (omega arith))

-- a lookup below the first height of a list is left to the older index
by_height-low :
    (k n : ℕ) (bs : List Block) (ix : Indexes)
    → HasHeights n bs
    → k < n
    → Dict.get (indexed_chain ix bs).by_height k ≡ Dict.get ix.by_height k
unfolding indexed_chain indexed_block
by_height-low k n [] ix h lt = refl
by_height-low k n (b ∷ bs) ix h lt =
    ground
      (arith, by_height-low k (suc n) bs (indexed_block ix b), get-put ix.by_height b.index k b)

add-suc_left : (n i : ℕ) → n + suc i ≡ suc n + i
add-suc_left n i = omega arith

by_height-indexed_chain :
    (i n : ℕ) (bs : List Block) (ix : Indexes)
    → HasHeights n bs
    → i < length bs
    → Dict.get (indexed_chain ix bs).by_height (n + i) ≡ get_elem? bs i
unfolding indexed_chain indexed_block
by_height-indexed_chain i n [] ix h lt = absurd (omega arith)
by_height-indexed_chain zero n (b ∷ bs) ix h lt = ground (
  arith,
  by_height-low n (suc n) bs (indexed_block ix b),
  get-put ix.by_height b.index n b,
  ap (λ k. Dict.get (indexed_chain (indexed_block ix b) bs).by_height k) (add-zero n),
)
by_height-indexed_chain (suc i) n (b ∷ bs) ix h lt =
    ap (λ k. Dict.get (indexed_chain (indexed_block ix b) bs).by_height k) (add-suc_left n i)
    ∙ by_height-indexed_chain i (suc n) bs (indexed_block ix b) h.1 (omega arith)

by_height-none :
    (k n : ℕ) (bs : List Block) (ix : Indexes)
    → HasHeights n bs
    → n + length bs ≤ k
    → Dict.get (indexed_chain ix bs).by_height k ≡ Dict.get ix.by_height k
unfolding indexed_chain indexed_block
by_height-none k n [] ix h le = refl
by_height-none k n (b ∷ bs) ix h le =
    ground
      (arith, by_height-none k (suc n) bs (indexed_block ix b), get-put ix.by_height b.index k b)

-- If the indexes are those of the blocks and each block carries its position as its index, the
-- lookup by height finds the block at that position, and none beyond the chain.
pub get_block_by_height-get_elem? :
    (s : Blockchain) (k : ℕ)
    → IsIndexed s
    → HasHeights 0 s.chain
    → get_block_by_height s k ≡ get_elem? s.chain k
unfolding get_block_by_height Dict.get
get_block_by_height-get_elem? s k e h = elim (dec_lt k (length s.chain)) [
  | yes lt ↦
      rw (IsIndexed-indexes s e)
        (rw zero-add at (by_height-indexed_chain k 0 s.chain no_indexes h lt))
  | no ge ↦
      rw (IsIndexed-indexes s e, get_elem?_of_length-le s.chain k (omega arith))
        (by_height-none k 0 s.chain no_indexes h (omega arith))
]
