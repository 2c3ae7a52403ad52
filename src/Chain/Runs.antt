-- ===== src/Chain/Runs.antt =====
-- The invariants of a chain, and that every sequence of operations keeps them.
use blockchain_messaging_pro.Common.{
  ℕ, ◌≡◌, ◌⊎◌, inl, inr, refl, sym, ap, ◌∙◌, subst, Bool, true, false, ◌||◌, Option, none, some,
  List, [], ◌∷◌, ◌++◌, Str, Bytes, arith, length, Result, ok, err, ◌>>=◌, expect, out_of_fuel,
  >>=-eq-ok, expect-eq-ok, ok-injective, Bool-cases, replicate,
}
use blockchain_messaging_pro.Json.{Fields, get_field}
use blockchain_messaging_pro.Block.{Block, messages_of, merkle_root_of, new_block, mine}
use blockchain_messaging_pro.Block.Mining.{IsMined-of_mine, IsMined-SameContent}
use blockchain_messaging_pro.Chain.State.{
  Blockchain, add_data, no_indexes, index_blocks, unreadable, genesis_content, select,
}
use blockchain_messaging_pro.Chain.Entries.{IsReadable, IsHashable, index_block-eq}
use blockchain_messaging_pro.Chain.Methods.{append_block, init, mine_pending, replace_chain}
use blockchain_messaging_pro.Chain.Links.{IsChain, IsChain-append}
use blockchain_messaging_pro.Chain.Index.{
  IsIndexed, append_block-IsIndexed, HasHeights, HasHeights-append,
}
use blockchain_messaging_pro.Chain.Mempool.{
  All, All-append, IsBounded, add_data_lem, add_data-IsBounded, select-IsSelection,
}
use blockchain_messaging_pro.Chain.Replacement.{Replaced, replace_chain_lem}
use blockchain_messaging_pro.Chain.Growth.{
  IsExtension, Appends, indexed, unindexed, mine_pending_cases,
}

-- the call raised an exception
unfoldable pub raises {ℓ} : {A : Type ℓ} → Result A → Bool
raises (ok a) = false
raises (err e) = true

or-left : (r q : Bool) → r ≡ true → (r || q) ≡ true
or-left true q e = refl
or-left false q e = absurd (ground (arith, e))

or-true : (r : Bool) → (r || true) ≡ true
or-true true = refl
or-true false = refl

or-false : (r : Bool) → (r || false) ≡ r
or-false true = refl
or-false false = refl

module _ (sha256 : Bytes → Str) where
  -- What every operation keeps, the adoption of a foreign chain included. `raised` says whether
  -- some operation has raised an exception, which may leave indexes of only some blocks.
  pub record IsValid (raised : Bool) (s : Blockchain) : Type 0 where
    pub links : IsChain sha256 s.difficulty s.chain
    pub entries : (raised ≡ true) ⊎ IsIndexed s
    pub bounded : IsBounded s

  abbrev pub HasRoot : Block → Type 0
  HasRoot b = b.merkle_root ≡ merkle_root_of sha256 b.content

  -- what holds besides as long as all blocks are the node's own
  pub record IsLocal (raised : Bool) (s : Blockchain) : Type 0 where
    pub valid : IsValid raised s
    pub heights : HasHeights 0 s.chain
    pub roots : All HasRoot s.chain

  -- where nothing has raised, the indexes are those of the blocks
  pub IsLocal-IsIndexed : {s : Blockchain} → IsLocal false s → IsIndexed s
  IsLocal-IsIndexed l = elim l.valid.entries [ inl e ↦ absurd (ground (arith, e)) | inr i ↦ i ]

  selection-IsBounded :
      (s : Blockchain)
      → IsBounded s
      → IsBounded (record s { pending_data = (select s.max_block_size 0 s.pending_data).1 })
  selection-IsBounded s b =
      let h = select-IsSelection s.max_block_size 0 s.pending_data in
      record { count = omega (arith, h.count, b.count); sizes = h.small b.sizes }

  Appends-IsValid :
      {now : Str} {r : Bool} {s : Blockchain} {p : Blockchain × Result (Option Block)}
      → Appends sha256 now s p
      → IsValid r s
      → IsValid (r || raises p.1) p.0
  unfolding append_block raises
  Appends-IsValid {r = r} {s = s} (indexed b x done e) v =
      subst (λ p. IsValid (r || raises p.1) p.0) (sym e)
        (record {
          links =
              IsChain-append sha256 s.difficulty s.chain x.latest b v.links x.is_latest x.follows;
          entries = elim v.entries [
            | inl raised ↦ inl (or-left r false raised)
            | inr i ↦ inr (append_block-IsIndexed sha256 s b i done)
          ];
          bounded =
              let c = selection-IsBounded s v.bounded in
              record { count = c.count; sizes = c.sizes };
        })
  Appends-IsValid {r = r} {s = s} (unindexed b x ext raised e) v =
      subst (λ p. IsValid (r || raises p.1) p.0) (sym e)
        (record {
          links =
              IsChain-append sha256 s.difficulty s.chain ext.latest b v.links ext.is_latest
                ext.follows;
          entries = inl (or-true r);
          bounded = record { count = v.bounded.count; sizes = v.bounded.sizes };
        })

  -- the blocks of the chain after `mine_pending` has appended one
  appended :
      {now : Str} {s : Blockchain} {p : Blockchain × Result (Option Block)}
      → Appends sha256 now s p
      → (b : Block) × IsExtension sha256 now s b × (p.0.chain ≡ s.chain ++ (b ∷ []))
  unfolding append_block
  appended (indexed b x done e) = (b, x, ap (λ p. p.0.chain) e)
  appended (unindexed b x ext raised e) = (b, ext, ap (λ p. p.0.chain) e)

  later-IsValid : (r q : Bool) {s : Blockchain} → IsValid r s → IsValid (r || q) s
  later-IsValid r q v = record {
    links = v.links;
    entries = elim v.entries [ inl e ↦ inl (or-left r q e) | inr i ↦ inr i ];
    bounded = v.bounded;
  }

  -- Whatever `mine_pending` does, it keeps the invariants.
  pub mine_pending-IsValid :
      (fuel : ℕ) (now : Str) (r : Bool) (s : Blockchain)
      → let p = mine_pending sha256 fuel now s in IsValid r s → IsValid (r || raises p.1) p.0
  mine_pending-IsValid fuel now r s v = elim (mine_pending_cases sha256 fuel now s) [
    | inl same ↦
        subst (IsValid (r || raises (mine_pending sha256 fuel now s).1)) (sym same)
          (later-IsValid r (raises (mine_pending sha256 fuel now s).1) v)
    | inr a ↦ Appends-IsValid a v
  ]

  pub mine_pending-IsLocal :
      (fuel : ℕ) (now : Str) (r : Bool) (s : Blockchain)
      → let p = mine_pending sha256 fuel now s in IsLocal r s → IsLocal (r || raises p.1) p.0
  mine_pending-IsLocal fuel now r s l =
      let v = mine_pending-IsValid fuel now r s l.valid in
      elim (mine_pending_cases sha256 fuel now s) [
        | inl same ↦ record {
          valid = v;
          heights = subst (λ (t : Blockchain). HasHeights 0 t.chain) (sym same) l.heights;
          roots = subst (λ (t : Blockchain). All HasRoot t.chain) (sym same) l.roots;
        }
        | inr a ↦
            let (b, x, e) = appended a in
            record {
              valid = v;
              heights =
                  subst (HasHeights 0) (sym e)
                    (HasHeights-append 0 s.chain b l.heights (omega (arith, x.index)));
              roots =
                  subst (All HasRoot) (sym e)
                    (All-append HasRoot s.chain (b ∷ []) l.roots (x.root, tt));
            }
      ]

  add_data-IsValid :
      (r : Bool) (s : Blockchain) (d : Fields) → IsValid r s → IsValid r (add_data s d).0
  unfolding add_data
  add_data-IsValid r s d v = elim (Bool-cases (add_data s d).1) [
    | inl accepted ↦
        let e = (add_data_lem s d).1 accepted in
        record {
          links = rw e v.links;
          entries = rw e v.entries;
          bounded = add_data-IsBounded s d v.bounded;
        }
    | inr refused ↦ rw ((add_data_lem s d).2 refused) v
  ]

  add_data-IsLocal :
      (r : Bool) (s : Blockchain) (d : Fields) → IsLocal r s → IsLocal r (add_data s d).0
  add_data-IsLocal r s d l = elim (Bool-cases (add_data s d).1) [
    | inl accepted ↦
        let e = (add_data_lem s d).1 accepted in
        record {
          valid = add_data-IsValid r s d l.valid;
          heights = rw e l.heights;
          roots = rw e l.roots;
        }
    | inr refused ↦ rw ((add_data_lem s d).2 refused) l
  ]

  genesis-IsReadable : (b : Block) → b.content ≡ genesis_content → IsReadable b
  unfolding unreadable messages_of get_field
  genesis-IsReadable b e = record {
    readable = subst (λ x. unreadable x ≡ false) (sym e) refl;
    hashable =
        subst (λ x. All IsHashable (elim (messages_of x) [ none ↦ [] | some ms ↦ ms ])) (sym e) tt;
  }

  -- A chain that the constructor returns has one block, is linked and indexed, has a mempool
  -- within its limits, and its block carries its position and its own Merkle root.
  pub init-IsLocal :
      (fuel : ℕ) (now : Str) (difficulty : ℕ) (validator : Option (Fields → Bool)) (size count : ℕ)
      {s : Blockchain}
      → init sha256 fuel now difficulty validator size count ≡ ok s
      → IsLocal false s × (length s.chain ≡ 1)
  unfolding init append_block new_block index_blocks
  init-IsLocal fuel now d validator size count h =
      let start = new_block sha256 0 now genesis_content (replicate 64 b'0') 0 in
      let (g, mined, done) = >>=-eq-ok (expect out_of_fuel (mine sha256 fuel d start)) _ h in
      let c =
        IsMined-SameContent sha256
          (IsMined-of_mine sha256 fuel d start g (expect-eq-ok out_of_fuel _ mined)) in
      let empty : Blockchain = record {
        difficulty = d;
        validator = validator;
        max_block_size = size;
        max_pending = count;
        chain = [];
        pending_data = [];
        indexes = no_indexes;
      } in
      let indexes : (append_block sha256 empty g).1 ≡ ok tt =
        ap (λ r. r.1) (index_block-eq no_indexes g (genesis-IsReadable g c.content)) in
      let same =
        ok-injective
          (ap (λ r. r >>= λ x. ok (append_block sha256 empty g).0) (sym indexes) ∙ done) in
      (
        subst (IsLocal false) same (record {
          valid = record {
            links = tt;
            entries = inr (append_block-IsIndexed sha256 empty g refl indexes);
            bounded = record { count = omega arith; sizes = tt };
          };
          heights = (c.index, tt);
          roots = (c.merkle_root ∙ ap (merkle_root_of sha256) (sym c.content), tt);
        }),
        ap (λ (t : Blockchain). length t.chain) (sym same),
      )

  Replaced-IsValid :
      (r : Bool) (s : Blockchain) (bs : List Block) {p : Blockchain × Result Bool}
      → Replaced sha256 s bs p
      → IsValid r s
      → IsValid (r || raises p.1) p.0
  unfolding raises
  Replaced-IsValid r s bs (inl (_, e)) v =
      subst (λ p. IsValid (r || raises p.1) p.0) (sym e) (later-IsValid r false v)
  Replaced-IsValid r s bs (inr (inl (linked, _, i, e))) v =
      subst (λ p. IsValid (r || raises p.1) p.0) (sym e)
        (record {
          links = linked;
          entries = inr i;
          bounded = record { count = v.bounded.count; sizes = v.bounded.sizes };
        })
  Replaced-IsValid r s bs (inr (inr (linked, _, _, x, e))) v =
      subst (λ p. IsValid (r || raises p.1) p.0) (sym e)
        (record {
          links = linked;
          entries = inl (or-true r);
          bounded = record { count = v.bounded.count; sizes = v.bounded.sizes };
        })

  -- one operation of the class that changes the state, with whether it raises an exception
  pub data Step : Blockchain → Bool → Blockchain → Type 0 where
    add : {s : Blockchain} (d : Fields) → Step s false (add_data s d).0
    mined :
        {s : Blockchain} (fuel : ℕ) (now : Str)
        → Step s (raises (mine_pending sha256 fuel now s).1) (mine_pending sha256 fuel now s).0

  -- any operations, and whether one of them has raised an exception
  pub data Reach (s : Blockchain) : Bool → Blockchain → Type 0 where
    here : Reach s false s
    next : {r q : Bool} {t u : Blockchain} → Reach s r t → Step t q u → Reach s (r || q) u
    -- a chain from another node
    adopt :
        {r : Bool} {t : Blockchain} (bs : List Block)
        → Reach s r t
        → Reach s (r || raises (replace_chain sha256 t bs).1) (replace_chain sha256 t bs).0

  pub data Grows (s : Blockchain) : Bool → Blockchain → Type 0 where
    start : Grows s false s
    step : {r q : Bool} {t u : Blockchain} → Grows s r t → Step t q u → Grows s (r || q) u

  Step-IsValid :
      {s t : Blockchain} {q : Bool} (r : Bool) → Step s q t → IsValid r s → IsValid (r || q) t
  Step-IsValid r (add {s = s} d) v = later-IsValid r false (add_data-IsValid r s d v)
  Step-IsValid r (mined {s = s} fuel now) v = mine_pending-IsValid fuel now r s v

  Step-IsLocal :
      {s t : Blockchain} {q : Bool} (r : Bool) → Step s q t → IsLocal r s → IsLocal (r || q) t
  Step-IsLocal r (add {s = s} d) l =
      subst (λ r. IsLocal r (add_data s d).0) (sym (or-false r)) (add_data-IsLocal r s d l)
  Step-IsLocal r (mined {s = s} fuel now) l = mine_pending-IsLocal fuel now r s l

  -- From a chain that is linked, has the indexes of its blocks and a mempool within its limits,
  -- whatever data is added, mined or adopted from other nodes, in any order and also after an
  -- operation has raised an exception: the chain stays linked and the mempool within its limits,
  -- and as long as no operation has raised an exception, the indexes are those of the blocks.
  pub Reach-IsValid : {s t : Blockchain} {r : Bool} → IsValid false s → Reach s r t → IsValid r t
  Reach-IsValid v here = v
  Reach-IsValid v (next {r = r} p st) = Step-IsValid r st (Reach-IsValid v p)
  Reach-IsValid v (adopt {r = r} {t = t} bs p) =
      Replaced-IsValid r t bs (replace_chain_lem sha256 t bs) (Reach-IsValid v p)

  -- If besides every block carries its position as its index and the Merkle root of its own
  -- messages, and data is only added and mined, all this holds, the indexes again as long as no
  -- operation has raised an exception.
  pub Grows-IsLocal : {s t : Blockchain} {r : Bool} → IsLocal false s → Grows s r t → IsLocal r t
  Grows-IsLocal l start = l
  Grows-IsLocal l (step {r = r} p st) = Step-IsLocal r st (Grows-IsLocal l p)
