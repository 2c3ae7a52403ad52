-- ===== src/Chain/Growth.antt =====
-- `mine_pending` extends a chain by one block and keeps the invariants of the chain.

use blockchain_messaging_pro.Common.{
  ℕ, ◌<◌, ◌≡◌, ◌≢◌, ◌⊎◌, inl, inr, refl, sym, ap, ◌∙◌, true, Option, none, some, List, [], ◌∷◌,
  ◌++◌, Str, Bytes, arith, length, get_last?, ok, map, subst, false, Error, err, Result,
  Option-cases, Result-cases,
}
use blockchain_messaging_pro.Json.{Fields, obj, get_field}
use blockchain_messaging_pro.Chain.Storage.{to_list-items}
use blockchain_messaging_pro.Chain.Mempool.{All}
use blockchain_messaging_pro.Chain.Entries.{IsHashable, IsReadable, index_block-eq, index_block-ok}
use blockchain_messaging_pro.Block.{Block, messages_of, has_work, new_block, mine, merkle_root_of}
use blockchain_messaging_pro.Block.Mining.{
  candidate, mine-IsMined, IsMined-of_mine, IsMined-IsSealed, IsMined-SameContent,
  new_block-IsSealed,
}
use blockchain_messaging_pro.Chain.State.{
  Blockchain, latest_block, select, block_content, unreadable, index_block,
}
use blockchain_messaging_pro.Chain.Methods.{
  append_block, add_mined, fresh_block, mine_selected, mine_pending,
}
use blockchain_messaging_pro.Chain.Links.{Follows}

module _ (sha256 : Bytes → Str) where
  -- the block that `mine_pending` mines and appends
  pub record IsExtension (now : Str) (s : Blockchain) (b : Block) : Type 0 where
    pub latest : Block
    pub is_latest : get_last? s.chain ≡ some latest
    pub follows : Follows sha256 s.difficulty latest b
    pub index : b.index ≡ length s.chain
    pub timestamp : b.timestamp ≡ now
    pub content : b.content ≡ block_content (select s.max_block_size 0 s.pending_data).0
    pub root : b.merkle_root ≡ merkle_root_of sha256 b.content
    pub not_empty : (select s.max_block_size 0 s.pending_data).0 ≢ []

  IsExtension-of :
      (fuel : ℕ) (now : Str) (s : Blockchain) (x : Fields) (xs rest : List Fields)
      (latest b : Block)
      → select s.max_block_size 0 s.pending_data ≡ (x ∷ xs, rest)
      → get_last? s.chain ≡ some latest
      → mine sha256 fuel s.difficulty (fresh_block sha256 s now (x ∷ xs) latest) ≡ some b
      → IsExtension now s b
  unfolding fresh_block new_block
  IsExtension-of fuel now s x xs rest latest b sel is_latest mined =
      let start = fresh_block sha256 s now (x ∷ xs) latest in
      let m = IsMined-of_mine sha256 fuel s.difficulty start b mined in
      let c = IsMined-SameContent sha256 m in
      record {
        latest = latest;
        is_latest = is_latest;
        follows = record {
          is_sealed =
              IsMined-IsSealed sha256 (new_block-IsSealed sha256 (length s.chain) now start) m;
          linked = c.previous_hash;
          work = m.work;
        };
        index = c.index;
        timestamp = c.timestamp;
        content = rw sel c.content;
        root = c.merkle_root ∙ ap (merkle_root_of sha256) (sym c.content);
        not_empty = rw sel (λ e. cc);
      }

  mine_selected_run :
      (fuel : ℕ) (now : Str) (s : Blockchain) (x : Fields) (xs rest : List Fields)
      (latest b : Block)
      → get_last? s.chain ≡ some latest
      → mine sha256 fuel s.difficulty (fresh_block sha256 s now (x ∷ xs) latest) ≡ some b
      → mine_selected sha256 fuel now s (x ∷ xs) rest ≡ add_mined sha256 s b rest
  unfolding mine_selected latest_block
  mine_selected_run fuel now s x xs rest latest b e m = rw (mine_selected, e, m) refl

  -- an empty mempool selects nothing
  pub mine_pending-selected :
      (fuel : ℕ) (now : Str) (s : Blockchain)
      → mine_pending sha256 fuel now s
        ≡ mine_selected sha256 fuel now s
            (select s.max_block_size 0 s.pending_data).0
            (select s.max_block_size 0 s.pending_data).1
  unfolding mine_pending mine_selected select
  mine_pending-selected fuel now s = go s.pending_data refl
    where
      go :
          (ds : List Fields)
          → s.pending_data ≡ ds
          → mine_pending sha256 fuel now s
            ≡ mine_selected sha256 fuel now s
                (select s.max_block_size 0 s.pending_data).0
                (select s.max_block_size 0 s.pending_data).1
      go [] e = ground (arith, e)
      go (d ∷ ds) e = ground (arith, e)

  -- what `mine_pending` does with a block: it is appended and indexed, and the pending data is what
  -- was left behind; where the indexing raises an exception, the pending data is not reduced
  pub data Appends (now : Str) (s : Blockchain) (r : Blockchain × Result (Option Block))
      : Type 0 where
    indexed :
        (b : Block)
        → IsExtension now s b
        → (append_block sha256 s b).1 ≡ ok tt
        → r ≡ (
          record (append_block sha256 s b).0 {
            pending_data = (select s.max_block_size 0 s.pending_data).1;
          },
          ok (some b),
        )
        → Appends now s r
    unindexed :
        (b : Block) (e : Error)
        → IsExtension now s b
        → (append_block sha256 s b).1 ≡ err e
        → r ≡ ((append_block sha256 s b).0, err e)
        → Appends now s r

  add_mined-done :
      (s : Blockchain) (b : Block) (rest : List Fields)
      → (append_block sha256 s b).1 ≡ ok tt
      → add_mined sha256 s b rest
        ≡ (record (append_block sha256 s b).0 { pending_data = rest }, ok (some b))
  unfolding add_mined
  add_mined-done s b rest e = rw (add_mined, e) refl

  add_mined-failed :
      (s : Blockchain) (b : Block) (rest : List Fields) (x : Error)
      → (append_block sha256 s b).1 ≡ err x
      → add_mined sha256 s b rest ≡ ((append_block sha256 s b).0, err x)
  unfolding add_mined
  add_mined-failed s b rest x e = rw (add_mined, e) refl

  items-IsHashable :
      (ds : List Fields) → All (λ d. IsHashable (obj d)) ds → All IsHashable (map obj ds)
  items-IsHashable [] h = tt
  items-IsHashable (d ∷ ds) h = (h.0, items-IsHashable ds h.1)

  block_content-IsReadable :
      (b : Block) (ds : List Fields)
      → b.content ≡ block_content ds
      → All (λ d. IsHashable (obj d)) ds
      → IsReadable b
  unfolding block_content unreadable messages_of get_field
  block_content-IsReadable b ds e h = record {
    readable = subst (λ x. unreadable x ≡ false) (sym e) refl;
    hashable =
        subst (λ x. All IsHashable (elim (messages_of x) [ none ↦ [] | some ms ↦ ms ])) (sym e)
          (subst (All IsHashable) (sym (to_list-items (map obj ds))) (items-IsHashable ds h));
  }

  -- If the chain has a latest block, some item fits into a block, none that fits has a list or a
  -- dictionary as its id, and the fuel reaches a nonce with enough work, `mine_pending` returns a new
  -- block that extends the chain and is indexed, and the pending data is what was left behind.
  pub mine_pending_total :
      (fuel k : ℕ) (now : Str) (s : Blockchain) (latest : Block) (x : Fields)
      (xs rest : List Fields)
      → get_last? s.chain ≡ some latest
      → select s.max_block_size 0 s.pending_data ≡ (x ∷ xs, rest)
      → All (λ d. IsHashable (obj d)) (x ∷ xs)
      → k < fuel
      → has_work s.difficulty (candidate sha256 k (fresh_block sha256 s now (x ∷ xs) latest)).hash
        ≡ true
      → (b : Block) × IsExtension now s b
        × ((append_block sha256 s b).1 ≡ ok tt)
        × (mine_pending sha256 fuel now s
            ≡ (record (append_block sha256 s b).0 { pending_data = rest }, ok (some b)))
  unfolding append_block
  mine_pending_total fuel k now s latest x xs rest e sel hashable lt work =
      let (b, mined, _) =
        mine-IsMined sha256 fuel s.difficulty k (fresh_block sha256 s now (x ∷ xs) latest) lt
          work in
      let run = mine_selected_run fuel now s x xs rest latest b e mined in
      let ext = IsExtension-of fuel now s x xs rest latest b sel e mined in
      let content = ext.content ∙ ap (λ r. block_content r.0) sel in
      let done : (append_block sha256 s b).1 ≡ ok tt =
        ap (λ r. r.1)
          (index_block-eq s.indexes b (block_content-IsReadable b (x ∷ xs) content hashable)) in
      (b, ext, done, mine_pending-selected fuel now s ∙ rw sel (run ∙ add_mined-done s b rest done))

  IsHashable-items :
      (ds : List Fields) → All IsHashable (map obj ds) → All (λ d. IsHashable (obj d)) ds
  IsHashable-items [] h = tt
  IsHashable-items (d ∷ ds) h = (h.0, IsHashable-items ds h.1)

  content-IsHashable :
      (b : Block) (ds : List Fields)
      → b.content ≡ block_content ds
      → IsReadable b
      → All (λ d. IsHashable (obj d)) ds
  unfolding block_content messages_of get_field
  content-IsHashable b ds e h = IsHashable-items ds (
      subst (All IsHashable) (to_list-items (map obj ds)) (
        subst (λ x. All IsHashable (elim (messages_of x) [ none ↦ [] | some ms ↦ ms ])) e
          h.hashable))

  -- If the chain has a latest block, some item fits into a block, one of those that fit has a list
  -- or a dictionary as its id, and the fuel reaches a nonce with enough work, `mine_pending` raises
  -- an exception with a new block appended to the chain, and the pending data is not reduced.
  pub mine_pending_unhashable :
      (fuel k : ℕ) (now : Str) (s : Blockchain) (latest : Block) (x : Fields)
      (xs rest : List Fields)
      → get_last? s.chain ≡ some latest
      → select s.max_block_size 0 s.pending_data ≡ (x ∷ xs, rest)
      → ¬ (All (λ d. IsHashable (obj d)) (x ∷ xs))
      → k < fuel
      → has_work s.difficulty (candidate sha256 k (fresh_block sha256 s now (x ∷ xs) latest)).hash
        ≡ true
      → (b : Block) × (e : Error) × IsExtension now s b
        × (mine_pending sha256 fuel now s ≡ (
          record s { chain = s.chain ++ (b ∷ []); indexes = (index_block s.indexes b).0 },
          err e,
        ))
  unfolding append_block
  mine_pending_unhashable fuel k now s latest x xs rest e sel unhashed lt work =
      let (b, mined, _) =
        mine-IsMined sha256 fuel s.difficulty k (fresh_block sha256 s now (x ∷ xs) latest) lt
          work in
      let run = mine_selected_run fuel now s x xs rest latest b e mined in
      let ext = IsExtension-of fuel now s x xs rest latest b sel e mined in
      let content = ext.content ∙ ap (λ r. block_content r.0) sel in
      elim (Result-cases (append_block sha256 s b).1) [
        | inl (done, f) ↦
            absurd (unhashed (content-IsHashable b (x ∷ xs) content (index_block-ok s.indexes b f)))
        | inr (y, f) ↦ (
          b,
          y,
          ext,
          mine_pending-selected fuel now s ∙ rw sel (run ∙ add_mined-failed s b rest y f),
        )
      ]

  -- Either `mine_pending` leaves everything as it is and mines no block, or it appends one.
  pub mine_pending_cases :
      (fuel : ℕ) (now : Str) (s : Blockchain)
      → ((mine_pending sha256 fuel now s).0 ≡ s) ⊎ Appends now s (mine_pending sha256 fuel now s)
  unfolding mine_selected latest_block
  mine_pending_cases fuel now s =
      go (select s.max_block_size 0 s.pending_data).0 (select s.max_block_size 0 s.pending_data).1
        refl (mine_pending-selected fuel now s)
    where
      go :
          (taken rest : List Fields)
          → select s.max_block_size 0 s.pending_data ≡ (taken, rest)
          → mine_pending sha256 fuel now s ≡ mine_selected sha256 fuel now s taken rest
          → ((mine_pending sha256 fuel now s).0 ≡ s)
            ⊎ Appends now s (mine_pending sha256 fuel now s)
      go [] rest sel k = inl (ap (λ r. r.0) k)
      go (x ∷ xs) rest sel k = elim (Option-cases (get_last? s.chain)) [
        | inl none_there ↦ inl (ap (λ r. r.0) k ∙ rw (mine_selected, none_there) refl)
        | inr (latest, is_latest) ↦
            let start = fresh_block sha256 s now (x ∷ xs) latest in
            elim (Option-cases (mine sha256 fuel s.difficulty start)) [
              | inl out ↦ inl (ap (λ r. r.0) k ∙ rw (mine_selected, is_latest, out) refl)
              | inr (b, mined) ↦
                  let ext = IsExtension-of fuel now s x xs rest latest b sel is_latest mined in
                  let run = k ∙ mine_selected_run fuel now s x xs rest latest b is_latest mined in
                  elim (Result-cases (append_block sha256 s b).1) [
                    | inl (done, e) ↦ inr (
                        indexed b ext e (
                          run
                          ∙ add_mined-done s b rest e
                          ∙ ap
                              (λ (r : List Fields). (
                                record (append_block sha256 s b).0 { pending_data = r },
                                ok (some b),
                              ))
                              (ap (λ r. r.1) (sym sel))))
                    | inr (x, e) ↦ inr (unindexed b x ext e (run ∙ add_mined-failed s b rest x e))
                  ]
            ]
      ]
