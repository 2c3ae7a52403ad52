-- ===== src/Chain/Mempool.antt =====
-- The mempool: what `add_data` accepts, and how `mine_pending` selects.
use mathlib.Core.List.Perm
use mathlib.Core.List.{Perm, perm_middle}
use blockchain_messaging_pro.Common.{
  ℕ, ◌+◌, ◌≤◌, ◌<◌, ◌≡◌, ◌↔◌, true, false, List, [], ◌∷◌, ◌++◌, arith, length, length-append, leb,
  Bool-cases, inl, inr,
}
use blockchain_messaging_pro.Json.{Fields}
use blockchain_messaging_pro.Chain.State.{
  Blockchain, max_single_item_size, item_size, rejects, add_data, select,
}

-- what a piece of data needs to enter the mempool
pub record IsAcceptable (s : Blockchain) (d : Fields) : Type 0 where
  pub room : length s.pending_data < s.max_pending
  pub small : item_size d ≤ max_single_item_size
  pub wanted : rejects s.validator d ≡ false

-- `add_data` returns true exactly if there is room in the mempool, the text of the data is at most
-- 100,000 long and the validator, if there is one, accepts it; then the data is the last pending
-- item and nothing else changes, and otherwise nothing changes at all.
pub add_data_lem :
    (s : Blockchain) (d : Fields)
    → (((add_data s d).1 ≡ true) ↔ IsAcceptable s d)
      × ((add_data s d).1 ≡ true
          → (add_data s d).0 ≡ record s { pending_data = s.pending_data ++ (d ∷ []) })
      × ((add_data s d).1 ≡ false → (add_data s d).0 ≡ s)
unfolding add_data
add_data_lem s d = ((λ h. ground arith, λ h. ground arith), λ h. ground arith, λ h. ground arith)

abbrev pub All {ℓ κ} : {A : Type ℓ} → (A → Type κ) → List A → Type κ
All P [] = Unit
All P (x ∷ xs) = P x × All P xs

pub All-append {ℓ κ} :
    {A : Type ℓ} (P : A → Type κ) (xs ys : List A) → All P xs → All P ys → All P (xs ++ ys)
All-append P [] ys h k = k
All-append P (x ∷ xs) ys h k = (h.0, All-append P xs ys h.1 k)

pub All-imp {ℓ κ} :
    {A : Type ℓ} (P Q : A → Type κ) (xs : List A) → ((x : A) → P x → Q x) → All P xs → All Q xs
All-imp P Q [] f h = tt
All-imp P Q (x ∷ xs) f h = (f x h.0, All-imp P Q xs f h.1)

abbrev pub IsSmall : Fields → Type 0
IsSmall d = item_size d ≤ max_single_item_size

-- the limits on the mempool
pub record IsBounded (s : Blockchain) : Type 0 where
  pub count : length s.pending_data ≤ s.max_pending
  pub sizes : All IsSmall s.pending_data

-- `add_data` keeps the mempool within its limits.
pub add_data-IsBounded : (s : Blockchain) (d : Fields) → IsBounded s → IsBounded (add_data s d).0
add_data-IsBounded s d b = elim (Bool-cases (add_data s d).1) [
  | inl accepted ↦
      let ok_data = (add_data_lem s d).0.0 accepted in
      rw ((add_data_lem s d).1 accepted) (record {
        count = omega (arith, ok_data.room, length-append s.pending_data (d ∷ []));
        sizes = All-append IsSmall s.pending_data (d ∷ []) b.sizes (ok_data.small, tt);
      })
  | inr refused ↦ rw ((add_data_lem s d).2 refused) b
]

abbrev pub total_size : List Fields → ℕ
total_size [] = 0
total_size (d ∷ ds) = item_size d + total_size ds

-- the items left behind do not fit on top of what was taken before
pub record IsSelection (max_size current : ℕ) (ds taken rest : List Fields) : Type 0 where
  pub perm : Perm (taken ++ rest) ds
  pub fits : current ≤ max_size → current + total_size taken ≤ max_size
  pub full : All (λ d. max_size < current + total_size taken + item_size d) rest
  pub count : length taken + length rest ≡ length ds
  pub small : All IsSmall ds → All IsSmall rest

IsSelection-taken :
    (m c : ℕ) (d : Fields) (ds taken rest : List Fields)
    → c + item_size d ≤ m
    → IsSelection m (c + item_size d) ds taken rest
    → IsSelection m c (d ∷ ds) (d ∷ taken) rest
IsSelection-taken m c d ds taken rest le h = record {
  perm = Perm.cons d h.perm;
  fits = λ k. omega (arith, h.fits le);
  full = All-imp _ _ rest (λ x lt. omega (arith, lt)) h.full;
  count = omega (arith, h.count);
  small = λ k. h.small k.1;
}

IsSelection-left :
    (m c : ℕ) (d : Fields) (ds taken rest : List Fields)
    → m < c + item_size d
    → IsSelection m c ds taken rest
    → IsSelection m c (d ∷ ds) taken (d ∷ rest)
IsSelection-left m c d ds taken rest lt h = record {
  perm = Perm.trans (perm_middle taken rest) (Perm.cons d h.perm);
  fits = h.fits;
  full = (omega arith, h.full);
  count = omega (arith, h.count);
  small = λ k. (k.0, h.small k.1);
}

-- The selection of `mine_pending` rearranges the pending items into those that are taken, which
-- keep within the size limit if the size so far does, and those left behind, none of which would
-- fit on top of the taken ones; no item is lost, and small items stay small.
pub select-IsSelection :
    (max_size current : ℕ) (ds : List Fields)
    → let (taken, rest) = select max_size current ds in IsSelection max_size current ds taken rest
unfolding select
select-IsSelection m c [] = record {
  perm = Perm.refl [];
  fits = λ h. omega arith;
  full = tt;
  count = omega arith;
  small = λ h. tt;
}
select-IsSelection m c (d ∷ ds) = elim (Bool-cases (leb (c + item_size d) m)) [
  | inl fits ↦
      rw (fits, select)
        (IsSelection-taken m c d ds _ _ (ground arith) (select-IsSelection m (c + item_size d) ds))
  | inr big ↦
      rw (big, select) (IsSelection-left m c d ds _ _ (ground arith) (select-IsSelection m c ds))
]
