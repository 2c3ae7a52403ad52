-- ===== src/Common/Dict.antt =====
-- Python's `dict` as an association list in insertion order.
use mathlib.Core.Path.{◌≡◌, refl}
use mathlib.Core.Bool.{Bool, true, false}
use mathlib.Core.Option.{Option, none, some}
use mathlib.Core.List.{List, [], ◌∷◌, map}
use native.Mathlib.Omega.{arith}
use blockchain_messaging_pro.Common.Tests.{HasEq, ◌==◌, if◌then◌else◌, Bool-cases}
use mathlib.Core.Logic.{inl, inr}
use Prim.Native.Nat.{suc}
use blockchain_messaging_pro.Common.Lists.{length}

abbrev pub Dict {ℓ κ} : Type ℓ → Type κ → Type (ℓ ⊔ κ)
Dict K V = List (K × V)

module _ {ℓ κ} {K : Type ℓ} {V : Type κ} where
  abbrev pub keys : Dict K V → List K
  keys = map (λ e. e.0)

  abbrev pub values : Dict K V → List V
  values = map (λ e. e.1)

module _ {ℓ κ} {K : Type ℓ} {V : Type κ} ⦃e : HasEq K⦄ where
  -- `d.get(k)`
  unfoldable pub get : Dict K V → K → Option V
  get [] k = none
  get ((j, v) ∷ d) k = if j == k then some v else get d k

  -- `k in d`
  unfoldable pub contains : Dict K V → K → Bool
  contains [] k = false
  contains ((j, v) ∷ d) k = if j == k then true else contains d k

  -- `d[k] = v`: a present key keeps its place
  unfoldable pub put : Dict K V → K → V → Dict K V
  put [] k v = (k, v) ∷ []
  put ((j, w) ∷ d) k v = if j == k then (j, v) ∷ d else (j, w) ∷ put d k v

  -- `d.pop(k, None)`, `del d[k]` of a present key
  unfoldable pub remove : Dict K V → K → Dict K V
  remove [] k = []
  remove ((j, v) ∷ d) k = let rest = remove d k in if j == k then rest else (j, v) ∷ rest

  pub get-put :
      (d : Dict K V) (k j : K) (v : V) → get (put d k v) j ≡ (if k == j then some v else get d j)
  unfolding get put
  get-put [] k j v = refl
  get-put ((i, w) ∷ d) k j v =
      ground (arith, e.eqb_iff k j, e.eqb_iff i k, e.eqb_iff i j, get-put d k j v)

  pub get-remove :
      (d : Dict K V) (k j : K) → get (remove d k) j ≡ (if k == j then none else get d j)
  unfolding get remove
  get-remove [] k j = ground arith
  get-remove ((i, w) ∷ d) k j =
      ground (arith, e.eqb_iff k j, e.eqb_iff i k, e.eqb_iff i j, get-remove d k j)

  pub get-put_same : (d : Dict K V) (k : K) (v : V) → get (put d k v) k ≡ some v
  get-put_same d k v = ground (arith, get-put d k k v, e.eqb_iff k k)

  pub get-remove_same : (d : Dict K V) (k : K) → get (remove d k) k ≡ none
  get-remove_same d k = ground (arith, get-remove d k k, e.eqb_iff k k)

  pub contains-eq-get :
      (d : Dict K V) (k : K) → contains d k ≡ elim (get d k) [ none ↦ false | some v ↦ true ]
  unfolding get contains
  contains-eq-get [] k = refl
  contains-eq-get ((i, w) ∷ d) k = ground (arith, contains-eq-get d k)

  -- A new key is one entry more.
  pub length-put :
      (d : Dict K V) (k : K) (v : V) → contains d k ≡ false → length (put d k v) ≡ suc (length d)
  unfolding put contains
  length-put [] k v h = refl
  length-put ((j, w) ∷ d) k v h = ground (arith, length-put d k v)

pub beq_refl {ℓ} : {K : Type ℓ} ⦃e : HasEq K⦄ (k : K) → (k == k) ≡ true
beq_refl ⦃e⦄ k = (e.eqb_iff k k).1 refl

pub ruleset dict_laws = (get-put, get-remove, beq_refl)

module _ {ℓ κ} {K : Type ℓ} {V : Type κ} ⦃e : HasEq K⦄ where
  -- no key stands twice
  abbrev pub IsUnique : Dict K V → Type 0
  IsUnique [] = Unit
  IsUnique ((k, v) ∷ d) = (contains d k ≡ false) × IsUnique d

  contains-put :
      (d : Dict K V) (k j : K) (v : V)
      → contains (put d k v) j ≡ (if k == j then true else contains d j)
  contains-put d k j v =
      ground (arith, contains-eq-get (put d k v) j, contains-eq-get d j, get-put d k j v)

  pub contains-remove :
      (d : Dict K V) (k j : K) → contains (remove d k) j ≡ (if k == j then false else contains d j)
  contains-remove d k j =
      ground (arith, contains-eq-get (remove d k) j, contains-eq-get d j, get-remove d k j)

  pub put-IsUnique : (d : Dict K V) (k : K) (v : V) → IsUnique d → IsUnique (put d k v)
  unfolding put contains
  put-IsUnique [] k v u = (refl, tt)
  put-IsUnique ((j, w) ∷ d) k v (fresh, u) = elim (Bool-cases (j == k)) [
    | inl h ↦ rw (put, h) (fresh, u)
    | inr h ↦
        rw (put, h)
          (ground (arith, contains-put d k j v, e.eqb_iff k j, e.eqb_iff j k), put-IsUnique d k v u)
  ]

  pub remove-IsUnique : (d : Dict K V) (k : K) → IsUnique d → IsUnique (remove d k)
  unfolding remove
  remove-IsUnique [] k u = tt
  remove-IsUnique ((j, w) ∷ d) k (fresh, u) = elim (Bool-cases (j == k)) [
    | inl h ↦ rw (remove, h) (remove-IsUnique d k u)
    | inr h ↦ rw (remove, h) (ground (arith, contains-remove d k j), remove-IsUnique d k u)
  ]
