-- ===== src/Registry/Expiry.antt =====
-- The directory keeps one entry per client, and pruning removes the expired ones only.
use blockchain_messaging_pro.Common.{
  ℕ, ◌≡◌, refl, Bool, true, false, Option, none, some, List, [], ◌∷◌, Str, Bytes, arith, str_beq,
  str_beq_iff, str_eq, if◌then◌else◌, Bool-cases, Option-cases, inl, inr,
}
use blockchain_messaging_pro.Common.Dict
use blockchain_messaging_pro.Common.Dict.{
  Dict, get-put, get-remove, contains-eq-get, IsUnique, put-IsUnique, remove-IsUnique,
}
use blockchain_messaging_pro.Registry.{
  empty_registry, RegisteredClient, Registry, register, unregister, update_seen, set_port, get,
  is_expired, prune_loop, prune_expired,
}

-- an item of the list with the key that has expired
expired_in : ℕ → ℕ → List (Str × RegisteredClient) → Str → Bool
expired_in now expiry_time [] id = false
expired_in now expiry_time ((k, c) ∷ rest) id =
    if is_expired now expiry_time c
    then (if str_beq k id then true else expired_in now expiry_time rest id)
    else expired_in now expiry_time rest id

get-prune_loop :
    (now expiry_time : ℕ) (items : List (Str × RegisteredClient)) (d : Dict Str RegisteredClient)
    (id : Str)
    → Dict.get ((prune_loop now expiry_time items d).0) id
      ≡ (if expired_in now expiry_time items id then none else Dict.get d id)
unfolding prune_loop expired_in
get-prune_loop now expiry_time [] d id = refl
get-prune_loop now expiry_time ((k, c) ∷ rest) d id = ground (
  arith,
  get-prune_loop now expiry_time rest d id,
  get-prune_loop now expiry_time rest (Dict.remove d k) id,
  get-remove d k id,
)

expired_in-get :
    (now expiry_time : ℕ) (d : Dict Str RegisteredClient) (id : Str)
    → IsUnique d
    → expired_in now expiry_time d id
      ≡ elim (Dict.get d id) [ none ↦ false | some c ↦ is_expired now expiry_time c ]
unfolding expired_in Dict.get
expired_in-get now expiry_time [] id u = refl
expired_in-get now expiry_time ((k, c) ∷ d) id (fresh, u) =
    ground (arith, expired_in-get now expiry_time d id u, str_beq_iff k id, contains-eq-get d k)

-- If no client stands twice in the registry, a lookup after `prune_expired` finds exactly the
-- clients that were there and whose last sign is not older than the expiry time.
pub get-prune_expired :
    (r : Registry) (now : ℕ) (id : Str)
    → IsUnique r.clients
    → get (prune_expired r now).0 id ≡ elim (get r id) [
      | none ↦ none
      | some c ↦ if is_expired now r.expiry_time c then none else some c
    ]
unfolding get prune_expired
get-prune_expired r now id u = ground (
  arith,
  get-prune_loop now r.expiry_time r.clients r.clients id,
  expired_in-get now r.expiry_time r.clients id u,
)

prune_loop-IsUnique :
    (now expiry_time : ℕ) (items : List (Str × RegisteredClient)) (d : Dict Str RegisteredClient)
    → IsUnique d
    → IsUnique ((prune_loop now expiry_time items d).0)
unfolding prune_loop
prune_loop-IsUnique now expiry_time [] d u = u
prune_loop-IsUnique now expiry_time ((k, c) ∷ rest) d u =
    elim (Bool-cases (is_expired now expiry_time c)) [
      | inl h ↦
          rw (prune_loop, h)
            (prune_loop-IsUnique now expiry_time rest (Dict.remove d k) (remove-IsUnique d k u))
      | inr h ↦ rw (prune_loop, h) (prune_loop-IsUnique now expiry_time rest d u)
    ]

-- the calls of `Registry` that change it, and the port that `RegistryServer` sets in a client
pub data Step : Registry → Registry → Type 0 where
  registers :
      {r : Registry} (now : ℕ) (id : Str) (name : Option Str) (address : Str) (port : ℕ)
      (key encryption_key : Bytes)
      → Step r ((register r now id name address port key encryption_key).0)
  unregisters : {r : Registry} (id : Str) → Step r ((unregister r id).0)
  sees : {r : Registry} (now : ℕ) (id : Str) → Step r ((update_seen r now id).0)
  moves : {r : Registry} (id : Str) (port : ℕ) → Step r (set_port r id port)
  prunes : {r : Registry} (now : ℕ) → Step r ((prune_expired r now).0)

Step-IsUnique : {r r' : Registry} → Step r r' → IsUnique r.clients → IsUnique r'.clients
unfolding register unregister update_seen set_port prune_expired
Step-IsUnique {r} (registers now id name address port key encryption_key) u =
    put-IsUnique r.clients id _ u
Step-IsUnique {r} (unregisters id) u = elim (Bool-cases (Dict.contains r.clients id)) [
  | inl h ↦ rw (unregister, h) (remove-IsUnique r.clients id u)
  | inr h ↦ rw (unregister, h) u
]
Step-IsUnique {r} (sees now id) u = elim (Option-cases (Dict.get r.clients id)) [
  | inl h ↦ rw (update_seen, h) u
  | inr (c, h) ↦ rw (update_seen, h) (put-IsUnique r.clients id _ u)
]
Step-IsUnique {r} (moves id port) u = elim (Option-cases (Dict.get r.clients id)) [
  | inl h ↦ rw (set_port, h) u
  | inr (c, h) ↦ rw (set_port, h) (put-IsUnique r.clients id _ u)
]
Step-IsUnique {r} (prunes now) u = prune_loop-IsUnique now r.expiry_time r.clients r.clients u

-- the registries that the calls can reach
pub data Reach (expiry_time : ℕ) : Registry → Type 0 where
  start : Reach expiry_time (empty_registry expiry_time)
  later : {r r' : Registry} → Reach expiry_time r → Step r r' → Reach expiry_time r'

-- In every registry that calls of `register`, `unregister`, `update_seen` and `prune_expired` and
-- changes of a client's port reach from an empty one, no client stands twice.
pub Reach-IsUnique : {expiry_time : ℕ} {r : Registry} → Reach expiry_time r → IsUnique r.clients
Reach-IsUnique start = tt
Reach-IsUnique (later before step) = Step-IsUnique step (Reach-IsUnique before)
