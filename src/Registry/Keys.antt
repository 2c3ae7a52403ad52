-- ===== src/Registry/Keys.antt =====
-- src/server/registry.py: every client of the registry stands under its own id.
use blockchain_messaging_pro.Common.{
  ℕ, ◌≡◌, refl, inl, inr, some, List, [], ◌∷◌, Str, arith, str_beq, str_beq_iff, str_eq, Bool-cases,
  Option-cases,
}
use blockchain_messaging_pro.Common.Dict
use blockchain_messaging_pro.Common.Dict.{Dict}
use blockchain_messaging_pro.Registry.{
  RegisteredClient, Registry, register, unregister, update_seen, set_port, is_expired, prune_loop,
  prune_expired,
}
use blockchain_messaging_pro.Registry.Expiry.{
  Step, registers, unregisters, sees, moves, prunes, Reach, start, later,
}

-- the key of every entry is the id of its client
abbrev pub HasKeys : Dict Str RegisteredClient → Type 0
HasKeys [] = Unit
HasKeys ((id, c) ∷ d) = (c.peer_id ≡ id) × HasKeys d

pub put-HasKeys :
    (d : Dict Str RegisteredClient) (id : Str) (c : RegisteredClient)
    → c.peer_id ≡ id
    → HasKeys d
    → HasKeys (Dict.put d id c)
unfolding Dict.put
put-HasKeys [] id c e h = (e, tt)
put-HasKeys ((j, b) ∷ d) id c e (f, h) = elim (Bool-cases (str_beq j id)) [
  | inl t ↦ rw (Dict.put, t) (ground (arith, str_beq_iff j id), h)
  | inr t ↦ rw (Dict.put, t) (f, put-HasKeys d id c e h)
]

remove-HasKeys : (d : Dict Str RegisteredClient) (id : Str) → HasKeys d → HasKeys (Dict.remove d id)
unfolding Dict.remove
remove-HasKeys [] id h = tt
remove-HasKeys ((j, b) ∷ d) id (f, h) = elim (Bool-cases (str_beq j id)) [
  | inl t ↦ rw (Dict.remove, t) (remove-HasKeys d id h)
  | inr t ↦ rw (Dict.remove, t) (f, remove-HasKeys d id h)
]

pub get-HasKeys :
    (d : Dict Str RegisteredClient) (id : Str) (c : RegisteredClient)
    → HasKeys d
    → Dict.get d id ≡ some c
    → c.peer_id ≡ id
unfolding Dict.get
get-HasKeys [] id c h found = ground arith
get-HasKeys ((j, b) ∷ d) id c (f, h) found = ground (arith, str_beq_iff j id, get-HasKeys d id c h)

prune_loop-HasKeys :
    (now expiry_time : ℕ) (items : List (Str × RegisteredClient)) (d : Dict Str RegisteredClient)
    → HasKeys d
    → HasKeys (prune_loop now expiry_time items d).0
unfolding prune_loop
prune_loop-HasKeys now expiry_time [] d h = h
prune_loop-HasKeys now expiry_time ((k, c) ∷ rest) d h =
    elim (Bool-cases (is_expired now expiry_time c)) [
      | inl t ↦
          rw (prune_loop, t)
            (prune_loop-HasKeys now expiry_time rest (Dict.remove d k) (remove-HasKeys d k h))
      | inr t ↦ rw (prune_loop, t) (prune_loop-HasKeys now expiry_time rest d h)
    ]

Step-HasKeys : {r r' : Registry} → Step r r' → HasKeys r.clients → HasKeys r'.clients
unfolding register unregister update_seen set_port prune_expired
Step-HasKeys {r} (registers now id name address port key encryption_key) h =
    put-HasKeys r.clients id _ refl h
Step-HasKeys {r} (unregisters id) h = elim (Bool-cases (Dict.contains r.clients id)) [
  | inl t ↦ rw (unregister, t) (remove-HasKeys r.clients id h)
  | inr t ↦ rw (unregister, t) h
]
Step-HasKeys {r} (sees now id) h = elim (Option-cases (Dict.get r.clients id)) [
  | inl t ↦ rw (update_seen, t) h
  | inr (c, t) ↦ rw (update_seen, t) (put-HasKeys r.clients id _ (get-HasKeys r.clients id c h t) h)
]
Step-HasKeys {r} (moves id port) h = elim (Option-cases (Dict.get r.clients id)) [
  | inl t ↦ rw (set_port, t) h
  | inr (c, t) ↦ rw (set_port, t) (put-HasKeys r.clients id _ (get-HasKeys r.clients id c h t) h)
]
Step-HasKeys {r} (prunes now) h = prune_loop-HasKeys now r.expiry_time r.clients r.clients h

pub Reach-HasKeys : {expiry_time : ℕ} {r : Registry} → Reach expiry_time r → HasKeys r.clients
Reach-HasKeys start = tt
Reach-HasKeys (later before step) = Step-HasKeys step (Reach-HasKeys before)
