-- ===== src/Pool/Waiting.antt =====
-- src/network/pool.py: a full pool, and the task that evicts a connection of it.
use blockchain_messaging_pro.Common.{
  ℕ, ◌≡◌, ◌≢◌, refl, sym, ap, ◌∙◌, inl, inr, Bool, true, none, some, leb, nat_beq, nat_beq_iff,
  if◌then◌else◌, Bool-cases,
}
use blockchain_messaging_pro.Pool.{
  ConnectionPool, PooledConnection, size, try_reuse, evict_choice, touch_in, new_connection,
}
use blockchain_messaging_pro.Pool.Tasks.{
  Request, Stage, away, wanting, evicting, connecting, adding, closing, served, System, moved,
  look_up, looked_up, Step, asks, looks, evicts, connects, fails_to_connect, adds, starts_closing,
  closes, releases, pops, clears, leaves, Reach, here, next,
}

-- Task `n` holds the lock and waits in `_close_connection` for it.
pub record IsStuck (n : ℕ) (r : Request) (c : PooledConnection) (p : ConnectionPool) (s : System)
    : Type 0 where
  pub held : s.lock ≡ some n
  pub waits : s.stage n ≡ evicting r c
  pub created : s.pool.total_created ≡ p.total_created

moved-other :
    (stage : ℕ → Stage) (m n : ℕ) (later old : Stage)
    → stage m ≡ old
    → (old ≢ stage n)
    → moved stage m later n ≡ stage n
unfolding moved
moved-other stage m n later old e differs = elim (Bool-cases (nat_beq n m)) [
  | inl h ↦ absurd (differs (sym e ∙ ap stage (sym ((nat_beq_iff n m).0 h))))
  | inr h ↦ rw (moved, h) refl
]

module _ (n : ℕ) (r : Request) (c : PooledConnection) (p : ConnectionPool) where
  -- a step of a task at another stage, which leaves the lock and the pool alone
  elsewhere :
      (s : System) (m : ℕ) (later old : Stage)
      → IsStuck n r c p s
      → s.stage m ≡ old
      → old ≢ evicting r c
      → IsStuck n r c p (record s { stage = moved s.stage m later })
  elsewhere s m later old h e differs = record {
    held = h.held;
    waits = moved-other s.stage m n later old e (λ same. differs (same ∙ h.waits)) ∙ h.waits;
    created = h.created;
  }

  locked : (s : System) → IsStuck n r c p s → s.lock ≢ none
  locked s h e = let both = sym h.held ∙ e in cc

  Step-IsStuck : {s t : System} → Step s t → IsStuck n r c p s → IsStuck n r c p t
  unfolding touch_in
  Step-IsStuck {s = s} (asks m q e) h = elsewhere s m (wanting q) away h e (λ x. cc)
  Step-IsStuck {s = s} (looks m q open_now now e free) h = absurd (locked s h free)
  Step-IsStuck {s = s} (evicts m q d e free) h = absurd (locked s h free)
  Step-IsStuck {s = s} (connects m q websocket now e) h =
      elsewhere s m (adding (new_connection now q.peer_id websocket q.address q.port))
        (connecting q) h e (λ x. cc)
  Step-IsStuck {s = s} (fails_to_connect m q e) h =
      elsewhere s m (served none) (connecting q) h e (λ x. cc)
  Step-IsStuck {s = s} (adds m d e free) h = absurd (locked s h free)
  Step-IsStuck {s = s} (starts_closing m d e) h = elsewhere s m (closing d) away h e (λ x. cc)
  Step-IsStuck {s = s} (closes m d e free) h = absurd (locked s h free)
  Step-IsStuck {s = s} (releases m d now e f) h = record {
    held = h.held;
    waits = h.waits;
    created = h.created;
  }
  Step-IsStuck {s = s} (pops m id e free) h = absurd (locked s h free)
  Step-IsStuck {s = s} (clears m e free) h = absurd (locked s h free)
  Step-IsStuck {s = s} (leaves m d e) h = elsewhere s m away (served d) h e (λ x. cc)

  Reach-IsStuck : {s t : System} → IsStuck n r c p s → Reach s t → IsStuck n r c p t
  Reach-IsStuck h here = h
  Reach-IsStuck h (next reach step) = Step-IsStuck step (Reach-IsStuck h reach)

moved_here : (stage : ℕ → Stage) (n : ℕ) (later : Stage) → moved stage n later n ≡ later
unfolding moved
moved_here stage n later = rw (moved, (nat_beq_iff n n).1 refl) refl

look_up_evicts :
    (open_now : ℕ → Bool) (now : ℕ) (p : ConnectionPool) (r : Request) (c : PooledConnection)
    → (try_reuse open_now now p r.peer_id).1 ≡ none
    → leb
        (try_reuse open_now now p r.peer_id).0.max_connections
        (size (try_reuse open_now now p r.peer_id).0)
      ≡ true
    → evict_choice now (try_reuse open_now now p r.peer_id).0 ≡ some c
    → look_up open_now now p r ≡ ((try_reuse open_now now p r.peer_id).0, evicting r c, true)
unfolding look_up
look_up_evicts open_now now p r c missing full choice = rw (look_up, missing, full, choice) refl

-- the lookup of a full pool with an idle connection
looked_up-IsStuck :
    (s : System) (n : ℕ) (r : Request) (c : PooledConnection) (open_now : ℕ → Bool) (now : ℕ)
    → (try_reuse open_now now s.pool r.peer_id).1 ≡ none
    → let p = (try_reuse open_now now s.pool r.peer_id).0 in
      leb p.max_connections (size p) ≡ true
      → evict_choice now p ≡ some c
      → IsStuck n r c p (looked_up open_now now s n r)
unfolding looked_up
looked_up-IsStuck s n r c open_now now missing full choice =
    let found = look_up_evicts open_now now s.pool r c missing full choice in
    record {
      held = ap (λ x. if x.2 then some n else none) found;
      waits = moved_here s.stage n (look_up open_now now s.pool r).1 ∙ ap (λ x. x.1) found;
      created = ap (λ x. x.0.total_created) found;
    }

-- When `get_connection` finds no connection to use again, the pool is full and some connection of it
-- is idle, the task waits for ever for the lock it holds: after every further sequence of steps of
-- all tasks, none of them cancelled, the lock is still held, the task still waits to evict, and no new
-- connection has come into the pool.
pub eviction_waits :
    (s t : System) (n : ℕ) (r : Request) (c : PooledConnection) (open_now : ℕ → Bool) (now : ℕ)
    → (try_reuse open_now now s.pool r.peer_id).1 ≡ none
    → leb
        (try_reuse open_now now s.pool r.peer_id).0.max_connections
        (size (try_reuse open_now now s.pool r.peer_id).0)
      ≡ true
    → evict_choice now (try_reuse open_now now s.pool r.peer_id).0 ≡ some c
    → Reach (looked_up open_now now s n r) t
    → (t.lock ≡ some n)
      × (t.stage n ≡ evicting r c)
      × (t.pool.total_created ≡ (try_reuse open_now now s.pool r.peer_id).0.total_created)
eviction_waits s t n r c open_now now missing full choice reach =
    let p = (try_reuse open_now now s.pool r.peer_id).0 in
    let h =
      Reach-IsStuck n r c p (looked_up-IsStuck s n r c open_now now missing full choice) reach in
    (h.held, h.waits, h.created)
