-- ===== src/Pool/Tasks.antt =====
-- src/network/pool.py: the tasks that use one pool at the same time. A task runs without a break from
-- one await to the next. `async with self._lock` takes the lock if it is free, and the lock is not
-- reentrant: `_close_connection` awaits it for `_evict_one` too. No task is cancelled. `cleanup` only
-- reads the pool under the lock, and the connections it closes are closed one by one, like those of
-- `close_peer_connections`.
use blockchain_messaging_pro.Common.{
  ℕ, ◌≡◌, Bool, true, false, Option, none, some, Str, leb, nat_beq, if◌then◌else◌,
}
use blockchain_messaging_pro.Pool.{
  ConnectionPool, PooledConnection, size, try_reuse, evict_choice, has_room, add_connection,
  new_connection, forget, closes_on_release, touch_in, pop_peer, clear,
}

-- what a caller asks for
pub record Request : Type 0 where
  pub peer_id : Str
  pub address : Str
  pub port : ℕ

-- where a task stands
pub data Stage : Type 0 where
  -- outside the pool
  away : Stage
  -- `get_connection` before its first lock
  wanting : Request → Stage
  -- `_evict_one`, under the lock of `get_connection`, while the WebSocket closes and then before the
  -- lock of `_close_connection`
  evicting : Request → PooledConnection → Stage
  -- `get_connection` without the lock, while `connect` runs
  connecting : Request → Stage
  -- `get_connection` with a new connection, before its second lock
  adding : PooledConnection → Stage
  -- `_close_connection` of another method, before its lock
  closing : PooledConnection → Stage
  -- `get_connection` with its result
  served : Option PooledConnection → Stage

pub record System : Type 0 where
  pub pool : ConnectionPool
  pub lock : Option ℕ
  pub stage : ℕ → Stage

-- task `n` comes to another stage
unfoldable pub moved : (ℕ → Stage) → ℕ → Stage → ℕ → Stage
moved stage n here m = if nat_beq m n then here else stage m

-- the test of the peer's limit, and what comes after the lock is released
unfoldable pub room_stage : ConnectionPool → Request → Stage
room_stage p r = if has_room p r.peer_id then connecting r else served none

-- `get_connection` from its first lock to its next await or to the release of the lock: the pool,
-- the stage, and whether the lock is still held
unfoldable pub look_up : (ℕ → Bool) → ℕ → ConnectionPool → Request → ConnectionPool × Stage × Bool
look_up open_now now p r =
    let (p', found) = try_reuse open_now now p r.peer_id in
    elim found [
      | some c ↦ (p', served (some c), false)
      | none ↦ elim (leb p'.max_connections (size p')) [
        | false ↦ (p', room_stage p' r, false)
        | true ↦ elim (evict_choice now p') [
          | none ↦ (p', room_stage p' r, false)
          | some oldest ↦ (p', evicting r oldest, true)
        ]
      ]
    ]

-- the system after task `n` has taken the lock and looked up
unfoldable pub looked_up : (ℕ → Bool) → ℕ → System → ℕ → Request → System
looked_up open_now now s n r =
    let (p, here, held) = look_up open_now now s.pool r in
    record { pool = p; lock = if held then some n else none; stage = moved s.stage n here }

-- One task runs up to its next await. Steps that take the lock want it free.
pub data Step (s : System) : System → Type 0 where
  asks :
      (n : ℕ) (r : Request)
      → s.stage n ≡ away
      → Step s (record s { stage = moved s.stage n (wanting r) })
  looks :
      (n : ℕ) (r : Request) (open_now : ℕ → Bool) (now : ℕ)
      → s.stage n ≡ wanting r
      → s.lock ≡ none
      → Step s (looked_up open_now now s n r)
  evicts :
      (n : ℕ) (r : Request) (c : PooledConnection)
      → s.stage n ≡ evicting r c
      → s.lock ≡ none
      → Step s (record {
        pool = forget s.pool c;
        lock = none;
        stage = moved s.stage n (room_stage (forget s.pool c) r);
      })
  connects :
      (n : ℕ) (r : Request) (websocket now : ℕ)
      → s.stage n ≡ connecting r
      → Step s (record s {
        stage = moved s.stage n (adding (new_connection now r.peer_id websocket r.address r.port));
      })
  fails_to_connect :
      (n : ℕ) (r : Request)
      → s.stage n ≡ connecting r
      → Step s (record s { stage = moved s.stage n (served none) })
  adds :
      (n : ℕ) (c : PooledConnection)
      → s.stage n ≡ adding c
      → s.lock ≡ none
      → Step s
          (record s { pool = add_connection s.pool c; stage = moved s.stage n (served (some c)) })
  starts_closing :
      (n : ℕ) (c : PooledConnection)
      → s.stage n ≡ away
      → Step s (record s { stage = moved s.stage n (closing c) })
  closes :
      (n : ℕ) (c : PooledConnection)
      → s.stage n ≡ closing c
      → s.lock ≡ none
      → Step s (record s { pool = forget s.pool c; stage = moved s.stage n away })
  -- `release_connection` that closes nothing, without the lock
  releases :
      (n : ℕ) (c : PooledConnection) (now : ℕ)
      → s.stage n ≡ away
      → closes_on_release s.pool now c false ≡ false
      → Step s (record s { pool = touch_in now s.pool c })
  pops :
      (n : ℕ) (peer_id : Str)
      → s.stage n ≡ away
      → s.lock ≡ none
      → Step s (record s { pool = (pop_peer s.pool peer_id).0 })
  clears :
      (n : ℕ) → s.stage n ≡ away → s.lock ≡ none → Step s (record s { pool = (clear s.pool).0 })
  leaves :
      (n : ℕ) (c : Option PooledConnection)
      → s.stage n ≡ served c
      → Step s (record s { stage = moved s.stage n away })

pub data Reach (s : System) : System → Type 0 where
  here : Reach s s
  next : {t u : System} → Reach s t → Step t u → Reach s u
