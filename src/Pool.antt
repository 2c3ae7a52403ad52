-- ===== src/Pool.antt =====
-- src/network/pool.py: the pool of WebSocket connections. A connection is told from others by the
-- number of its WebSocket; `open_now` says which WebSockets are open. Each definition is a stretch of
-- code that runs without awaiting anything; Pool/Tasks puts them in order under the lock. Times are
-- natural numbers of clock ticks.
pub mod Tasks
pub mod Waiting
use blockchain_messaging_pro.Common.{
  ℕ, suc, ◌+◌, ◌-◌, Bool, true, false, not, ◌&&◌, ◌||◌, Option, none, some, List, [], ◌∷◌, ◌++◌,
  Str, length, ltb, leb, nat_beq, str_eq, if◌then◌else◌,
}
use blockchain_messaging_pro.Common.Dict
use blockchain_messaging_pro.Common.Dict.{Dict}

pub record PooledConnection : Type 0 where
  pub peer_id : Str
  pub websocket : ℕ
  pub address : Str
  pub port : ℕ
  pub created_at : ℕ
  pub last_used : ℕ
  pub use_count : ℕ

pub record ConnectionPool : Type 0 where
  pub max_connections : ℕ
  pub max_per_peer : ℕ
  pub idle_timeout : ℕ
  pub max_age : ℕ
  pub connections : Dict Str (List PooledConnection)
  pub total_reuses : ℕ
  pub total_created : ℕ

unfoldable pub age : ℕ → PooledConnection → ℕ
age now c = now - c.created_at

unfoldable pub idle_time : ℕ → PooledConnection → ℕ
idle_time now c = now - c.last_used

unfoldable pub touch : ℕ → PooledConnection → PooledConnection
touch now c = record c { last_used = now; use_count = c.use_count + 1 }

-- `sum(len(conns) for conns in ...)`
unfoldable pub count_all : Dict Str (List PooledConnection) → ℕ
count_all [] = 0
count_all ((peer_id, cs) ∷ d) = length cs + count_all d

unfoldable pub size : ConnectionPool → ℕ
size p = count_all p.connections

-- `self._connections.get(peer_id, [])`
unfoldable pub connections_of : ConnectionPool → Str → List PooledConnection
connections_of p peer_id = elim (Dict.get p.connections peer_id) [ none ↦ [] | some cs ↦ cs ]

-- the loop that looks for a connection to use again, with the connections after it is touched
unfoldable pub reuse_loop :
    (ℕ → Bool) → ℕ → ℕ → List PooledConnection → Option (PooledConnection × List PooledConnection)
reuse_loop open_now now idle_timeout [] = none
reuse_loop open_now now idle_timeout (c ∷ cs) =
    let rest = reuse_loop open_now now idle_timeout cs in
    if open_now c.websocket && ltb (idle_time now c) idle_timeout
    then some (touch now c, touch now c ∷ cs)
    else elim rest [ none ↦ none | some (found, after) ↦ some (found, c ∷ after) ]

-- `[c for c in ... if c.is_open]`
unfoldable pub open_ones : (ℕ → Bool) → List PooledConnection → List PooledConnection
open_ones open_now [] = []
open_ones open_now (c ∷ cs) =
    let rest = open_ones open_now cs in if open_now c.websocket then c ∷ rest else rest

-- the start of `get_connection`, where there may be a connection to use again
unfoldable pub try_reuse :
    (ℕ → Bool) → ℕ → ConnectionPool → Str → ConnectionPool × Option PooledConnection
try_reuse open_now now p peer_id = elim (Dict.get p.connections peer_id) [
  | none ↦ (p, none)
  | some cs ↦ elim (reuse_loop open_now now p.idle_timeout cs) [
    | some (found, after) ↦ (
      record p {
        connections = Dict.put p.connections peer_id after;
        total_reuses = p.total_reuses + 1;
      },
      some found,
    )
    | none ↦
        (record p { connections = Dict.put p.connections peer_id (open_ones open_now cs) }, none)
  ]
]

-- the loops of `_evict_one`, over all connections in order
unfoldable pub oldest_loop :
    ℕ → ℕ → Option PooledConnection → List PooledConnection → Option PooledConnection
oldest_loop now oldest_idle oldest [] = oldest
oldest_loop now oldest_idle oldest (c ∷ cs) = elim (ltb oldest_idle (idle_time now c)) [
  | true ↦ oldest_loop now (idle_time now c) (some c) cs
  | false ↦ oldest_loop now oldest_idle oldest cs
]

unfoldable pub all_connections : Dict Str (List PooledConnection) → List PooledConnection
all_connections [] = []
all_connections ((peer_id, cs) ∷ d) = cs ++ all_connections d

unfoldable pub evict_choice : ℕ → ConnectionPool → Option PooledConnection
evict_choice now p = oldest_loop now 0 none (all_connections p.connections)

-- the test of the limit per peer
unfoldable pub has_room : ConnectionPool → Str → Bool
has_room p peer_id = not (leb p.max_per_peer (length (connections_of p peer_id)))

-- the end of `get_connection`, where the new connection is put into the pool
unfoldable pub add_connection : ConnectionPool → PooledConnection → ConnectionPool
add_connection p c = record p {
  connections = Dict.put p.connections c.peer_id (connections_of p c.peer_id ++ (c ∷ []));
  total_created = p.total_created + 1;
}

unfoldable pub new_connection : ℕ → Str → ℕ → Str → ℕ → PooledConnection
new_connection now peer_id websocket address port = record {
  peer_id = peer_id;
  websocket = websocket;
  address = address;
  port = port;
  created_at = now;
  last_used = now;
  use_count = 0;
}

-- `[c for c in ... if c is not conn]`
unfoldable pub without : ℕ → List PooledConnection → List PooledConnection
without websocket [] = []
without websocket (c ∷ cs) =
    let rest = without websocket cs in if nat_beq c.websocket websocket then rest else c ∷ rest

-- the end of `_close_connection`, under the lock
unfoldable pub forget : ConnectionPool → PooledConnection → ConnectionPool
forget p c = elim (Dict.get p.connections c.peer_id) [
  | none ↦ p
  | some cs ↦ record p { connections = Dict.put p.connections c.peer_id (without c.websocket cs) }
]

-- whether `release_connection` closes the connection; if not, it is touched
unfoldable pub closes_on_release : ConnectionPool → ℕ → PooledConnection → Bool → Bool
closes_on_release p now c wanted = wanted || ltb p.max_age (age now c)

unfoldable pub touch_ones : ℕ → ℕ → List PooledConnection → List PooledConnection
touch_ones now websocket [] = []
touch_ones now websocket (c ∷ cs) =
    (if nat_beq c.websocket websocket then touch now c else c) ∷ touch_ones now websocket cs

-- the pool after a connection that may be in it is touched outside it
unfoldable pub touch_in : ℕ → ConnectionPool → PooledConnection → ConnectionPool
touch_in now p c = record p {
  connections = elim (Dict.get p.connections c.peer_id) [
    | none ↦ p.connections
    | some cs ↦ Dict.put p.connections c.peer_id (touch_ones now c.websocket cs)
  ];
}

-- the connections that `close_peer_connections` takes out
unfoldable pub pop_peer : ConnectionPool → Str → ConnectionPool × List PooledConnection
pop_peer p peer_id =
    (record p { connections = Dict.remove p.connections peer_id }, connections_of p peer_id)

unfoldable pub is_stale_connection : (ℕ → Bool) → ℕ → ConnectionPool → PooledConnection → Bool
is_stale_connection open_now now p c =
    not (open_now c.websocket) || ltb p.idle_timeout (idle_time now c) || ltb p.max_age (age now c)

-- the connections that `cleanup` closes
unfoldable pub stale_ones :
    (ℕ → Bool) → ℕ → ConnectionPool → List PooledConnection → List PooledConnection
stale_ones open_now now p [] = []
stale_ones open_now now p (c ∷ cs) =
    let rest = stale_ones open_now now p cs in
    if is_stale_connection open_now now p c then c ∷ rest else rest

-- the pool after `close_all`, and the connections that it closes
unfoldable pub clear : ConnectionPool → ConnectionPool × List PooledConnection
clear p = (record p { connections = [] }, all_connections p.connections)
