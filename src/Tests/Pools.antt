-- ===== src/Tests/Pools.antt =====
-- A pool with room for one connection, which is idle, and a task that asks for another peer.
use blockchain_messaging_pro.Common.{◌≡◌, refl, true, none, some, [], ◌∷◌, codes, leb, str_eq}
use blockchain_messaging_pro.Common.Dict
use blockchain_messaging_pro.Pool.{
  PooledConnection, ConnectionPool, try_reuse, size, count_all, evict_choice, all_connections,
  oldest_loop, idle_time,
}
use blockchain_messaging_pro.Pool.Tasks.{Request, wanting, evicting, System, looked_up, here}
use blockchain_messaging_pro.Pool.Waiting.{eviction_waits}

abbrev idle : PooledConnection
idle = record {
  peer_id = codes "a";
  websocket = 1;
  address = codes "h";
  port = 1;
  created_at = 0;
  last_used = 0;
  use_count = 0;
}

abbrev full_pool : ConnectionPool
full_pool = record {
  max_connections = 1;
  max_per_peer = 1;
  idle_timeout = 300;
  max_age = 3600;
  connections = (codes "a", idle ∷ []) ∷ [];
  total_reuses = 0;
  total_created = 1;
}

abbrev asked : Request
asked = record { peer_id = codes "b"; address = codes "h"; port = 2 }

abbrev waiting : System
waiting = record { pool = full_pool; lock = none; stage = λ n. wanting asked }

missing : (try_reuse (λ ws. true) 5 full_pool (codes "b")).1 ≡ none
unfolding try_reuse Dict.get
missing = refl

full :
    leb
      (try_reuse (λ ws. true) 5 full_pool (codes "b")).0.max_connections
      (size (try_reuse (λ ws. true) 5 full_pool (codes "b")).0)
    ≡ true
unfolding try_reuse Dict.get size count_all
full = refl

choice : evict_choice 5 (try_reuse (λ ws. true) 5 full_pool (codes "b")).0 ≡ some idle
unfolding try_reuse Dict.get evict_choice all_connections oldest_loop idle_time
choice = refl

eviction_waits_example :
    let t = looked_up (λ ws. true) 5 waiting 0 asked in
    (t.lock ≡ some 0)
    × (t.stage 0 ≡ evicting asked idle)
    × (t.pool.total_created ≡ (try_reuse (λ ws. true) 5 full_pool (codes "b")).0.total_created)
eviction_waits_example =
    eviction_waits waiting (looked_up (λ ws. true) 5 waiting 0 asked) 0 asked idle (λ ws. true) 5
      missing full choice here
