-- ===== src/Peers.antt =====
-- src/network/peer.py: the peers and `PeerManager`. Times are natural numbers of clock ticks, read
-- by the caller.
pub mod Lookup
pub mod Storage
use blockchain_messaging_pro.Common.{
  ℕ, ◌-◌, Bool, true, false, Option, none, some, List, [], ◌∷◌, ◌++◌, Str, Bytes, codes, ltb,
  length, if◌then◌else◌, str_eq,
}
use blockchain_messaging_pro.Common.Dict
use blockchain_messaging_pro.Common.Dict.{Dict}
use blockchain_messaging_pro.Json.{decimal}

pub data PeerState : Type 0 where
  disconnected connecting connected handshaking authenticated : PeerState

-- `metadata` is left out: no method of the manager reads it
pub record Peer : Type 0 where
  pub id : Str
  pub address : Str
  pub port : ℕ
  pub public_key : Option Bytes
  pub encryption_key : Option Bytes
  pub state : PeerState
  pub last_seen : ℕ
  pub name : Option Str

unfoldable pub endpoint : Peer → Str
endpoint p = p.address ++ codes ":" ++ decimal p.port

unfoldable pub ws_url : Peer → Str
ws_url p = codes "ws://" ++ p.address ++ codes ":" ++ decimal p.port

unfoldable pub is_connected : Peer → Bool
is_connected p = elim p.state [ connected ↦ true | authenticated ↦ true | _ ↦ false ]

unfoldable pub is_authenticated : Peer → Bool
is_authenticated p = elim p.state [ authenticated ↦ true | _ ↦ false ]

pub record PeerManager : Type 0 where
  pub peers : Dict Str Peer
  pub address_index : Dict Str Str
  pub stale_timeout : ℕ

unfoldable pub add : PeerManager → Peer → PeerManager
add m p = record m {
  peers = Dict.put m.peers p.id p;
  address_index = Dict.put m.address_index (endpoint p) p.id;
}

unfoldable pub remove : PeerManager → Str → PeerManager × Option Peer
remove m peer_id = elim (Dict.get m.peers peer_id) [
  | none ↦ (m, none)
  | some p ↦ (
    record m {
      peers = Dict.remove m.peers peer_id;
      address_index = Dict.remove m.address_index (endpoint p);
    },
    some p,
  )
]

unfoldable pub get : PeerManager → Str → Option Peer
get m peer_id = Dict.get m.peers peer_id

-- `if peer_id`: an empty id is none
unfoldable pub get_by_address : PeerManager → Str → Option Peer
get_by_address m address = elim (Dict.get m.address_index address) [
  | none ↦ none
  | some [] ↦ none
  | some (x ∷ xs) ↦ Dict.get m.peers (x ∷ xs)
]

unfoldable pub connected_of : List Peer → List Peer
connected_of [] = []
connected_of (p ∷ ps) = let rest = connected_of ps in if is_connected p then p ∷ rest else rest

unfoldable pub get_connected : PeerManager → List Peer
get_connected m = connected_of (Dict.values m.peers)

unfoldable pub authenticated_of : List Peer → List Peer
authenticated_of [] = []
authenticated_of (p ∷ ps) =
    let rest = authenticated_of ps in if is_authenticated p then p ∷ rest else rest

unfoldable pub get_authenticated : PeerManager → List Peer
get_authenticated m = authenticated_of (Dict.values m.peers)

unfoldable pub get_all : PeerManager → List Peer
get_all m = Dict.values m.peers

-- `update_seen` runs only when the new state is `CONNECTED`
unfoldable pub with_state : ℕ → PeerState → Peer → Peer
with_state now state p = elim state [
  | connected ↦ record p { state = connected; last_seen = now }
  | other ↦ record p { state = other }
]

unfoldable pub update_state : PeerManager → ℕ → Str → PeerState → PeerManager × Bool
update_state m now peer_id state = elim (Dict.get m.peers peer_id) [
  | none ↦ (m, false)
  | some p ↦ (record m { peers = Dict.put m.peers peer_id (with_state now state p) }, true)
]

-- `(now - peer.last_seen) > self.stale_timeout`; a time in the future is no time ago
unfoldable pub is_stale : ℕ → ℕ → Peer → Bool
is_stale now stale_timeout p = ltb stale_timeout (now - p.last_seen)

-- the loop of `prune_stale` over a copy of the peers
unfoldable pub prune_loop : ℕ → List Peer → PeerManager → PeerManager × List Peer
prune_loop now [] m = (m, [])
prune_loop now (p ∷ ps) m = elim (is_stale now m.stale_timeout p) [
  | true ↦ let (left, stale) = prune_loop now ps ((remove m p.id).0) in (left, p ∷ stale)
  | false ↦ prune_loop now ps m
]

unfoldable pub prune_stale : PeerManager → ℕ → PeerManager × List Peer
prune_stale m now = prune_loop now (Dict.values m.peers) m
