-- ===== src/Registry.antt =====
-- src/server/registry.py: the directory of registered clients, `Registry`. Times are natural
-- numbers of clock ticks, read by the caller; `base64` is the encoder that `to_dict` calls and
-- `repr` the text of a time.
pub mod Expiry
pub mod Server
pub mod Keys
pub mod Greeting
pub mod Entry
use blockchain_messaging_pro.Common.{
  ℕ, ◌+◌, ◌-◌, Bool, true, false, ◌&&◌, not, Option, none, some, List, [], ◌∷◌, Str, Bytes, codes,
  ltb, str_beq, if◌then◌else◌, str_eq, length,
}
use blockchain_messaging_pro.Common.Dict
use blockchain_messaging_pro.Common.Dict.{Dict}
use blockchain_messaging_pro.Peers.{Peer, connected}
use blockchain_messaging_pro.Json.{Json, null, num, float, str, Fields, end, field}

pub record RegisteredClient : Type 0 where
  pub peer_id : Str
  pub name : Option Str
  pub address : Str
  pub port : ℕ
  pub public_key : Bytes
  pub encryption_key : Bytes
  pub registered_at : ℕ
  pub last_seen : ℕ

pub record Registry : Type 0 where
  pub clients : Dict Str RegisteredClient
  pub expiry_time : ℕ

abbrev pub empty_registry : ℕ → Registry
empty_registry expiry_time = record { clients = []; expiry_time = expiry_time }

unfoldable pub register :
    Registry → ℕ → Str → Option Str → Str → ℕ → Bytes → Bytes → Registry × RegisteredClient
register r now peer_id name address port public_key encryption_key =
    let client : RegisteredClient = record {
      peer_id = peer_id;
      name = name;
      address = address;
      port = port;
      public_key = public_key;
      encryption_key = encryption_key;
      registered_at = now;
      last_seen = now;
    } in
    (record r { clients = Dict.put r.clients peer_id client }, client)

unfoldable pub unregister : Registry → Str → Registry × Bool
unregister r peer_id =
    if Dict.contains r.clients peer_id
    then (record r { clients = Dict.remove r.clients peer_id }, true)
    else (r, false)

unfoldable pub get : Registry → Str → Option RegisteredClient
get r peer_id = Dict.get r.clients peer_id

unfoldable pub update_seen : Registry → ℕ → Str → Registry × Bool
update_seen r now peer_id = elim (Dict.get r.clients peer_id) [
  | none ↦ (r, false)
  | some client ↦
      (record r { clients = Dict.put r.clients peer_id (record client { last_seen = now }) }, true)
]

-- `client.port = new_port` of the registered client
unfoldable pub set_port : Registry → Str → ℕ → Registry
set_port r peer_id port = elim (Dict.get r.clients peer_id) [
  | none ↦ r
  | some client ↦ record r { clients = Dict.put r.clients peer_id (record client { port = port }) }
]

-- the peer counts as seen when it is made
unfoldable pub to_peer : ℕ → RegisteredClient → Peer
to_peer now c = record {
  id = c.peer_id;
  address = c.address;
  port = c.port;
  public_key = some c.public_key;
  encryption_key = some c.encryption_key;
  state = connected;
  last_seen = now;
  name = c.name;
}

unfoldable pub get_all : Registry → List RegisteredClient
get_all r = Dict.values r.clients

module _ (base64 : Bytes → Str) (repr : ℕ → Str) where
  unfoldable pub to_dict : RegisteredClient → Fields
  to_dict c = field (codes "peer_id") (str c.peer_id) (
      field (codes "name") (elim c.name [ none ↦ null | some n ↦ str n ])
        (field (codes "address") (str c.address) (
          field (codes "port") (num c.port) (
            field (codes "public_key") (str (base64 c.public_key)) (
              field (codes "encryption_key") (str (base64 c.encryption_key)) (
                field (codes "registered_at") (float (repr c.registered_at))
                  (field (codes "last_seen") (float (repr c.last_seen)) end)))))))

  -- the loop of `get_peer_list`
  unfoldable pub peers_but : Option Str → List RegisteredClient → List Fields
  peers_but exclude [] = []
  peers_but exclude (c ∷ cs) =
      let rest = peers_but exclude cs in
      if elim exclude [
        | none ↦ false
        | some [] ↦ false
        | some (x ∷ xs) ↦ str_beq c.peer_id (x ∷ xs)
      ]
      then rest
      else to_dict c ∷ rest

  unfoldable pub get_peer_list : Registry → Option Str → List Fields
  get_peer_list r exclude = peers_but exclude (Dict.values r.clients)

-- `(now - client.last_seen) > self.expiry_time`; a time in the future is no time ago
unfoldable pub is_expired : ℕ → ℕ → RegisteredClient → Bool
is_expired now expiry_time c = ltb expiry_time (now - c.last_seen)

-- the loop of `prune_expired` over a copy of the items
unfoldable pub prune_loop :
    ℕ
    → ℕ
    → List (Str × RegisteredClient)
    → Dict Str RegisteredClient
    → Dict Str RegisteredClient × List Str
prune_loop now expiry_time [] clients = (clients, [])
prune_loop now expiry_time ((peer_id, c) ∷ rest) clients = elim (is_expired now expiry_time c) [
  | true ↦
      let (left, expired) = prune_loop now expiry_time rest (Dict.remove clients peer_id) in
      (left, peer_id ∷ expired)
  | false ↦ prune_loop now expiry_time rest clients
]

unfoldable pub prune_expired : Registry → ℕ → Registry × List Str
prune_expired r now =
    let (left, expired) = prune_loop now r.expiry_time r.clients r.clients in
    (record r { clients = left }, expired)
