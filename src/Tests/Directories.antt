-- ===== src/Tests/Directories.antt =====
-- A registry with one client, and a peer that moves.
use blockchain_messaging_pro.Common.{◌≡◌, ◌≢◌, none, some, [], codes, if◌then◌else◌, arith, str_eq}
use blockchain_messaging_pro.Common.Dict.{IsUnique}
use blockchain_messaging_pro.Registry
use blockchain_messaging_pro.Registry.{
  RegisteredClient, empty_registry, register, is_expired, prune_expired,
}
use blockchain_messaging_pro.Registry.Expiry.{
  get-prune_expired, Reach-IsUnique, Reach, start, later, registers,
}
use blockchain_messaging_pro.Peers.{Peer, PeerManager, disconnected, endpoint}

abbrev one_client : Registry.Registry
one_client = (register (empty_registry 300) 10 (codes "p") none (codes "host") 9000 [] []).0

from_nothing : Reach 300 (empty_registry 300)
from_nothing = start

one_client-IsUnique : IsUnique one_client.clients
one_client-IsUnique =
    Reach-IsUnique (later from_nothing (registers 10 (codes "p") none (codes "host") 9000 [] []))

get-prune_expired_example :
    Registry.get (prune_expired one_client 400).0 (codes "p")
    ≡ elim (Registry.get one_client (codes "p")) [
      | none ↦ none
      | some c ↦ if is_expired 400 one_client.expiry_time c then none else some c
    ]
get-prune_expired_example = get-prune_expired one_client 400 (codes "p") one_client-IsUnique

abbrev here : Peer
here = record {
  id = codes "p";
  address = codes "a";
  port = 1;
  public_key = none;
  encryption_key = none;
  state = disconnected;
  last_seen = 0;
  name = none;
}

abbrev there : Peer
there = record here { address = codes "b" }

abbrev no_peers : PeerManager
no_peers = record { peers = []; address_index = []; stale_timeout = 300 }

id_not_empty : here.id ≢ []
id_not_empty h = ground arith

moved_away : endpoint there ≢ endpoint here
unfolding endpoint
moved_away h = ground arith
