-- ===== src/Peers/Lookup.antt =====
-- Looking peers up by id and by endpoint.
use blockchain_messaging_pro.Common.{
  ◌≡◌, ◌≢◌, refl, ◌∙◌, none, some, [], ◌∷◌, Str, arith, str_beq_iff, str_eq, Option-cases, inl, inr,
}
use blockchain_messaging_pro.Common.Dict
use blockchain_messaging_pro.Common.Dict.{Dict, get-put, get-remove, get-put_same, get-remove_same}
use blockchain_messaging_pro.Peers.{Peer, PeerManager, endpoint, add, remove, get, get_by_address}

by_index :
    (m : PeerManager) (address id : Str)
    → id ≢ []
    → Dict.get m.address_index address ≡ some id
    → get_by_address m address ≡ Dict.get m.peers id
unfolding get_by_address
by_index m address [] h e = absurd (h refl)
by_index m address (x ∷ xs) h e = rw (get_by_address, e) refl

-- A peer with an id that is not empty is found by its id and by its endpoint after `add`, and the
-- peers with other ids are found as before.
pub add_lem :
    (m : PeerManager) (p : Peer)
    → p.id ≢ []
    → (get (add m p) p.id ≡ some p)
      × (get_by_address (add m p) (endpoint p) ≡ some p)
      × ((id : Str) → id ≢ p.id → get (add m p) id ≡ get m id)
unfolding add get
add_lem m p h = (
  get-put_same m.peers p.id p,
  by_index (add m p) (endpoint p) p.id h (get-put_same m.address_index (endpoint p) p.id)
      ∙ get-put_same m.peers p.id p,
  λ id other. ground (arith, get-put m.peers p.id id p, str_beq_iff p.id id),
)

-- When a known peer is added again with another endpoint, the lookup by the old endpoint still
-- finds it, with the new address.
pub add-moved :
    (m : PeerManager) (p moved : Peer)
    → p.id ≢ []
    → moved.id ≡ p.id
    → endpoint moved ≢ endpoint p
    → get_by_address (add (add m p) moved) (endpoint p) ≡ some moved
unfolding add
add-moved m p moved h e away =
    by_index (add (add m p) moved) (endpoint p) p.id h (
      ground (
        arith,
        get-put (Dict.put m.address_index (endpoint p) p.id) (endpoint moved) (endpoint p) moved.id,
        get-put_same m.address_index (endpoint p) p.id,
        str_beq_iff (endpoint moved) (endpoint p),
      ))
    ∙ ground
        (arith, get-put (Dict.put m.peers p.id p) moved.id p.id moved, str_beq_iff moved.id p.id)

-- After `remove` the peer is not found by its id, the peer that was found before is returned, and
-- peers with other ids are found as before.
pub remove_lem :
    (m : PeerManager) (id : Str)
    → (get (remove m id).0 id ≡ none)
      × ((remove m id).1 ≡ get m id)
      × ((other : Str) → other ≢ id → get (remove m id).0 other ≡ get m other)
unfolding remove get
remove_lem m id = elim (Option-cases (Dict.get m.peers id)) [
  | inl e ↦ rw (remove, e) (e, refl, λ other h. refl)
  | inr (p, e) ↦
      rw (remove, e)
        (
          get-remove_same m.peers id,
          refl,
          λ other h. ground (arith, get-remove m.peers id other, str_beq_iff id other),
        )
]
