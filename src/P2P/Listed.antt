-- ===== src/P2P/Listed.antt =====
-- src/network/p2p.py: the connections and the peers that belong to them.
use blockchain_messaging_pro.Common.{
  ℕ, ◌≡◌, ◌≢◌, refl, sym, ◌∙◌, subst, inl, inr, none, some, [], Str, str_eq, Bool-cases,
  Option-cases, arith, ◌==◌,
}
use blockchain_messaging_pro.Common.Dict
use blockchain_messaging_pro.Common.Dict.{
  Dict, IsUnique, put-IsUnique, remove-IsUnique, get-put, get-remove,
}
use blockchain_messaging_pro.Peers.{Peer, add, disconnected, update_state, with_state}
use blockchain_messaging_pro.P2P.{P2PNode, attach, handle_disconnect, stop, seen, mark_seen}

-- No peer has two connections, and every connection is one of a peer that the peer manager has.
pub record IsRegistered (connections : Dict Str ℕ) (peers : Dict Str Peer) : Type 0 where
  pub unique : IsUnique connections
  pub peer_known :
      (id : Str) (ws : ℕ)
      → Dict.get connections id ≡ some ws
      → (p : Peer) × (Dict.get peers id ≡ some p)

-- the connections and the peers are those of the other state
abbrev pub Same : P2PNode → P2PNode → Type 0
Same s t = (t.connections ≡ s.connections) × (t.peer_manager ≡ s.peer_manager)

abbrev pub IsListed : P2PNode → Type 0
IsListed s = IsRegistered s.connections s.peer_manager.peers

pub IsListed-Same : (s t : P2PNode) → Same s t → IsListed s → IsListed t
IsListed-Same s t (c, m) h =
    subst (λ d. IsRegistered d t.peer_manager.peers) (sym c)
      (subst (λ x. IsRegistered s.connections x.peers) (sym m) h)

pub trans_Same : (s t u : P2PNode) → Same s t → Same t u → Same s u
trans_Same s t u (c, m) (d, n) = (d ∙ c, n ∙ m)

pub attach-IsListed : (s : P2PNode) (ws : ℕ) (p : Peer) → IsListed s → IsListed (attach s ws p)
unfolding attach add
attach-IsListed s ws p h = record {
  unique = put-IsUnique s.connections p.id ws h.unique;
  peer_known = λ id v e. elim (Bool-cases (p.id == id)) [
    | inl same ↦ (p, rw (get-put s.peer_manager.peers p.id id p, same) refl)
    | inr other ↦
        let before : Dict.get s.connections id ≡ some v =
          ground (arith, get-put s.connections p.id id ws, other, e) in
        let (q, f) = h.peer_known id v before in
        (q, rw (get-put s.peer_manager.peers p.id id p, other) f)
  ];
}

-- putting some peer in changes no answer to whether a peer is known
put_known :
    (peers : Dict Str Peer) (key id : Str) (q p : Peer)
    → Dict.get peers id ≡ some p
    → (r : Peer) × (Dict.get (Dict.put peers key q) id ≡ some r)
put_known peers key id q p e = elim (Bool-cases (key == id)) [
  | inl same ↦ (q, rw (get-put peers key id q, same) refl)
  | inr other ↦ (p, rw (get-put peers key id q, other) e)
]

pub mark_seen-IsListed :
    (s : P2PNode) (now : ℕ) (p : Peer) → IsListed s → IsListed (mark_seen s now p)
unfolding mark_seen
mark_seen-IsListed s now p h = elim (Option-cases (Dict.get s.peer_manager.peers p.id)) [
  | inl e ↦ rw (mark_seen, e) h
  | inr (q, e) ↦
      rw (mark_seen, e)
        (record {
          unique = h.unique;
          peer_known = λ id ws f.
              let (r, g) = h.peer_known id ws f in
              put_known s.peer_manager.peers p.id id (seen now q) r g;
        })
]

left_over :
    (d : Dict Str ℕ) (key id : Str) (ws : ℕ)
    → Dict.get (Dict.remove d key) id ≡ some ws
    → Dict.get d id ≡ some ws
left_over d key id ws f = ground (arith, get-remove d key id, f)

pub handle_disconnect-IsListed :
    (s : P2PNode) (now : ℕ) (p : Peer) → IsListed s → IsListed (handle_disconnect s now p)
unfolding handle_disconnect update_state
handle_disconnect-IsListed s now p h =
    let unique = remove-IsUnique s.connections p.id h.unique in
    elim (Option-cases (Dict.get s.peer_manager.peers p.id)) [
      | inl e ↦
          rw (update_state, e)
            (record {
              unique = unique;
              peer_known = λ id ws f. h.peer_known id ws (left_over s.connections p.id id ws f);
            })
      | inr (q, e) ↦
          rw (update_state, e)
            (record {
              unique = unique;
              peer_known = λ id ws f.
                  let (r, g) = h.peer_known id ws (left_over s.connections p.id id ws f) in
                  put_known s.peer_manager.peers p.id id (with_state now disconnected q) r g;
            })
    ]

no_value : (ws : ℕ) → none ≢ some ws
no_value ws e = cc

pub no_connections : (peers : Dict Str Peer) → IsRegistered [] peers
unfolding Dict.get
no_connections peers = record { unique = tt; peer_known = λ id ws f. absurd (no_value ws f) }

pub stop-IsListed : (s : P2PNode) → IsListed s → IsListed (stop s)
unfolding stop
stop-IsListed s h = elim (Bool-cases s.running) [
  | inl e ↦ rw (stop, e) (no_connections s.peer_manager.peers)
  | inr e ↦ rw (stop, e) h
]
