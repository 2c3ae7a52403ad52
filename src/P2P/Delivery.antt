-- ===== src/P2P/Delivery.antt =====
-- src/network/p2p.py: a message on its way from one node to the other, and a connection that is
-- replaced.
use blockchain_messaging_pro.Common.{
  ℕ, ◌≡◌, refl, sym, ap, ◌∙◌, subst, Bool, true, false, none, some, Str, Bytes, ok, str_eq,
}
use blockchain_messaging_pro.Common.Dict
use blockchain_messaging_pro.Common.Dict.{get-put_same, get-remove_same}
use blockchain_messaging_pro.Frame.{data_of}
use blockchain_messaging_pro.Message.{MessagePayload, to_dict}
use blockchain_messaging_pro.Message.RoundTrip.{without_empty_nonce}
use blockchain_messaging_pro.Message.Packing.{
  Codecs, IsBase64, message_to_bytes, from_bytes-to_bytes_message,
}
use blockchain_messaging_pro.Peers.{
  Peer, PeerManager, add, get, disconnected, update_state, with_state,
}
use blockchain_messaging_pro.P2P.{
  P2PNode, get_peer, attach, handle_disconnect, mark_seen, connection_for,
}
use blockchain_messaging_pro.P2P.Connections.{process_frame, handle_input, send_message}
use blockchain_messaging_pro.P2P.Exchange.{Travels, logged, read_frame-to_bytes, send_frame-eq}

-- On a connection that takes the bytes, `send_message` sends one frame, and the node that reads it
-- marks the peer as seen and calls its handlers with the same message, an empty nonce as none, if
-- the frame keeps the size limit and base64 and MessagePack read back what they wrote.
pub handle_input-send_message :
    (k : Codecs) (accepts : ℕ → Bytes → Bool) (s t : P2PNode) (m : MessagePayload)
    (recipient_id : Str) (p : Peer) (ws now : ℕ) (bytes : Bytes)
    → connection_for s recipient_id ≡ some ws
    → Travels (data_of (message_to_bytes k m)) bytes
    → accepts ws bytes ≡ true
    → IsBase64 k
    → k.unpackb (k.packb (to_dict k.b64encode m)) ≡ ok (to_dict k.b64encode m)
    → (send_message k accepts s m recipient_id ≡ (logged s ws bytes, true))
      × (handle_input k accepts t now bytes p ≡ (mark_seen t now p, some (without_empty_nonce m)))
unfolding send_message handle_input process_frame data_of
handle_input-send_message k accepts s t m recipient_id p ws now bytes found travels took b64
      unpacks =
    (
      rw (send_message, found)
          (send_frame-eq k accepts s ws (data_of (message_to_bytes k m)) bytes travels.written
            took),
      rw
          (
            handle_input,
            read_frame-to_bytes (data_of (message_to_bytes k m)) bytes travels,
            process_frame,
            from_bytes-to_bytes_message k m b64 unpacks,
          )
          refl,
    )

update_state_found :
    (m : PeerManager) (now : ℕ) (p : Peer) (id : Str)
    → Dict.get m.peers id ≡ some p
    → update_state m now id disconnected
      ≡ (record m { peers = Dict.put m.peers id (record p { state = disconnected }) }, true)
unfolding update_state with_state
update_state_found m now p id e = rw (update_state, e) refl

attached :
    (s : P2PNode) (ws : ℕ) (q : Peer) (id : Str)
    → q.id ≡ id
    → Dict.get (attach s ws q).connections id ≡ some ws
unfolding attach
attached s ws q id e =
    subst (λ i. Dict.get (Dict.put s.connections q.id ws) i ≡ some ws) e
      (get-put_same s.connections q.id ws)

-- the node after the peer is disconnected that it has just connected to
disconnected-peer :
    (s : P2PNode) (ws now : ℕ) (q : Peer)
    → get_peer (handle_disconnect (attach s ws q) now q) q.id
      ≡ some (record q { state = disconnected })
unfolding handle_disconnect attach get_peer add get
disconnected-peer s ws now q =
    ap (λ r. Dict.get r.0.peers q.id)
      (update_state_found (add s.peer_manager q) now q q.id
        (get-put_same s.peer_manager.peers q.id q))
    ∙ get-put_same (Dict.put s.peer_manager.peers q.id q) q.id (record q { state = disconnected })

connection_for-stored :
    (s : P2PNode) (id : Str) (ws : ℕ)
    → Dict.get s.connections id ≡ some ws
    → connection_for s id ≡ some ws
unfolding connection_for
connection_for-stored s id ws e = rw (connection_for, e) refl

connection_for-dropped :
    (s : P2PNode) (id : Str) (q : Peer)
    → Dict.get s.connections id ≡ none
    → get_peer s id ≡ some q
    → q.id ≡ id
    → connection_for s id ≡ none
unfolding connection_for
connection_for-dropped s id q gone known same =
    rw (connection_for, gone, known) (ap (Dict.get s.connections) same ∙ gone)

same_disconnect :
    (s : P2PNode) (now : ℕ) (p q : Peer)
    → q.id ≡ p.id
    → handle_disconnect s now q ≡ handle_disconnect s now p
unfolding handle_disconnect
same_disconnect s now p q e =
    ap
      (λ id. record s {
        connections = Dict.remove s.connections id;
        peer_manager = (update_state s.peer_manager now id disconnected).0;
      })
      e

-- When a peer connects a second time, messages to it take the second connection. When its first
-- connection then ends, the node has the peer as disconnected, and a message to it is not sent.
pub handle_disconnect-attach :
    (k : Codecs) (accepts : ℕ → Bytes → Bool) (s : P2PNode) (first second now : ℕ) (p q : Peer)
    (m : MessagePayload)
    → q.id ≡ p.id
    → let t = attach (attach s first p) second q in
      let u = handle_disconnect t now p in
      (connection_for t p.id ≡ some second)
      × (get_peer u p.id ≡ some (record q { state = disconnected }))
      × (send_message k accepts u m p.id ≡ (u, false))
unfolding send_message handle_disconnect
handle_disconnect-attach k accepts s first second now p q m e =
    let t = attach (attach s first p) second q in
    let u = handle_disconnect t now p in
    let known : get_peer u p.id ≡ some (record q { state = disconnected }) =
      ap (λ x. get_peer x p.id) (sym (same_disconnect t now p q e))
      ∙ ap (get_peer (handle_disconnect t now q)) (sym e)
      ∙ disconnected-peer (attach s first p) second now q in
    let gone = connection_for-dropped u p.id _ (get-remove_same t.connections p.id) known e in
    (
      connection_for-stored t p.id second (attached (attach s first p) second q p.id e),
      known,
      rw (send_message, gone) refl,
    )
