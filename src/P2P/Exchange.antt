-- ===== src/P2P/Exchange.antt =====
-- src/network/p2p.py: what two nodes make of the frames that they send each other.
use mathlib.Core.List.{append-nil}
use blockchain_messaging_pro.Common.{
  ℕ, ◌≤◌, ◌≡◌, refl, sym, ap, ◌∙◌, Bool, true, false, none, some, [], ◌∷◌, ◌++◌, Str, Bytes, length,
  ok, err, ◌>>=◌, ok-injective, connection_error, if◌then◌else◌,
}
use blockchain_messaging_pro.Crypto.{address}
use blockchain_messaging_pro.Frame.{ProtocolFrame, max_frame_size, to_bytes, from_bytes}
use blockchain_messaging_pro.Frame.RoundTrip.{from_bytes-to_bytes}
use blockchain_messaging_pro.Handshake.{handshake_to_dict, handshake_frame, ack_fields, ack_frame}
use blockchain_messaging_pro.Handshake.RoundTrip.{
  ReadsBack, handshake_from_frame-frame, ack_from_frame-frame,
}
use blockchain_messaging_pro.Message.Packing.{Codecs, IsBase64}
use blockchain_messaging_pro.Peers.{Peer, authenticated}
use blockchain_messaging_pro.P2P.{
  P2PNode, peer_id, read_frame, peer_of, own_handshake, own_ack, transmit, send_frame, accepted_in,
  confirm, answer_handshake, perform_handshake, welcome, receive_handshake,
}

-- A frame within the size limit is written as these bytes.
pub record Travels (frame : ProtocolFrame) (bytes : Bytes) : Type 0 where
  pub written : to_bytes frame ≡ ok bytes
  pub small : length frame.payload ≤ max_frame_size

-- the node after some bytes are sent
abbrev pub logged : P2PNode → ℕ → Bytes → P2PNode
logged s ws bytes = record s { sent = s.sent ++ ((ws, bytes) ∷ []) }

pub read_frame-to_bytes :
    (frame : ProtocolFrame) (bytes : Bytes)
    → Travels frame bytes
    → read_frame (some bytes) ≡ ok frame
unfolding read_frame
read_frame-to_bytes frame bytes t =
    let (written, e, back) = from_bytes-to_bytes frame [] t.small in
    let same = ok-injective (sym e ∙ t.written) in
    let read = ap from_bytes (sym (append-nil bytes) ∙ ap (λ b. b ++ []) (sym same)) ∙ back in
    rw (read) refl

-- How a node introduces itself: the bytes of its handshake message and of its acknowledgment, which
-- a receiver can read.
pub record Introduces (k : Codecs) (s : P2PNode) (hello confirmed : Bytes) : Type 0 where
  pub hello_travels : Travels (handshake_frame k (own_handshake s)) hello
  pub hello_reads : ReadsBack k (handshake_to_dict k (own_handshake s))
  pub ack_travels : Travels (ack_frame k (own_ack s)) confirmed
  pub ack_reads : ReadsBack k (ack_fields k (own_ack s))

-- the other node as a peer, told from its wallet
abbrev pub peer_at : P2PNode → Str → ℕ → ℕ → Peer
peer_at s host port now = record {
  id = address s.wallet;
  address = host;
  port = port;
  public_key = some s.wallet.signing_keys.public_key;
  encryption_key = some s.wallet.encryption_keys.public_key;
  state = authenticated;
  last_seen = now;
  name = some s.wallet.name;
}

module _ (k : Codecs) (accepts : ℕ → Bytes → Bool) where
  pub send_frame-eq :
      (s : P2PNode) (ws : ℕ) (frame : ProtocolFrame) (bytes : Bytes)
      → to_bytes frame ≡ ok bytes
      → accepts ws bytes ≡ true
      → send_frame k accepts s ws frame ≡ (logged s ws bytes, true)
  unfolding send_frame transmit
  send_frame-eq s ws frame bytes e took = rw (send_frame, e, took) refl

  accepted_in-eq :
      (other : P2PNode) (hello confirmed : Bytes)
      → Introduces k other hello confirmed
      → accepted_in k accepts (some confirmed) ≡ ok true
  unfolding accepted_in ack_frame own_ack
  accepted_in-eq other hello confirmed theirs =
      rw
        (
          accepted_in,
          read_frame-to_bytes (ack_frame k (own_ack other)) confirmed theirs.ack_travels,
          ack_from_frame-frame k (own_ack other) theirs.ack_reads,
        )
        refl

  -- the node and the peer after the other's acknowledgment
  confirm-eq :
      (s other : P2PNode) (ws : ℕ) (p : Peer) (confirmed hello' confirmed' : Bytes)
      → Travels (ack_frame k (own_ack s)) confirmed
      → Introduces k other hello' confirmed'
      → accepts ws confirmed ≡ true
      → confirm k accepts s ws p (some confirmed') ≡ (logged s ws confirmed, ok (some p))
  unfolding confirm
  confirm-eq s other ws p confirmed hello' confirmed' own theirs took =
      ap
        (λ r. elim r.1 [
          | false ↦ (r.0, err connection_error)
          | true ↦ (
            r.0,
            do
              accepted ← accepted_in k accepts (some confirmed')
              ok (if accepted then some p else none),
          )
        ])
        (send_frame-eq s ws (ack_frame k (own_ack s)) confirmed own.written took)
      ∙ ap (λ r. (logged s ws confirmed, do accepted ← r; ok (if accepted then some p else none)))
          (accepted_in-eq other hello' confirmed' theirs)

  module _ (s other : P2PNode) (ws : ℕ) (host : Str) (port now : ℕ)
      (hello confirmed hello' confirmed' : Bytes) (own : Introduces k s hello confirmed)
      (theirs : Introduces k other hello' confirmed') (b64 : IsBase64 k)
      (takes : (ws : ℕ) (bytes : Bytes) → accepts ws bytes ≡ true) where
    answer_handshake-eq :
        answer_handshake k accepts
          (logged s ws hello)
          ws
          host
          port
          now
          (handshake_frame k (own_handshake other))
          (some confirmed')
        ≡ (
          logged (logged s ws hello) ws confirmed,
          ok (some (peer_of (own_handshake other) host port now)),
        )
    unfolding answer_handshake handshake_frame own_ack peer_id
    answer_handshake-eq =
        rw
          (
            answer_handshake,
            handshake_from_frame-frame k (own_handshake other) b64 theirs.hello_reads,
          )
          (confirm-eq (logged s ws hello) other ws (peer_of (own_handshake other) host port now)
            confirmed hello' confirmed' own.ack_travels theirs (takes ws confirmed))

    perform_handshake-eq :
        perform_handshake k accepts s ws host port now (some hello') (some confirmed') ≡ (
          logged (logged s ws hello) ws confirmed,
          ok (some (peer_of (own_handshake other) host port now)),
        )
    unfolding perform_handshake
    perform_handshake-eq =
        ap
          (λ r. elim r.1 [
            | false ↦ (r.0, err connection_error)
            | true ↦ elim (read_frame (some hello')) [
              | err e ↦ (r.0, err e)
              | ok frame ↦ answer_handshake k accepts r.0 ws host port now frame (some confirmed')
            ]
          ])
          (send_frame-eq s ws (handshake_frame k (own_handshake s)) hello own.hello_travels.written
            (takes ws hello))
        ∙ rw
            (read_frame-to_bytes (handshake_frame k (own_handshake other)) hello'
              theirs.hello_travels)
            answer_handshake-eq

    welcome-eq :
        welcome k accepts s ws host port now
          (handshake_frame k (own_handshake other))
          (some confirmed')
        ≡ (
          logged (logged s ws hello) ws confirmed,
          ok (some (peer_of (own_handshake other) host port now)),
        )
    unfolding welcome handshake_frame own_ack peer_id
    welcome-eq =
        rw (welcome, handshake_from_frame-frame k (own_handshake other) b64 theirs.hello_reads)
          (ap
              (λ r. elim r.1 [
                | false ↦ (r.0, err connection_error)
                | true ↦
                    confirm k accepts r.0 ws (peer_of (own_handshake other) host port now)
                      (some confirmed')
              ])
              (send_frame-eq s ws (handshake_frame k (own_handshake s)) hello
                own.hello_travels.written (takes ws hello))
            ∙ confirm-eq (logged s ws hello) other ws (peer_of (own_handshake other) host port now)
                confirmed hello' confirmed' own.ack_travels theirs (takes ws confirmed))

    receive_handshake-eq :
        receive_handshake k accepts s ws host port now (some hello') (some confirmed') ≡ (
          logged (logged s ws hello) ws confirmed,
          some (peer_of (own_handshake other) host port now),
        )
    unfolding receive_handshake
    receive_handshake-eq =
        rw
          (
            receive_handshake,
            read_frame-to_bytes (handshake_frame k (own_handshake other)) hello'
                theirs.hello_travels,
          )
          (ap (λ r. (r.0, elim r.1 [ ok q ↦ q | err e ↦ none ])) welcome-eq)

  -- Two nodes whose handshake messages and acknowledgments keep the size limit and are read back by
  -- JSON and base64, on WebSockets that take their frames: the one that connects and the one that
  -- accepts send exactly what the other reads, and each makes a peer of the other, with the id, the
  -- name and both public keys of the other's wallet.
  pub handshake_agrees :
      (a b : P2PNode) (wa wb : ℕ) (host_a host_b : Str) (port_a port_b now : ℕ)
      (hello_a ack_a hello_b ack_b : Bytes)
      → Introduces k a hello_a ack_a
      → Introduces k b hello_b ack_b
      → IsBase64 k
      → ((ws : ℕ) (bytes : Bytes) → accepts ws bytes ≡ true)
      → (perform_handshake k accepts a wa host_b port_b now (some hello_b) (some ack_b)
          ≡ (logged (logged a wa hello_a) wa ack_a, ok (some (peer_at b host_b port_b now))))
        × (receive_handshake k accepts b wb host_a port_a now (some hello_a) (some ack_a)
            ≡ (logged (logged b wb hello_b) wb ack_b, some (peer_at a host_a port_a now)))
  unfolding peer_of own_handshake peer_id
  handshake_agrees a b wa wb host_a host_b port_a port_b now hello_a ack_a hello_b ack_b ia ib b64
        takes =
      (
        perform_handshake-eq a b wa host_b port_b now hello_a ack_a hello_b ack_b ia ib b64 takes,
        receive_handshake-eq b a wb host_a port_a now hello_b ack_b hello_a ack_a ib ia b64 takes,
      )
