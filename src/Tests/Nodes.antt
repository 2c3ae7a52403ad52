-- ===== src/Tests/Nodes.antt =====
-- Two nodes that introduce themselves to each other, and a peer that comes back.
use blockchain_messaging_pro.Common.{
  ◌≡◌, ◌∷◌, refl, true, false, none, some, [], Bytes, codes, encode, str_beq, if◌then◌else◌, Result,
  ok, err, arith, str_eq,
}
use blockchain_messaging_pro.Crypto.{Wallet, address, public_key_hex, hex}
use blockchain_messaging_pro.Frame.{to_bytes, code, pack_u32}
use blockchain_messaging_pro.Json.{end, obj, Fields, dumps}
use blockchain_messaging_pro.Handshake.{handshake_to_dict, handshake_frame, ack_fields, ack_frame}
use blockchain_messaging_pro.Message.Packing.{Codecs, IsBase64}
use blockchain_messaging_pro.Peers.{disconnected}
use blockchain_messaging_pro.P2P.{
  P2PNode, connection_for, get_peer, attach, handle_disconnect, own_handshake, own_ack, peer_id,
  perform_handshake, receive_handshake,
}
use blockchain_messaging_pro.P2P.Connections.{accept_connection, send_message}
use blockchain_messaging_pro.Message.{MessagePayload, text}
use blockchain_messaging_pro.P2P.Listed.{IsListed, no_connections}
use blockchain_messaging_pro.P2P.Runs
use blockchain_messaging_pro.P2P.Runs.{admits, Reach-IsListed}
use blockchain_messaging_pro.P2P.Exchange.{Introduces, logged, peer_at, handshake_agrees}
use blockchain_messaging_pro.P2P.Delivery.{handle_disconnect-attach}
use blockchain_messaging_pro.Tests.Wallets.{alice, bob, plain_codecs, peer_with, lone_node}

abbrev hello_of : Wallet → Fields
hello_of w = handshake_to_dict plain_codecs (own_handshake (lone_node w))

abbrev ack_of : Wallet → Fields
ack_of w = ack_fields plain_codecs (own_ack (lone_node w))

-- JSON that reads back the four texts of the two nodes
abbrev node_codecs : Codecs
node_codecs = record plain_codecs {
  loads = λ t.
      if str_beq t (dumps false (obj (hello_of alice)))
      then ok (obj (hello_of alice))
      else if str_beq t (dumps false (obj (hello_of bob)))
      then ok (obj (hello_of bob))
      else if str_beq t (dumps false (obj (ack_of alice)))
      then ok (obj (ack_of alice))
      else ok (obj (ack_of bob));
}

node_codecs-IsBase64 : IsBase64 node_codecs
node_codecs-IsBase64 = record { decodes = λ b. refl; not_empty = λ x xs. (x, xs, refl) }

abbrev pub bytes_of : Result Bytes → Bytes
bytes_of (ok b) = b
bytes_of (err e) = []

abbrev hello_bytes : Wallet → Bytes
hello_bytes w = bytes_of (to_bytes (handshake_frame node_codecs (own_handshake (lone_node w))))

abbrev ack_bytes : Wallet → Bytes
ack_bytes w = bytes_of (to_bytes (ack_frame node_codecs (own_ack (lone_node w))))

alice-Introduces : Introduces node_codecs (lone_node alice) (hello_bytes alice) (ack_bytes alice)
unfolding to_bytes code pack_u32 handshake_frame ack_frame encode dumps handshake_to_dict
    own_handshake own_ack peer_id ack_fields address public_key_hex hex
alice-Introduces = record {
  hello_travels = record { written = refl; small = omega arith };
  hello_reads = record { decodes = refl; parses = refl };
  ack_travels = record { written = refl; small = omega arith };
  ack_reads = record { decodes = refl; parses = refl };
}

bob-Introduces : Introduces node_codecs (lone_node bob) (hello_bytes bob) (ack_bytes bob)
unfolding to_bytes code pack_u32 handshake_frame ack_frame encode dumps handshake_to_dict
    own_handshake own_ack peer_id ack_fields address public_key_hex hex
bob-Introduces = record {
  hello_travels = record { written = refl; small = omega arith };
  hello_reads = record { decodes = refl; parses = refl };
  ack_travels = record { written = refl; small = omega arith };
  ack_reads = record { decodes = refl; parses = refl };
}

handshake_agrees_example :
    let a = lone_node alice in
    let b = lone_node bob in
    (perform_handshake node_codecs
        (λ ws bytes. true)
        a
        1
        (codes "b")
        2
        3
        (some (hello_bytes bob))
        (some (ack_bytes bob))
      ≡ (
        logged (logged a 1 (hello_bytes alice)) 1 (ack_bytes alice),
        ok (some (peer_at b (codes "b") 2 3)),
      ))
    × (receive_handshake node_codecs
          (λ ws bytes. true)
          b
          4
          (codes "a")
          5
          3
          (some (hello_bytes alice))
          (some (ack_bytes alice))
        ≡ (
          logged (logged b 4 (hello_bytes bob)) 4 (ack_bytes bob),
          some (peer_at a (codes "a") 5 3),
        ))
handshake_agrees_example =
    handshake_agrees node_codecs (λ ws bytes. true) (lone_node alice) (lone_node bob) 1 4
      (codes "a") (codes "b") 5 2 3 (hello_bytes alice) (ack_bytes alice) (hello_bytes bob)
      (ack_bytes bob) alice-Introduces bob-Introduces node_codecs-IsBase64 (λ ws bytes. refl)

abbrev twice : P2PNode
twice = attach (attach (lone_node alice) 9 (peer_with bob)) 8 (peer_with bob)

abbrev greeting : MessagePayload
greeting = record {
  id = codes "m";
  kind = text;
  sender = codes "alice";
  recipient = codes "bob";
  content = 104 ∷ [];
  timestamp = codes "1.0";
  metadata = end;
  signature = [];
  nonce = none;
  chunk_info = none;
}

handle_disconnect-attach_example :
    (connection_for twice (codes "bob") ≡ some 8)
    × (get_peer (handle_disconnect twice 1 (peer_with bob)) (codes "bob")
        ≡ some (record (peer_with bob) { state = disconnected }))
    × (send_message node_codecs
          (λ ws bytes. true)
          (handle_disconnect twice 1 (peer_with bob))
          greeting
          (codes "bob")
        ≡ (handle_disconnect twice 1 (peer_with bob), false))
handle_disconnect-attach_example =
    handle_disconnect-attach node_codecs (λ ws bytes. true) (lone_node alice) 9 8 1 (peer_with bob)
      (peer_with bob) greeting refl

Reach-IsListed_example :
    IsListed
      (accept_connection node_codecs
        (λ ws bytes. true)
        (lone_node alice)
        4
        (codes "b")
        5
        3
        (some (hello_bytes bob))
        (some (ack_bytes bob))).0
Reach-IsListed_example =
    Reach-IsListed node_codecs (λ ws bytes. true) (no_connections [])
      (Runs.next Runs.here
        (admits 4 (codes "b") 5 3 (some (hello_bytes bob)) (some (ack_bytes bob))))
