-- ===== src/Client/Joining.antt =====
-- src/client/client.py and src/server/registry.py: a client that registers with the registry server.
use blockchain_messaging_pro.Common.{
  Bool-cases, inl, inr, ℕ, ◌≡◌, refl, ap, ◌∙◌, Bool, true, false, none, some, List, [], ◌∷◌, ◌++◌,
  map, Str, Bytes, arith, str_beq, str_beq_iff, str_eq, if◌then◌else◌, ok, err, runtime_error,
}
use blockchain_messaging_pro.Common.Dict
use blockchain_messaging_pro.Common.Dict.{Dict, IsUnique, get-put, contains-eq-get}
use blockchain_messaging_pro.Json.{obj, Fields, get_field}
use blockchain_messaging_pro.Block.{str_at}
use blockchain_messaging_pro.Registry.{RegisteredClient, to_dict, peers_but}
use blockchain_messaging_pro.Registry.Keys.{HasKeys}
use blockchain_messaging_pro.Client.{Client}
use blockchain_messaging_pro.Crypto.{Wallet}
use blockchain_messaging_pro.Frame.{ProtocolFrame, to_bytes, data_of}
use blockchain_messaging_pro.Handshake.{handshake_frame, ack_frame}
use blockchain_messaging_pro.Handshake.RoundTrip.{handshake_from_frame-frame, ack_from_frame-frame}
use blockchain_messaging_pro.Chain.Storage.{to_list-items}
use blockchain_messaging_pro.Message.Packing.{Codecs, IsBase64}
use blockchain_messaging_pro.P2P.Exchange.{Travels, read_frame-to_bytes}
use blockchain_messaging_pro.Registry.Server.{
  RegistryServer, server_handshake, server_ack, reply_frame, peer_list_reply, text_at,
}
use blockchain_messaging_pro.Registry.Greeting.{Greets, Carries, payload_fields-reply_frame}
use blockchain_messaging_pro.Client.Registration.{
  client_handshake, port_update, listed, add_listed, take_list, send_registry, reads_hello,
  reads_ack, reads_list, learn_peers, await_registry, register_on, register,
}

-- What a client knows after the list of all the registered clients but itself: under another id,
-- the registered client that has it, and otherwise what it knew before.
pub get-add_listed :
    (base64 : Bytes → Str) (repr : ℕ → Str) (x : ℕ) (xs : Str) (d : Dict Str RegisteredClient)
    (known : Dict Str Fields) (id : Str)
    → IsUnique d
    → HasKeys d
    → let r = add_listed known (map obj (peers_but base64 repr (some (x ∷ xs)) (Dict.values d))) in
      (r.1 ≡ true)
      × (Dict.get r.0 id ≡ (
          if str_beq (x ∷ xs) id then Dict.get known id else elim (Dict.get d id) [
            | none ↦ Dict.get known id
            | some c ↦ some (to_dict base64 repr c)
          ]))
unfolding add_listed peers_but Dict.get to_dict str_at get_field
get-add_listed base64 repr x xs [] known id u h = (refl, ground arith)
get-add_listed base64 repr x xs ((j, c) ∷ d) known id (fresh, u) (e, h) =
    elim (Bool-cases (str_beq c.peer_id (x ∷ xs))) [
      | inl t ↦
          let (read, found) = get-add_listed base64 repr x xs d known id u h in
          rw (t) (
            read,
            ground (
              arith,
              found,
              e,
              t,
              str_beq_iff c.peer_id (x ∷ xs),
              str_beq_iff j id,
              str_beq_iff (x ∷ xs) id,
            ),
          )
      | inr t ↦
          let (read, found) =
            get-add_listed base64 repr x xs d (Dict.put known c.peer_id (to_dict base64 repr c)) id
              u h in
          rw (t) (
            read,
            ground (
              arith,
              found,
              e,
              t,
              fresh,
              str_beq_iff c.peer_id (x ∷ xs),
              str_beq_iff j id,
              str_beq_iff (x ∷ xs) id,
              contains-eq-get d j,
              get-put known c.peer_id id (to_dict base64 repr c),
            ),
          )
    ]

-- the client after some bytes are sent to the registry
abbrev pub told : Client → ℕ → Bytes → Client
told c ws bytes = record c { sent = c.sent ++ ((ws, bytes) ∷ []) }

-- the client that knows the listed peers
abbrev pub informed : Client → ℕ → List Fields → Bytes → Client
informed c ws peers hello = record c {
  registry_ws = some ws;
  peers = (add_listed c.peers (map obj peers)).0;
  sent = c.sent ++ ((ws, hello) ∷ []);
}

module _ (k : Codecs) (accepts : ℕ → Bytes → Bool)
    (takes : (ws : ℕ) (bytes : Bytes) → accepts ws bytes ≡ true) where
  send_registry-eq :
      (c : Client) (ws : ℕ) (frame : ProtocolFrame) (bytes : Bytes)
      → to_bytes frame ≡ ok bytes
      → send_registry k accepts c ws frame ≡ (told c ws bytes, true)
  unfolding send_registry
  send_registry-eq c ws frame bytes e = rw (send_registry, e, takes ws bytes) refl

  module _ (s : RegistryServer) (b64 : IsBase64 k) (hello' confirmed : Bytes)
      (greets : Greets k s hello' confirmed) where
    reads_hello-eq : reads_hello k accepts (some hello') ≡ true
    unfolding reads_hello handshake_frame
    reads_hello-eq =
        rw
          (
            reads_hello,
            read_frame-to_bytes (handshake_frame k (server_handshake s)) hello'
                greets.hello_travels,
            handshake_from_frame-frame k (server_handshake s) b64 greets.hello_reads,
          )
          refl

    reads_ack-eq : reads_ack k accepts (some confirmed) ≡ some true
    unfolding reads_ack ack_frame server_ack
    reads_ack-eq =
        rw
          (
            reads_ack,
            read_frame-to_bytes (ack_frame k (server_ack s)) confirmed greets.ack_travels,
            ack_from_frame-frame k (server_ack s) greets.ack_reads,
          )
          refl

  reads_list-eq :
      (known : Dict Str Fields) (peers : List Fields) (list : Bytes)
      → Carries k (peer_list_reply peers) list
      → reads_list k accepts known (some list) ≡ add_listed known (map obj peers)
  unfolding reads_list reply_frame data_of take_list listed peer_list_reply text_at get_field
  reads_list-eq known peers list carries =
      rw
        (
          reads_list,
          read_frame-to_bytes (reply_frame (peer_list_reply peers)) list carries.travels,
          payload_fields-reply_frame k (peer_list_reply peers) carries.reads,
          to_list-items (map obj peers),
        )
        refl

  module _ (c : Client) (w : Wallet) (s : RegistryServer) (ws : ℕ) (peers : List Fields)
      (hello hello' confirmed list update : Bytes) (b64 : IsBase64 k) (owned : c.wallet ≡ some w)
      (arrives : Travels (handshake_frame k (client_handshake w)) hello)
      (greets : Greets k s hello' confirmed) (carries : Carries k (peer_list_reply peers) list)
      (updates : Carries k (port_update c.config.p2p_port) update)
      (read : (add_listed c.peers (map obj peers)).1 ≡ true) where
    learn_peers-eq :
        learn_peers k accepts (told (record c { registry_ws = some ws }) ws hello) ws (some list)
        ≡ (told (informed c ws peers hello) ws update, true)
    unfolding learn_peers reply_frame
    learn_peers-eq =
        let start : Client = told (record c { registry_ws = some ws }) ws hello in
        ap
          (λ r. elim r.1 [
            | false ↦ (record start { peers = r.0 }, false)
            | true ↦
                send_registry k accepts (record start { peers = r.0 }) ws
                  (reply_frame (port_update c.config.p2p_port))
          ])
          (reads_list-eq c.peers peers list carries)
        ∙ rw (read) (
            send_registry-eq (informed c ws peers hello) ws
              (reply_frame (port_update c.config.p2p_port)) update updates.travels.written)

    pub register-eq :
        register k accepts c (some ws) (some hello') (some confirmed) (some list)
        ≡ ok (told (informed c ws peers hello) ws update, true)
    unfolding register register_on await_registry
    register-eq =
        ap
          (λ o. elim o [
            | none ↦ err runtime_error
            | some v ↦ ok (register_on k accepts c v ws (some hello') (some confirmed) (some list))
          ])
          owned
        ∙ ap
            (λ r. ok (elim r.1 [
              | false ↦ (r.0, false)
              | true ↦ await_registry k accepts r.0 ws (some hello') (some confirmed) (some list)
            ]))
            (send_registry-eq (record c { registry_ws = some ws }) ws
              (handshake_frame k (client_handshake w)) hello arrives.written)
        ∙ ap ok (
            rw
              (
                await_registry,
                reads_hello-eq s b64 hello' confirmed greets,
                reads_ack-eq s b64 hello' confirmed greets,
              )
              learn_peers-eq)
