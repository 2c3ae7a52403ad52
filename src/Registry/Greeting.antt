-- ===== src/Registry/Greeting.antt =====
-- src/server/registry.py: what the server does with a client whose messages it can read.
use blockchain_messaging_pro.Common.{
  ℕ, suc, ◌≡◌, refl, ap, ◌∙◌, Bool, true, false, none, some, List, [], ◌∷◌, ◌++◌, Str, Bytes,
  if◌then◌else◌, ok, str_eq,
}
use blockchain_messaging_pro.Common.Dict
use blockchain_messaging_pro.Common.Dict.{get-put_same}
use blockchain_messaging_pro.Json.{Fields, get_field}
use blockchain_messaging_pro.Frame.{ProtocolFrame, to_bytes, data_of}
use blockchain_messaging_pro.Handshake.{
  HandshakeMessage, handshake_to_dict, handshake_frame, ack_fields, ack_frame, payload_fields,
}
use blockchain_messaging_pro.Handshake.RoundTrip.{ReadsBack, handshake_from_frame-frame}
use blockchain_messaging_pro.Message.Packing.{Codecs, IsBase64}
use blockchain_messaging_pro.Client.Registration.{port_update}
use blockchain_messaging_pro.P2P.Exchange.{Travels, read_frame-to_bytes}
use blockchain_messaging_pro.Registry.{
  Registry, RegisteredClient, register, get_peer_list, update_seen, set_port,
}
use blockchain_messaging_pro.Registry
use blockchain_messaging_pro.Registry.Server.{
  RegistryServer, server_handshake, server_ack, reply_frame, peer_list_reply, text_at, update_port,
  send_to, send_each, welcome_client, handle_handshake, handle_command, handle_message,
  handle_connection,
}

-- the server after some bytes are sent
abbrev pub replied : RegistryServer → ℕ → Bytes → RegistryServer
replied s ws bytes = record s { sent = s.sent ++ ((ws, bytes) ∷ []) }

-- the server with the client of a handshake message in its registry
abbrev pub enrolled : RegistryServer → ℕ → Str → HandshakeMessage → RegistryServer
enrolled s now host hello = record s {
  registry =
      (register s.registry now hello.peer_id hello.name host 8766 hello.signing_key
        hello.encryption_key).0;
}

-- the other clients, as the server lists them for this one
abbrev pub others : Codecs → (ℕ → Str) → RegistryServer → ℕ → Str → HandshakeMessage → Fields
others k repr s now host hello =
    peer_list_reply
      (get_peer_list k.b64encode repr (enrolled s now host hello).registry (some hello.peer_id))

-- a frame with a dictionary, as these bytes
pub record Carries (k : Codecs) (fs : Fields) (bytes : Bytes) : Type 0 where
  pub travels : Travels (reply_frame fs) bytes
  pub reads : ReadsBack k fs

-- How the server introduces itself: the bytes of its handshake message and of its acknowledgment,
-- which a receiver can read.
pub record Greets (k : Codecs) (s : RegistryServer) (hello confirmed : Bytes) : Type 0 where
  pub hello_travels : Travels (handshake_frame k (server_handshake s)) hello
  pub hello_reads : ReadsBack k (handshake_to_dict k (server_handshake s))
  pub ack_travels : Travels (ack_frame k (server_ack s)) confirmed
  pub ack_reads : ReadsBack k (ack_fields k (server_ack s))

pub payload_fields-reply_frame :
    (k : Codecs) (fs : Fields) → ReadsBack k fs → payload_fields k (reply_frame fs) ≡ ok fs
unfolding payload_fields reply_frame data_of
payload_fields-reply_frame k fs back = rw (back.decodes, back.parses) refl

get-set_port :
    (r : Registry) (id : Str) (port : ℕ) (c : RegisteredClient)
    → Registry.get r id ≡ some c
    → Registry.get (set_port r id port) id ≡ some (record c { port = port })
unfolding Registry.get set_port
get-set_port r id port c found =
    rw (set_port, found) (get-put_same r.clients id (record c { port = port }))

get-update_seen :
    (r : Registry) (now : ℕ) (id : Str) (c : RegisteredClient)
    → Registry.get r id ≡ some c
    → Registry.get (update_seen r now id).0 id ≡ some (record c { last_seen = now })
unfolding Registry.get update_seen
get-update_seen r now id c found =
    rw (update_seen, found) (get-put_same r.clients id (record c { last_seen = now }))

module _ (k : Codecs) (repr : ℕ → Str) (accepts : ℕ → Bytes → Bool)
    (takes : (ws : ℕ) (bytes : Bytes) → accepts ws bytes ≡ true) where
  send_to-eq :
      (s : RegistryServer) (ws : ℕ) (frame : ProtocolFrame) (bytes : Bytes)
      → to_bytes frame ≡ ok bytes
      → send_to k repr accepts s ws frame ≡ (replied s ws bytes, true)
  unfolding send_to
  send_to-eq s ws frame bytes e = rw (send_to, e, takes ws bytes) refl

  send_each-cons :
      (s : RegistryServer) (ws : ℕ) (f : ProtocolFrame) (fs : List ProtocolFrame) (x : Bytes)
      → to_bytes f ≡ ok x
      → send_each k repr accepts s ws (f ∷ fs) ≡ send_each k repr accepts (replied s ws x) ws fs
  unfolding send_each
  send_each-cons s ws f fs x e =
      ap (λ r. elim r.1 [ false ↦ (r.0, false) | true ↦ send_each k repr accepts r.0 ws fs ])
        (send_to-eq s ws f x e)

  send_three :
      (s : RegistryServer) (ws : ℕ) (f g h : ProtocolFrame) (x y z : Bytes)
      → to_bytes f ≡ ok x
      → to_bytes g ≡ ok y
      → to_bytes h ≡ ok z
      → send_each k repr accepts s ws (f ∷ g ∷ h ∷ [])
        ≡ (replied (replied (replied s ws x) ws y) ws z, true)
  unfolding send_each
  send_three s ws f g h x y z a b c =
      send_each-cons s ws f (g ∷ h ∷ []) x a
      ∙ send_each-cons (replied s ws x) ws g (h ∷ []) y b
      ∙ send_each-cons (replied (replied s ws x) ws y) ws h [] z c

  module _ (s : RegistryServer) (ws now : ℕ) (host : Str) (hello : HandshakeMessage)
      (bytes hello' confirmed list : Bytes) (b64 : IsBase64 k)
      (arrives : Travels (handshake_frame k hello) bytes)
      (reads : ReadsBack k (handshake_to_dict k hello)) (greets : Greets k s hello' confirmed)
      (carries : Carries k (others k repr s now host hello) list) where
    welcome_client-eq : welcome_client k repr accepts s ws host now hello ≡ (
      replied (replied (replied (enrolled s now host hello) ws hello') ws confirmed) ws list,
      some hello.peer_id,
    )
    unfolding welcome_client server_handshake server_ack
    welcome_client-eq =
        ap (λ r. (r.0, if r.1 then some hello.peer_id else none))
          (send_three (enrolled s now host hello) ws _ _ _ hello' confirmed list
            greets.hello_travels.written greets.ack_travels.written carries.travels.written)

    handle_handshake-eq : handle_handshake k repr accepts s ws host now (some bytes) ≡ (
      replied (replied (replied (enrolled s now host hello) ws hello') ws confirmed) ws list,
      some hello.peer_id,
    )
    unfolding handle_handshake handshake_frame
    handle_handshake-eq =
        rw
          (
            handle_handshake,
            read_frame-to_bytes (handshake_frame k hello) bytes arrives,
            handshake_from_frame-frame k hello b64 reads,
          )
          welcome_client-eq

    -- the server after a client has introduced itself
    pub handle_connection-eq : handle_connection k repr accepts s ws host now (some bytes) ≡ (
      record (replied
          (replied (replied (enrolled s now host hello) ws hello') ws confirmed)
          ws
          list) { connections = Dict.put s.connections hello.peer_id ws },
      some hello.peer_id,
    )
    unfolding handle_connection
    handle_connection-eq =
        ap
          (λ r. elim r.1 [
            | none ↦ (record r.0 { closed = r.0.closed ++ (ws ∷ []) }, none)
            | some peer_id ↦
                (record r.0 { connections = Dict.put r.0.connections peer_id ws }, some peer_id)
          ])
          handle_handshake-eq

  -- the port of a client after its update arrives
  pub handle_message-update_port :
      (s : RegistryServer) (ws now port : ℕ) (id : Str) (bytes : Bytes) (c : RegisteredClient)
      → Carries k (port_update (suc port)) bytes
      → Registry.get s.registry id ≡ some c
      → Registry.get (handle_message k repr accepts s now bytes id ws).registry id
        ≡ some (record c { last_seen = now; port = suc port })
  unfolding handle_message handle_command update_port port_update text_at get_field reply_frame
      data_of Registry.get
  handle_message-update_port s ws now port id bytes c carries found =
      let after : handle_message k repr accepts s now bytes id ws
          ≡ record s { registry = set_port (update_seen s.registry now id).0 id (suc port) } =
        rw
          (
            handle_message,
            read_frame-to_bytes (reply_frame (port_update (suc port))) bytes carries.travels,
            payload_fields-reply_frame k (port_update (suc port)) carries.reads,
          )
          refl in
      ap (λ t. Registry.get t.registry id) after
      ∙ get-set_port (update_seen s.registry now id).0 id (suc port) (record c { last_seen = now })
          (get-update_seen s.registry now id c found)
