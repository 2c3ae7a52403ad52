-- ===== src/Client/Discovery.antt =====
-- src/client/client.py and src/server/registry.py: what the client and the registry server know of
-- each other after a registration.
use blockchain_messaging_pro.Common.{
  ℕ, suc, ◌≡◌, ◌≢◌, refl, Option, ap, ◌∙◌, subst, Bool, true, none, some, [], ◌∷◌, ◌++◌, map, Str,
  Bytes, arith, str_beq, str_eq, if◌then◌else◌, ok,
}
use blockchain_messaging_pro.Common.Dict
use blockchain_messaging_pro.Common.Dict.{Dict, IsUnique, get-put, get-put_same, put-IsUnique}
use blockchain_messaging_pro.Json.{obj, Fields}
use blockchain_messaging_pro.Crypto.{Wallet, address}
use blockchain_messaging_pro.Handshake.{handshake_to_dict, handshake_frame}
use blockchain_messaging_pro.Handshake.RoundTrip.{ReadsBack}
use blockchain_messaging_pro.Message.Packing.{Codecs, IsBase64}
use blockchain_messaging_pro.P2P.Exchange.{Travels}
use blockchain_messaging_pro.Registry.{
  Registry, RegisteredClient, register, to_dict, peers_but, get_peer_list,
}
use blockchain_messaging_pro.Registry
use blockchain_messaging_pro.Registry.Expiry.{Reach, Reach-IsUnique}
use blockchain_messaging_pro.Registry.Keys.{HasKeys, Reach-HasKeys, put-HasKeys}
use blockchain_messaging_pro.Registry.Server.{RegistryServer, handle_connection, handle_message}
use blockchain_messaging_pro.Registry.Greeting.{
  Greets, Carries, others, replied, enrolled, handle_connection-eq, handle_message-update_port,
}
use blockchain_messaging_pro.Client.{Client}
use blockchain_messaging_pro.Client.Registration.{client_handshake, port_update, add_listed}
use blockchain_messaging_pro.Client.Registration
use blockchain_messaging_pro.Client.Joining.{get-add_listed, told, informed, register-eq}

-- the wallet as the registry has it
abbrev pub entry_of : Wallet → Str → ℕ → ℕ → ℕ → RegisteredClient
entry_of w host port registered_at last_seen = record {
  peer_id = address w;
  name = some w.name;
  address = host;
  port = port;
  public_key = w.signing_keys.public_key;
  encryption_key = w.encryption_keys.public_key;
  registered_at = registered_at;
  last_seen = last_seen;
}

-- what the client learns from the server's list
learned :
    (base64 : Bytes → Str) (repr : ℕ → Str) (own : Str) (d : Dict Str RegisteredClient)
    (known : Dict Str Fields)
    → own ≢ []
    → IsUnique d
    → HasKeys d
    → let r = add_listed known (map obj (peers_but base64 repr (some own) (Dict.values d))) in
      (r.1 ≡ true)
      × ((id : Str)
          → Dict.get r.0 id ≡ (
              if str_beq own id then Dict.get known id else elim (Dict.get d id) [
                | none ↦ Dict.get known id
                | some other ↦ some (to_dict base64 repr other)
              ]))
learned base64 repr [] d known some_id u h = absurd (some_id refl)
learned base64 repr (x ∷ xs) d known some_id u h = (
  (get-add_listed base64 repr x xs d known [] u h).0,
  λ id. (get-add_listed base64 repr x xs d known id u h).1,
)

-- An entry of its own does not change what a client learns.
own_entry :
    (base64 : Bytes → Str) (repr : ℕ → Str) (own : Str) (d : Dict Str RegisteredClient)
    (c : RegisteredClient) (o : Option Fields) (id : Str)
    → (if str_beq own id then o else elim (Dict.get (Dict.put d own c) id) [
      | none ↦ o
      | some other ↦ some (to_dict base64 repr other)
    ])
      ≡ (if str_beq own id
          then o
          else elim (Dict.get d id) [ none ↦ o | some other ↦ some (to_dict base64 repr other) ])
own_entry base64 repr own d c o id = ground (arith, get-put d own id c)

module _ (k : Codecs) (repr : ℕ → Str) (accepts : ℕ → Bytes → Bool) where
  -- A client with a wallet registers with the server, every message goes through, and both can read
  -- what the other sends. The server answers with its handshake message, its acknowledgment and its
  -- list. The client's call returns true, and it then knows under every id but its own the client that
  -- the server has registered there, and where there is none what it knew before. When its update
  -- arrives, the server has the client under its address, with its name, its keys and its port.
  pub register-handle_connection :
      (c : Client) (w : Wallet) (s : RegistryServer) (ws ws' now now' port expiry_time : ℕ)
      (host : Str) (hello hello' confirmed list update : Bytes)
      → IsBase64 k
      → ((ws : ℕ) (bytes : Bytes) → accepts ws bytes ≡ true)
      → c.wallet ≡ some w
      → c.config.p2p_port ≡ suc port
      → address w ≢ []
      → Reach expiry_time s.registry
      → Travels (handshake_frame k (client_handshake w)) hello
      → ReadsBack k (handshake_to_dict k (client_handshake w))
      → Greets k s hello' confirmed
      → Carries k (others k repr s now host (client_handshake w)) list
      → Carries k (port_update c.config.p2p_port) update
      → let t = (handle_connection k repr accepts s ws host now (some hello)).0 in
        (t.sent ≡ ((s.sent ++ ((ws, hello') ∷ [])) ++ ((ws, confirmed) ∷ [])) ++ ((ws, list) ∷ []))
        × ((c' : Client) × (Registration.register k accepts c
                (some ws')
                (some hello')
                (some confirmed)
                (some list)
              ≡ ok (c', true))
            × (c'.sent ≡ (c.sent ++ ((ws', hello) ∷ [])) ++ ((ws', update) ∷ []))
            × ((id : Str)
                → Dict.get c'.peers id ≡ (
                    if str_beq (address w) id
                    then Dict.get c.peers id
                    else elim (Registry.get s.registry id) [
                      | none ↦ Dict.get c.peers id
                      | some other ↦ some (to_dict k.b64encode repr other)
                    ])))
        × (Registry.get
              (handle_message k repr accepts t now' update (address w) ws).registry
              (address w)
            ≡ some (entry_of w host (suc port) now now'))
  unfolding client_handshake register get_peer_list Registry.get
  register-handle_connection c w s ws ws' now now' port expiry_time host hello hello' confirmed list
        update b64 takes owned at_port some_id reach arrives reads greets carries updates =
      let own = address w in
      let entry = entry_of w host 8766 now now in
      let d = Dict.put s.registry.clients own entry in
      let (read, found) =
        learned k.b64encode repr own d c.peers some_id
          (put-IsUnique s.registry.clients own entry (Reach-IsUnique reach))
          (put-HasKeys s.registry.clients own entry refl (Reach-HasKeys reach)) in
      let peers = peers_but k.b64encode repr (some own) (Dict.values d) in
      let served =
        handle_connection-eq k repr accepts takes s ws now host (client_handshake w) hello hello'
          confirmed list b64 arrives reads greets carries in
      let t : RegistryServer =
        record (replied
          (replied (replied (enrolled s now host (client_handshake w)) ws hello') ws confirmed) ws
          list) { connections = Dict.put s.connections own ws } in
      (
        ap (λ r. r.0.sent) served,
        (
          told (informed c ws' peers hello) ws' update,
          register-eq k accepts takes c w s ws' peers hello hello' confirmed list update b64 owned
              arrives greets carries updates read,
          refl,
          λ id.
              found id
              ∙ own_entry k.b64encode repr own s.registry.clients entry (Dict.get c.peers id) id,
        ),
        ap (λ r. Registry.get (handle_message k repr accepts r.0 now' update own ws).registry own)
              served
            ∙ handle_message-update_port k repr accepts takes t ws now' port own update entry
                (subst (λ p. Carries k (port_update p) update) at_port updates)
                (get-put_same s.registry.clients own entry),
      )
