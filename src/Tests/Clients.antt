-- ===== src/Tests/Clients.antt =====
-- A client that registers with a server, starts, and sends.
use blockchain_messaging_pro.Common.{
  ℕ, ◌≡◌, ◌≢◌, refl, true, false, List, map, none, some, [], ◌∷◌, ◌++◌, Str, Bytes, codes, encode,
  str_beq, if◌then◌else◌, ok, arith, str_eq,
}
use blockchain_messaging_pro.Common.Dict
use blockchain_messaging_pro.Json.{get_field, obj, Fields, dumps}
use blockchain_messaging_pro.Crypto.{address, public_key_hex, hex}
use blockchain_messaging_pro.Frame.{to_bytes, data_of, code, pack_u32}
use blockchain_messaging_pro.Handshake.{handshake_to_dict, handshake_frame, ack_fields, ack_frame}
use blockchain_messaging_pro.Handshake.RoundTrip.{ReadsBack}
use blockchain_messaging_pro.Message.Packing.{Codecs, IsBase64}
use blockchain_messaging_pro.P2P.Exchange.{Travels}
use blockchain_messaging_pro.Registry.{
  register, to_dict, peers_but, get_peer_list, empty_registry, RegisteredClient,
}
use blockchain_messaging_pro.Registry
use blockchain_messaging_pro.Registry.Expiry.{start, later, registers}
use blockchain_messaging_pro.Registry.Server.{
  RegistryServer, server_handshake, server_ack, peer_list_reply, reply_frame, handle_connection,
  handle_message,
}
use blockchain_messaging_pro.Registry.Greeting.{Carries, Greets, others, enrolled}
use blockchain_messaging_pro.Sync.{pos}
use blockchain_messaging_pro.Client.{ClientConfig, Client, unloaded}
use blockchain_messaging_pro.Client.Registration.{client_handshake, port_update, add_listed}
use blockchain_messaging_pro.Client.Joining.{told, informed, register-eq}
use blockchain_messaging_pro.Block.{str_at}
use blockchain_messaging_pro.Client.Registration
use blockchain_messaging_pro.Client.Directory.{IsDirectory, register-IsDirectory}
use blockchain_messaging_pro.Client.Discovery.{entry_of, register-handle_connection}
use blockchain_messaging_pro.Tests.Wallets.{alice, bob, plain_codecs}
use blockchain_messaging_pro.Tests.Nodes.{bytes_of}

abbrev pub a_config : ClientConfig
a_config = record { p2p_port = 8800; registry_host = codes "localhost"; registry_port = pos 8765 }

-- a client that has only a wallet
abbrev pub a_client : Client
a_client = record {
  config = a_config;
  wallet_file = none;
  blockchain_file = none;
  wallet = some alice;
  held_chain = unloaded;
  engine = none;
  registry_ws = none;
  peers = [];
  running = false;
  sent = [];
  closed = [];
}

-- the server with a client that came before
abbrev busy_server : RegistryServer
busy_server = record {
  wallet = bob;
  registry = (register (empty_registry 300) 1 (codes "carol") none (codes "h") 9 [] []).0;
  connections = [];
  running = true;
  sent = [];
  closed = [];
}

abbrev no_text : ℕ → Str
no_text t = []

abbrev client_texts : Fields
client_texts = handshake_to_dict plain_codecs (client_handshake alice)

abbrev server_texts : Fields
server_texts = handshake_to_dict plain_codecs (server_handshake busy_server)

abbrev server_acks : Fields
server_acks = ack_fields plain_codecs (server_ack busy_server)

abbrev listed_texts : Fields
listed_texts = others plain_codecs no_text busy_server 5 (codes "host") (client_handshake alice)

abbrev port_texts : Fields
port_texts = port_update 8800

-- JSON that reads back the texts of the client and the server
abbrev meeting_codecs : Codecs
meeting_codecs = record plain_codecs {
  loads = λ t.
      if str_beq t (dumps false (obj client_texts))
      then ok (obj client_texts)
      else if str_beq t (dumps false (obj server_texts))
      then ok (obj server_texts)
      else if str_beq t (dumps false (obj server_acks))
      then ok (obj server_acks)
      else if str_beq t (dumps false (obj listed_texts))
      then ok (obj listed_texts)
      else ok (obj port_texts);
}

meeting_codecs-IsBase64 : IsBase64 meeting_codecs
meeting_codecs-IsBase64 = record { decodes = λ b. refl; not_empty = λ x xs. (x, xs, refl) }

abbrev client_hello : Bytes
client_hello = bytes_of (to_bytes (handshake_frame meeting_codecs (client_handshake alice)))

abbrev server_hello : Bytes
server_hello = bytes_of (to_bytes (handshake_frame meeting_codecs (server_handshake busy_server)))

abbrev server_confirms : Bytes
server_confirms = bytes_of (to_bytes (ack_frame meeting_codecs (server_ack busy_server)))

abbrev server_lists : Bytes
server_lists = bytes_of (to_bytes (reply_frame listed_texts))

abbrev client_moves : Bytes
client_moves = bytes_of (to_bytes (reply_frame port_texts))

alice-Travels : Travels (handshake_frame meeting_codecs (client_handshake alice)) client_hello
unfolding to_bytes code pack_u32 handshake_frame encode dumps handshake_to_dict client_handshake
    address public_key_hex hex
alice-Travels = record { written = refl; small = omega arith }

alice-ReadsBack : ReadsBack meeting_codecs client_texts
unfolding encode dumps handshake_to_dict client_handshake address public_key_hex hex
alice-ReadsBack = record { decodes = refl; parses = refl }

busy_server-Greets : Greets meeting_codecs busy_server server_hello server_confirms
unfolding to_bytes code pack_u32 handshake_frame ack_frame encode dumps handshake_to_dict
    server_handshake server_ack ack_fields address public_key_hex hex client_handshake
busy_server-Greets = record {
  hello_travels = record { written = refl; small = omega arith };
  hello_reads = record { decodes = refl; parses = refl };
  ack_travels = record { written = refl; small = omega arith };
  ack_reads = record { decodes = refl; parses = refl };
}

listed-Carries : Carries meeting_codecs listed_texts server_lists
unfolding to_bytes code pack_u32 reply_frame data_of encode dumps peer_list_reply get_peer_list
    peers_but register Dict.put to_dict handshake_to_dict server_handshake server_ack ack_fields
    address public_key_hex hex client_handshake
listed-Carries = record {
  travels = record { written = refl; small = omega arith };
  reads = record { decodes = refl; parses = refl };
}

port-Carries : Carries meeting_codecs (port_update 8800) client_moves
unfolding to_bytes code pack_u32 reply_frame data_of encode dumps peer_list_reply get_peer_list
    peers_but register Dict.put to_dict handshake_to_dict server_handshake server_ack ack_fields
    address public_key_hex hex client_handshake port_update
port-Carries = record {
  travels = record { written = refl; small = omega arith };
  reads = record { decodes = refl; parses = refl };
}

alice_has_id : address alice ≢ []
unfolding address public_key_hex hex
alice_has_id e = cc

register-handle_connection_example :
    let t =
      (handle_connection meeting_codecs no_text
        (λ ws bytes. true)
        busy_server
        1
        (codes "host")
        5
        (some client_hello)).0 in
    (t.sent
      ≡ (([] ++ ((1, server_hello) ∷ [])) ++ ((1, server_confirms) ∷ []))
        ++ ((1, server_lists) ∷ []))
    × ((c' : Client) × (Registration.register meeting_codecs
            (λ ws bytes. true)
            a_client
            (some 2)
            (some server_hello)
            (some server_confirms)
            (some server_lists)
          ≡ ok (c', true))
        × (c'.sent ≡ ([] ++ ((2, client_hello) ∷ [])) ++ ((2, client_moves) ∷ []))
        × ((id : Str)
            → Dict.get c'.peers id ≡ (
                if str_beq (address alice) id
                then Dict.get a_client.peers id
                else elim (Registry.get busy_server.registry id) [
                  | none ↦ Dict.get a_client.peers id
                  | some other ↦ some (to_dict meeting_codecs.b64encode no_text other)
                ])))
    × (Registry.get
          (handle_message meeting_codecs no_text
            (λ ws bytes. true)
            t
            6
            client_moves
            (address alice)
            1).registry
          (address alice)
        ≡ some (entry_of alice (codes "host") 8800 5 6))
unfolding handshake_to_dict
register-handle_connection_example =
    register-handle_connection meeting_codecs no_text (λ ws bytes. true) a_client alice busy_server
      1 2 5 6 8799 300 (codes "host") client_hello server_hello server_confirms server_lists
      client_moves meeting_codecs-IsBase64 (λ ws bytes. refl) refl refl alice_has_id
      (later start (registers 1 (codes "carol") none (codes "h") 9 [] [])) alice-Travels
      alice-ReadsBack busy_server-Greets listed-Carries port-Carries

-- the peers that the server lists for the client
abbrev known_peers : List Fields
known_peers =
    get_peer_list (λ b. b) no_text
      (enrolled busy_server 5 (codes "host") (client_handshake alice)).registry
      (some (client_handshake alice).peer_id)

known_peers_added : (add_listed [] (map obj known_peers)).1 ≡ true
unfolding add_listed get_peer_list peers_but register Dict.put to_dict client_handshake address
    public_key_hex hex str_at get_field
known_peers_added = refl

alice-registers :
    Registration.register meeting_codecs
      (λ ws bytes. true)
      a_client
      (some 2)
      (some server_hello)
      (some server_confirms)
      (some server_lists)
    ≡ ok (told (informed a_client 2 known_peers client_hello) 2 client_moves, true)
alice-registers =
    register-eq meeting_codecs (λ ws bytes. true) (λ ws bytes. refl) a_client alice busy_server 2
      known_peers client_hello server_hello server_confirms server_lists client_moves
      meeting_codecs-IsBase64 refl alice-Travels busy_server-Greets listed-Carries port-Carries
      known_peers_added

register-IsDirectory_example :
    IsDirectory (told (informed a_client 2 known_peers client_hello) 2 client_moves).peers
register-IsDirectory_example =
    register-IsDirectory meeting_codecs (λ ws bytes. true) a_client
      (told (informed a_client 2 known_peers client_hello) 2 client_moves) (some 2)
      (some server_hello) (some server_confirms) (some server_lists) true (tt, tt) alice-registers
