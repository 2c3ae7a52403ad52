-- ===== src/Registry/Server.antt =====
-- src/server/registry.py: `RegistryServer`. WebSockets are numbers, what is sent on them is logged,
-- and `accepts` says whether one takes some bytes. `repr` is the text of a time. The loop that prunes
-- once a minute is a call of `prune_expired` now and then.
use blockchain_messaging_pro.Common.{
  ℕ, suc, Bool, true, false, Option, none, some, List, [], ◌∷◌, ◌++◌, map, Str, Bytes, codes,
  encode, connection_error, Result, str_beq, str_eq, if◌then◌else◌, ok, err,
}
use blockchain_messaging_pro.Common.Dict
use blockchain_messaging_pro.Common.Dict.{Dict}
use blockchain_messaging_pro.Json.{
  Json, bool, num, str, arr, obj, items, Fields, end, field, get_field, dumps,
}
use blockchain_messaging_pro.Crypto.{Wallet, address}
use blockchain_messaging_pro.Frame.{
  handshake, ping, data_frame, ProtocolFrame, to_bytes, data_of, pong_frame,
}
use blockchain_messaging_pro.Handshake.{
  HandshakeMessage, HandshakeAck, protocol_version, default_capabilities, handshake_frame,
  handshake_from_frame, ack_frame, payload_fields,
}
use blockchain_messaging_pro.Message.Packing.{Codecs}
use blockchain_messaging_pro.P2P.{read_frame}
use blockchain_messaging_pro.Registry.{
  Registry, RegisteredClient, register, get, update_seen, to_dict, get_peer_list, prune_expired,
  set_port,
}

pub record RegistryServer : Type 0 where
  pub wallet : Wallet
  pub registry : Registry
  pub connections : Dict Str ℕ
  pub running : Bool
  pub sent : List (ℕ × Bytes)
  pub closed : List ℕ

unfoldable pub server_handshake : RegistryServer → HandshakeMessage
server_handshake s = record {
  version = protocol_version;
  peer_id = address s.wallet;
  name = some (codes "RegistryServer");
  signing_key = s.wallet.signing_keys.public_key;
  encryption_key = s.wallet.encryption_keys.public_key;
  capabilities = codes "registry" ∷ default_capabilities;
}

unfoldable pub server_ack : RegistryServer → HandshakeAck
server_ack s = record { accepted = true; peer_id = address s.wallet; reason = none }

-- `json.dumps(...).encode()` in a data frame
unfoldable pub reply_frame : Fields → ProtocolFrame
reply_frame fs = data_of (encode (dumps false (obj fs)))

unfoldable pub peer_list_reply : List Fields → Fields
peer_list_reply peers =
    field (codes "type") (str (codes "peer_list"))
      (field (codes "peers") (arr (items (map obj peers))) end)

-- the text under a key, none for any other value
unfoldable pub text_at : Fields → Str → Option Str
text_at fs key = elim (get_field fs key) [ some (str t) ↦ some t | _ ↦ none ]

-- `client.port = new_port`, if there are a client and a port that is not zero
unfoldable pub update_port : RegistryServer → Str → Fields → RegistryServer
update_port s peer_id cmd = elim (get_field cmd (codes "port")) [
  | some (num (suc n)) ↦ record s { registry = set_port s.registry peer_id (suc n) }
  | _ ↦ s
]

-- `serves` is whether `websockets.serve` returns; `_running` is set before
unfoldable pub start : RegistryServer → Bool → RegistryServer × Result (Unit {0})
start s serves =
    if s.running
    then (s, ok tt)
    else (record s { running = true }, if serves then ok tt else err connection_error)

unfoldable pub stop : RegistryServer → RegistryServer
stop s =
    if s.running
    then record s {
      running = false;
      closed = s.closed ++ Dict.values s.connections;
      connections = [];
    }
    else s

-- one round of `_prune_loop`
unfoldable pub prune : RegistryServer → ℕ → RegistryServer
prune s now = record s { registry = (prune_expired s.registry now).0 }

module _ (k : Codecs) (repr : ℕ → Str) (accepts : ℕ → Bytes → Bool) where
  -- `ws.send(frame.to_bytes())`, false where it raises an exception
  unfoldable pub send_to : RegistryServer → ℕ → ProtocolFrame → RegistryServer × Bool
  send_to s ws frame = elim (to_bytes frame) [
    | err e ↦ (s, false)
    | ok bytes ↦
        if accepts ws bytes
        then (record s { sent = s.sent ++ ((ws, bytes) ∷ []) }, true)
        else (s, false)
  ]

  -- sends in a row, until one raises
  unfoldable pub send_each : RegistryServer → ℕ → List ProtocolFrame → RegistryServer × Bool
  send_each s ws [] = (s, true)
  send_each s ws (frame ∷ frames) =
      let (s', took) = send_to s ws frame in
      let rest = send_each s' ws frames in elim took [ false ↦ (s', false) | true ↦ rest ]

  -- the part of `_handle_handshake` after the message is read: the client stays registered when a send
  -- raises
  unfoldable pub welcome_client :
      RegistryServer → ℕ → Str → ℕ → HandshakeMessage → RegistryServer × Option Str
  welcome_client s ws host now hello =
      let (registry, client) =
        register s.registry now hello.peer_id hello.name host 8766 hello.signing_key
          hello.encryption_key in
      let s1 : RegistryServer = record s { registry = registry } in
      let peers = get_peer_list k.b64encode repr registry (some hello.peer_id) in
      let (s2, took) = send_each s1 ws (
        handshake_frame k (server_handshake s1)
        ∷ ack_frame k (server_ack s1)
        ∷ reply_frame (peer_list_reply peers)
        ∷ []) in
      (s2, if took then some hello.peer_id else none)

  unfoldable pub handle_handshake :
      RegistryServer → ℕ → Str → ℕ → Option Bytes → RegistryServer × Option Str
  handle_handshake s ws host now input = elim (read_frame input) [
    | err e ↦ (s, none)
    | ok frame ↦ elim frame.frame_type [
      | handshake ↦ elim (handshake_from_frame k frame) [
        | err e ↦ (s, none)
        | ok hello ↦ welcome_client s ws host now hello
      ]
      | _ ↦ (s, none)
    ]
  ]

  unfoldable pub lookup_reply : RegistryServer → Option Str → Fields
  lookup_reply s target = elim target [
    | none ↦
        field (codes "type") (str (codes "lookup_result"))
          (field (codes "found") (bool false) (field (codes "peer_id") Json.null end))
    | some target_id ↦ elim (get s.registry target_id) [
      | none ↦
          field (codes "type") (str (codes "lookup_result"))
            (field (codes "found") (bool false) (field (codes "peer_id") (str target_id) end))
      | some client ↦ field (codes "type") (str (codes "lookup_result")) (
          field (codes "found") (bool true)
            (field (codes "peer") (obj (to_dict k.b64encode repr client)) end))
    ]
  ]

  unfoldable pub handle_command : RegistryServer → Fields → Str → ℕ → RegistryServer
  handle_command s cmd peer_id ws = elim (text_at cmd (codes "type")) [
    | none ↦ s
    | some cmd_type ↦
        if str_beq cmd_type (codes "get_peers")
        then (send_to s ws (
            reply_frame
              (peer_list_reply (get_peer_list k.b64encode repr s.registry (some peer_id))))).0
        else if str_beq cmd_type (codes "lookup")
        then (send_to s ws (reply_frame (lookup_reply s (text_at cmd (codes "peer_id"))))).0
        else if str_beq cmd_type (codes "update_port")
        then update_port s peer_id cmd
        else s
  ]

  -- `_handle_message`, whose exceptions the loop over the messages catches
  unfoldable pub handle_message : RegistryServer → ℕ → Bytes → Str → ℕ → RegistryServer
  handle_message s now input peer_id ws = elim (read_frame (some input)) [
    | err e ↦ s
    | ok frame ↦
        let s' : RegistryServer = record s { registry = (update_seen s.registry now peer_id).0 } in
        elim frame.frame_type [
          | ping ↦ (send_to s' ws pong_frame).0
          | data_frame ↦ elim (payload_fields k frame) [
            | err e ↦ s'
            | ok cmd ↦ handle_command s' cmd peer_id ws
          ]
          | _ ↦ s'
        ]
  ]

  -- `_handle_connection` up to its loop over the messages
  unfoldable pub handle_connection :
      RegistryServer → ℕ → Str → ℕ → Option Bytes → RegistryServer × Option Str
  handle_connection s ws host now input =
      let (s', peer) = handle_handshake s ws host now input in
      elim peer [
        | none ↦ (record s' { closed = s'.closed ++ (ws ∷ []) }, none)
        | some peer_id ↦
            (record s' { connections = Dict.put s'.connections peer_id ws }, some peer_id)
      ]

  -- the loop of `broadcast_peer_update`, which goes on after an exception
  unfoldable pub broadcast_loop_update : RegistryServer → ProtocolFrame → List ℕ → RegistryServer
  broadcast_loop_update s frame [] = s
  broadcast_loop_update s frame (ws ∷ rest) =
      broadcast_loop_update (send_to s ws frame).0 frame rest

  unfoldable pub broadcast_peer_update : RegistryServer → RegisteredClient → RegistryServer
  broadcast_peer_update s client =
      broadcast_loop_update s
        (reply_frame (
          field (codes "type") (str (codes "peer_joined"))
            (field (codes "peer") (obj (to_dict k.b64encode repr client)) end)))
        (Dict.values s.connections)

-- the end of `_handle_connection`
unfoldable pub disconnect : RegistryServer → Str → RegistryServer
disconnect s peer_id = record s { connections = Dict.remove s.connections peer_id }
