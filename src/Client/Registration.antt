-- ===== src/Client/Registration.antt =====
-- src/client/client.py: `register`. What the registry answers are the arguments `first`, `second`
-- and `third`, none where `recv` raises; an exception after the connection makes the result false.
use blockchain_messaging_pro.Common.{
  ℕ, Bool, true, false, Option, none, some, List, [], ◌∷◌, ◌++◌, Str, Bytes, codes, encode, str_beq,
  str_eq, if◌then◌else◌, Result, ok, err, runtime_error,
}
use blockchain_messaging_pro.Common.Dict
use blockchain_messaging_pro.Common.Dict.{Dict}
use blockchain_messaging_pro.Json.{
  Json, num, str, arr, obj, Fields, end, field, get_field, dumps, to_list,
}
use blockchain_messaging_pro.Block.{str_at}
use blockchain_messaging_pro.Crypto.{Wallet, address}
use blockchain_messaging_pro.Frame.{
  handshake, handshake_ack, data_frame, ProtocolFrame, to_bytes, data_of,
}
use blockchain_messaging_pro.Handshake.{
  HandshakeMessage, protocol_version, default_capabilities, handshake_frame, handshake_from_frame,
  ack_from_frame, payload_fields,
}
use blockchain_messaging_pro.Message.Packing.{Codecs}
use blockchain_messaging_pro.P2P.{read_frame}
use blockchain_messaging_pro.Registry.Server.{text_at}
use blockchain_messaging_pro.Client.{Client}

unfoldable pub client_handshake : Wallet → HandshakeMessage
client_handshake w = record {
  version = protocol_version;
  peer_id = address w;
  name = some w.name;
  signing_key = w.signing_keys.public_key;
  encryption_key = w.encryption_keys.public_key;
  capabilities = default_capabilities;
}

unfoldable pub port_update : ℕ → Fields
port_update port =
    field (codes "type") (str (codes "update_port")) (field (codes "port") (num port) end)

-- the values that `for peer in peer_data.get("peers", [])` goes through, if it can
unfoldable pub listed : Fields → Option (List Json)
listed fs = elim (get_field fs (codes "peers")) [
  | none ↦ some []
  | some (arr js) ↦ some (to_list js)
  | some (obj end) ↦ some []
  | some (str []) ↦ some []
  | some _ ↦ none
]

-- the loop over the listed peers, false where it raises: the peers before stay
unfoldable pub add_listed : Dict Str Fields → List Json → Dict Str Fields × Bool
add_listed known [] = (known, true)
add_listed known (obj peer ∷ rest) = elim (str_at peer (codes "peer_id")) [
  | err e ↦ (known, false)
  | ok id ↦ add_listed (Dict.put known id peer) rest
]
add_listed known (_ ∷ rest) = (known, false)

unfoldable pub take_list : Dict Str Fields → Fields → Dict Str Fields × Bool
take_list known fs = elim (text_at fs (codes "type")) [
  | none ↦ (known, true)
  | some kind ↦
      if str_beq kind (codes "peer_list")
      then elim (listed fs) [ none ↦ (known, false) | some peers ↦ add_listed known peers ]
      else (known, true)
]

module _ (k : Codecs) (accepts : ℕ → Bytes → Bool) where
  -- `self._registry_ws.send(frame.to_bytes())`, false where it raises an exception
  unfoldable pub send_registry : Client → ℕ → ProtocolFrame → Client × Bool
  send_registry c ws frame = elim (to_bytes frame) [
    | err e ↦ (c, false)
    | ok bytes ↦
        if accepts ws bytes
        then (record c { sent = c.sent ++ ((ws, bytes) ∷ []) }, true)
        else (c, false)
  ]

  -- the server's handshake, which any other frame can take the place of
  unfoldable pub reads_hello : Option Bytes → Bool
  reads_hello input = elim (read_frame input) [
    | err e ↦ false
    | ok frame ↦ elim frame.frame_type [
      | handshake ↦ elim (handshake_from_frame k frame) [ err e ↦ false | ok server_hs ↦ true ]
      | _ ↦ true
    ]
  ]

  -- whether the acknowledgment accepts; any other frame does, and none is an exception
  unfoldable pub reads_ack : Option Bytes → Option Bool
  reads_ack input = elim (read_frame input) [
    | err e ↦ none
    | ok frame ↦ elim frame.frame_type [
      | handshake_ack ↦ elim (ack_from_frame k frame) [ err e ↦ none | ok ack ↦ some ack.accepted ]
      | _ ↦ some true
    ]
  ]

  -- the peers after the third frame, false where reading it raises
  unfoldable pub reads_list : Dict Str Fields → Option Bytes → Dict Str Fields × Bool
  reads_list known input = elim (read_frame input) [
    | err e ↦ (known, false)
    | ok frame ↦ elim frame.frame_type [
      | data_frame ↦ elim (payload_fields k frame) [
        | err e ↦ (known, false)
        | ok fs ↦ take_list known fs
      ]
      | _ ↦ (known, true)
    ]
  ]

  -- the part after the acknowledgment
  unfoldable pub learn_peers : Client → ℕ → Option Bytes → Client × Bool
  learn_peers c ws third =
      let (peers, read) = reads_list c.peers third in
      let c' : Client = record c { peers = peers } in
      elim read [
        | false ↦ (c', false)
        | true ↦
            send_registry c' ws
              (data_of (encode (dumps false (obj (port_update c.config.p2p_port)))))
      ]

  -- the part after our handshake is sent
  unfoldable pub await_registry :
      Client → ℕ → Option Bytes → Option Bytes → Option Bytes → Client × Bool
  await_registry c ws first second third = elim (reads_hello first) [
    | false ↦ (c, false)
    | true ↦ elim (reads_ack second) [
      | none ↦ (c, false)
      | some false ↦ (record c { closed = c.closed ++ (ws ∷ []) }, false)
      | some true ↦ learn_peers c ws third
    ]
  ]

  unfoldable pub register_on :
      Client → Wallet → ℕ → Option Bytes → Option Bytes → Option Bytes → Client × Bool
  register_on c w ws first second third =
      let (c', took) =
        send_registry (record c { registry_ws = some ws }) ws
          (handshake_frame k (client_handshake w)) in
      elim took [ false ↦ (c', false) | true ↦ await_registry c' ws first second third ]

  -- `opened` is the WebSocket of `websockets.connect`, or none where it raises
  unfoldable pub register :
      Client → Option ℕ → Option Bytes → Option Bytes → Option Bytes → Result (Client × Bool)
  register c opened first second third = elim c.wallet [
    | none ↦ err runtime_error
    | some w ↦ elim opened [
      | none ↦ ok (c, false)
      | some ws ↦ ok (register_on c w ws first second third)
    ]
  ]
