-- ===== src/Tests/Senders.antt =====
-- Files of a client, the address of its server, and a message that it sends.
use blockchain_messaging_pro.Common.{
  length, ◌≤◌, ◌<◌, ◌≡◌, ◌≢◌, refl, ap, ◌∙◌, ◌>>=◌, true, false, Option, none, some, [], ◌∷◌, Str,
  codes, length, ok, err, str_eq, type_error, file_exists, runtime_error,
}
use blockchain_messaging_pro.Common.Dict
use blockchain_messaging_pro.Common.Dict.{Dict}
use blockchain_messaging_pro.Json.{get_field, str, obj, Fields, end, field, dumps}
use blockchain_messaging_pro.Chain.Storage.{to_dict}
use blockchain_messaging_pro.Crypto.{Wallet, wallet_to_dict}
use blockchain_messaging_pro.Engine.{Engine, Stamp, given, record_data, get_shared_secret, send}
use blockchain_messaging_pro.Engine.Sending.{send_text, send_body}
use blockchain_messaging_pro.Frame.{data_of, to_bytes, code, pack_u32}
use blockchain_messaging_pro.P2P.{attach, get_peer, connection_for, transmit, send_frame}
use blockchain_messaging_pro.P2P.Connections
use blockchain_messaging_pro.Peers.{add, get}
use blockchain_messaging_pro.Chain.Methods.{append_block}
use blockchain_messaging_pro.Message.Packing.{Codecs, message_to_bytes}
use blockchain_messaging_pro.Block.{str_at}
use blockchain_messaging_pro.Client.{
  ClientConfig, Client, own_chain, of_engine, new_client, blockchain, init_wallet, load_wallet,
  read_chain, load_blockchain,
}
use blockchain_messaging_pro.Chain.Storage.{with_defaults}
use blockchain_messaging_pro.Client.Calls.{Dialed, reach, text_by, start, stop, send_message}
use blockchain_messaging_pro.Client.Commands.{full_recipient}
use blockchain_messaging_pro.Client.Directory.{HasIds}
use blockchain_messaging_pro.Client.Recipients.{IsFound, full_recipient-IsFound}
use blockchain_messaging_pro.Client.Sending.{HasSent, send_message_sent}
use blockchain_messaging_pro.Client.Storage.{
  load_wallet-init_wallet, load_blockchain-stop, start_unreadable,
}
use blockchain_messaging_pro.Tests.{toy, fresh, fresh-IsIndexed}
use blockchain_messaging_pro.Tests.Clients.{a_config, a_client}
use blockchain_messaging_pro.Tests.Wallets.{
  alice, bob, plain_codecs, plain_primitives, engine_of, a_stamp,
}

abbrev no_wallet : Client
no_wallet = record a_client { wallet = none }

-- JSON that reads the file of a wallet
abbrev wallet_codecs : Codecs
wallet_codecs = record plain_codecs { loads = λ t. ok (obj (wallet_to_dict (λ b. b) alice)) }

load_wallet-init_wallet_example :
    (c' : Client) × (init_wallet wallet_codecs (dumps false) no_wallet alice ≡ ok (c', alice))
    × ((config : ClientConfig) (chain : Option Str)
        → let d = new_client config c'.wallet_file chain in
          (load_wallet wallet_codecs d ≡ ok (record d { wallet = some alice }, true))
          × ((other : Wallet) → init_wallet wallet_codecs (dumps false) d other ≡ err file_exists))
load_wallet-init_wallet_example =
    load_wallet-init_wallet wallet_codecs (dumps false) no_wallet alice refl
      (record { decodes = λ b. refl; not_empty = λ x xs. (x, xs, refl) }) refl

-- a client in the middle of its work
abbrev at_work : Client
at_work = record a_client {
  running = true;
  engine = some (engine_of alice bob);
  held_chain = of_engine;
}

-- JSON that reads the file of a chain
abbrev chain_codecs : Codecs
chain_codecs = record plain_codecs { loads = λ t. ok (to_dict fresh) }

fresh_has_block : fresh.chain ≢ []
unfolding append_block
fresh_has_block e = cc

load_blockchain-stop_example :
    let d = new_client a_config none (stop at_work).blockchain_file in
    load_blockchain chain_codecs toy 1 (codes "1.0") d
    ≡ ok (record d { held_chain = own_chain (with_defaults fresh) }, true)
load_blockchain-stop_example =
    load_blockchain-stop chain_codecs toy 1 (codes "1.0") at_work (engine_of alice bob) a_config
      none refl refl refl fresh_has_block fresh-IsIndexed refl

-- JSON that reads nothing
abbrev broken_codecs : Codecs
broken_codecs = record plain_codecs { loads = λ t. err type_error }

abbrev broken_file : Client
broken_file = record a_client { blockchain_file = some [] }

file_is_broken : read_chain broken_codecs toy 1 (codes "1.0") (some []) ≡ err type_error
unfolding read_chain
file_is_broken = refl

start_unreadable_example :
    let c1 : Client = record broken_file { running = true } in
    (start broken_codecs toy 1 (codes "1.0") broken_file true ≡ (c1, err type_error))
    × (start broken_codecs toy 1 (codes "1.0") c1 true ≡ (c1, ok tt))
    × ((id message : Str) (d : Dialed) (st : Stamp)
        → send_message broken_codecs (λ ws bytes. true) plain_primitives c1 id message d st
          ≡ err runtime_error)
start_unreadable_example =
    start_unreadable broken_codecs (λ ws bytes. true) plain_primitives toy 1 (codes "1.0") true
      broken_file alice type_error refl refl refl file_is_broken

abbrev two_known : Dict Str Fields
two_known =
    (codes "ab", field (codes "peer_id") (str (codes "ab")) end)
    ∷ (codes "ba", field (codes "peer_id") (str (codes "ba")) end)
    ∷ []

two_known-HasIds : HasIds two_known
unfolding str_at get_field
two_known-HasIds = (refl, (refl, tt))

full_recipient-IsFound_example :
    (r : Str) × (full_recipient (codes "b") (Dict.values two_known) ≡ ok r)
    × (64 ≤ length (codes "b") → r ≡ codes "b")
    × (length (codes "b") < 64 → IsFound two_known (codes "b") r)
full_recipient-IsFound_example = full_recipient-IsFound two_known (codes "b") two_known-HasIds

abbrev no_dial : Dialed
no_dial = record { opened = none; now = 0; first = none; second = none }

bob_is_connected :
    reach plain_codecs (λ ws bytes. true) at_work (codes "bob") no_dial ≡ ok (at_work, true)
unfolding reach get_peer attach add get Dict.get Dict.put
bob_is_connected = refl

text_goes_out :
    (text_by plain_codecs
      (λ ws bytes. true)
      plain_primitives
      at_work
      (codes "bob")
      (codes "hi")
      a_stamp).1
    ≡ true
unfolding text_by send_text send_body send get_peer attach add get Dict.get Dict.put
    get_shared_secret given record_data Connections.send_message connection_for send_frame transmit
    to_bytes pack_u32 code data_of message_to_bytes
text_goes_out = refl

abbrev after_text : Client
after_text =
    (text_by plain_codecs (λ ws bytes. true) plain_primitives at_work (codes "bob") (codes "hi")
      a_stamp).0

sent_by_alice :
    send_message plain_codecs
      (λ ws bytes. true)
      plain_primitives
      at_work
      (codes "bob")
      (codes "hi")
      no_dial
      a_stamp
    ≡ ok (after_text, true)
unfolding send_message
sent_by_alice =
    ap
      (λ r. r >>= (λ x. elim x.1 [
        | false ↦ ok (x.0, false)
        | true ↦ ok (
            text_by plain_codecs (λ ws bytes. true) plain_primitives x.0 (codes "bob") (codes "hi")
              a_stamp)
      ]))
      bob_is_connected
    ∙ ap (λ b. ok (after_text, b)) text_goes_out

send_message_sent_example :
    (e : Engine) × (after_text.engine ≡ some e) × HasSent plain_codecs (codes "bob") e.node
send_message_sent_example =
    send_message_sent plain_codecs (λ ws bytes. true) plain_primitives at_work after_text
      (codes "bob") (codes "hi") no_dial a_stamp sent_by_alice

at_work_has_fresh : blockchain at_work ≡ some fresh
unfolding blockchain
at_work_has_fresh = refl
