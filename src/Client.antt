-- ===== src/Client.antt =====
-- src/client/client.py: the client's state, its wallet and its chain on disk. A file is its text, or
-- none where there is no file; `written` is the text that `json.dump` writes with an indentation.
pub mod Registration
pub mod Calls
pub mod Commands
pub mod Joining
pub mod Discovery
pub mod Storage
pub mod Sending
pub mod Addresses
pub mod Directory
pub mod Recipients
use blockchain_messaging_pro.Common.{
  ℕ, Bool, true, false, Option, none, some, List, [], Str, Bytes, Result, ok, err, ◌>>=◌,
  file_exists, type_error,
}
use blockchain_messaging_pro.Common.Dict
use blockchain_messaging_pro.Common.Dict.{Dict}
use blockchain_messaging_pro.Json.{Json, obj, Fields, dumps}
use blockchain_messaging_pro.Crypto.{KeyPair, Wallet, wallet_to_dict, wallet_from_dict}
use blockchain_messaging_pro.Chain.State.{Blockchain, max_block_size, max_pending_data}
use blockchain_messaging_pro.Chain.Methods.{init}
use blockchain_messaging_pro.Chain.Storage.{to_dict, from_dict}
use blockchain_messaging_pro.Message.Packing.{Codecs}
use blockchain_messaging_pro.Sync.{ℤ}
use blockchain_messaging_pro.Engine.{Engine}

pub record ClientConfig : Type 0 where
  pub p2p_port : ℕ
  pub registry_host : Str
  pub registry_port : ℤ

-- `self._blockchain`: none yet, one of its own, or the object that the engine has
pub data HeldChain : Type 0 where
  unloaded : HeldChain
  own_chain : Blockchain → HeldChain
  of_engine : HeldChain

-- The node is the engine's. What was sent on the registry's WebSocket and which were closed is
-- logged.
pub record Client : Type 0 where
  pub config : ClientConfig
  pub wallet_file : Option Str
  pub blockchain_file : Option Str
  pub wallet : Option Wallet
  pub held_chain : HeldChain
  pub engine : Option Engine
  pub registry_ws : Option ℕ
  pub peers : Dict Str Fields
  pub running : Bool
  pub sent : List (ℕ × Bytes)
  pub closed : List ℕ

unfoldable pub new_client : ClientConfig → Option Str → Option Str → Client
new_client config wallet_file blockchain_file = record {
  config = config;
  wallet_file = wallet_file;
  blockchain_file = blockchain_file;
  wallet = none;
  held_chain = unloaded;
  engine = none;
  registry_ws = none;
  peers = [];
  running = false;
  sent = [];
  closed = [];
}

unfoldable pub is_initialized : Client → Bool
is_initialized c = elim c.wallet [ none ↦ false | some w ↦ true ]

unfoldable pub blockchain : Client → Option Blockchain
blockchain c = elim c.held_chain [
  | unloaded ↦ none
  | own_chain b ↦ some b
  | of_engine ↦ elim c.engine [ none ↦ none | some e ↦ some e.blockchain ]
]

-- Python's truth value of a chain is whether it has a block.
unfoldable pub has_blocks : Blockchain → Bool
has_blocks b = elim b.chain [ [] ↦ false | _ ↦ true ]

module _ (k : Codecs) (written : Json → Str) where
  unfoldable pub save_wallet : Client → Client
  save_wallet c = elim c.wallet [
    | none ↦ c
    | some w ↦ record c { wallet_file = some (written (obj (wallet_to_dict k.b64encode w))) }
  ]

  -- `generated` is the wallet that `Wallet.generate` draws.
  unfoldable pub init_wallet : Client → Wallet → Result (Client × Wallet)
  init_wallet c generated = elim c.wallet_file [
    | some t ↦ err file_exists
    | none ↦ ok (save_wallet (record c { wallet = some generated }), generated)
  ]

module _ (k : Codecs) where
  -- `json.load` of a file and the reading of what should be a dictionary
  unfoldable pub load_fields : Str → Result Fields
  load_fields t = do j ← k.loads t; elim j [ obj fs ↦ ok fs | _ ↦ err type_error ]

  unfoldable pub load_wallet : Client → Result (Client × Bool)
  load_wallet c = elim c.wallet_file [
    | none ↦ ok (c, false)
    | some t ↦ do
      fs ← load_fields t
      w ← wallet_from_dict k.b64decode fs
      ok (record c { wallet = some w }, true)
  ]

  -- `Blockchain(difficulty=2)`, whose mining takes `fuel` rounds at most
  unfoldable pub default_chain : (Bytes → Str) → ℕ → Str → Result Blockchain
  default_chain sha256 fuel now = init sha256 fuel now 2 none max_block_size max_pending_data

  -- the chain that `load_blockchain` finds or makes, and its result
  unfoldable pub read_chain : (Bytes → Str) → ℕ → Str → Option Str → Result (Blockchain × Bool)
  read_chain sha256 fuel now file = elim file [
    | none ↦ do b ← default_chain sha256 fuel now; ok (b, false)
    | some t ↦ do j ← k.loads t; b ← from_dict j; ok (b, true)
  ]

  unfoldable pub load_blockchain : (Bytes → Str) → ℕ → Str → Client → Result (Client × Bool)
  load_blockchain sha256 fuel now c = do
    (b, found) ← read_chain sha256 fuel now c.blockchain_file
    ok (record c { held_chain = own_chain b }, found)

unfoldable pub save_blockchain : Client → Client
save_blockchain c = elim (blockchain c) [
  | none ↦ c
  | some b ↦ elim (has_blocks b) [
    | false ↦ c
    | true ↦ record c { blockchain_file = some (dumps false (to_dict b)) }
  ]
]

unfoldable pub get_peers : Client → List Fields
get_peers c = Dict.values c.peers
