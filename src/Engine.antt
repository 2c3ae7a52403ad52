-- ===== src/Engine.antt =====
-- src/engine/engine.py: the state of `TransmissionEngine` and the secrets it shares with its peers.
-- The callbacks are the logs `messages` and `files` of what they were called with.
pub mod Secrets
pub mod Sending
pub mod Receiving
pub mod Texts
pub mod Soundness
pub mod Runs
pub mod Files
pub mod Transfers
use blockchain_messaging_pro.Common.{
  ℕ, Bool, true, false, Option, none, some, List, [], ◌∷◌, ◌++◌, Str, Bytes, ◌⊎◌, inl, inr,
  if◌then◌else◌, str_eq, Result, ok, err, ◌>>=◌,
}
use blockchain_messaging_pro.Common.Dict
use blockchain_messaging_pro.Common.Dict.{Dict}
use blockchain_messaging_pro.Json.{Json, Fields}
use blockchain_messaging_pro.Block.{Block}
use blockchain_messaging_pro.Chain.State.{Blockchain, add_data}
use blockchain_messaging_pro.Chain.State
use blockchain_messaging_pro.Chain.Methods
use blockchain_messaging_pro.Chunks.{Reassembler}
use blockchain_messaging_pro.Crypto.{Wallet, Primitives, encrypt_message}
use blockchain_messaging_pro.Media.{MediaType}
use blockchain_messaging_pro.Media.Transfer.{MediaTransfer}
use blockchain_messaging_pro.Media.Manager.{TransferManager}
use blockchain_messaging_pro.Media.Manager
use blockchain_messaging_pro.Message.{MessagePayload}
use blockchain_messaging_pro.Message.Packing.{Codecs}
use blockchain_messaging_pro.Peers.{Peer}
use blockchain_messaging_pro.P2P.{P2PNode}
use blockchain_messaging_pro.P2P.Connections.{send_message}

-- `sender_name` is the value under "name" in the metadata
pub record ReceivedMessage : Type 0 where
  pub id : Str
  pub sender : Str
  pub sender_name : Option Json
  pub content : Str
  pub timestamp : Str
  pub verified : Bool

-- without the path it is saved to
pub record ReceivedMedia : Type 0 where
  pub id : Str
  pub sender : Str
  pub sender_name : Option Json
  pub filename : Str
  pub mime_type : Str
  pub media_type : MediaType
  pub size : ℕ
  pub content : Bytes
  pub file_hash : Str
  pub timestamp : Str
  pub verified : Bool

pub record Engine : Type 0 where
  pub wallet : Wallet
  pub node : P2PNode
  pub blockchain : Blockchain
  pub reassembler : Reassembler
  pub transfer_manager : TransferManager
  pub received_files : List ReceivedMedia
  pub shared_secrets : Dict Str Bytes
  pub messages : List ReceivedMessage
  pub files : List ReceivedMedia

-- what the program draws for a message: an id, the time as a float's text and in ticks, and a nonce
pub record Stamp : Type 0 where
  pub id : Str
  pub now : Str
  pub ticks : ℕ
  pub nonce : Bytes

abbrev pub max_received_files : ℕ
max_received_files = 100

-- Python's test of an optional byte string: an empty one is none
unfoldable pub given : Option Bytes → Option Bytes
given none = none
given (some []) = none
given (some (x ∷ xs)) = some (x ∷ xs)

-- `self.blockchain.add_data(...)`, whose result is not used
unfoldable pub record_data : Engine → Fields → Engine
record_data s d = record s { blockchain = (add_data s.blockchain d).0 }

unfoldable pub put_transfer : Engine → MediaTransfer → Engine
put_transfer s t = record s { transfer_manager = Manager.put_transfer s.transfer_manager t.id t }

unfoldable pub get_transfer : Engine → Str → Option MediaTransfer
get_transfer s id = Manager.get_transfer s.transfer_manager id

unfoldable pub get_active_transfers : Engine → List MediaTransfer
get_active_transfers s = Manager.get_active_transfers s.transfer_manager

unfoldable pub get_message_history : Engine → Result (List Json)
get_message_history s = State.get_messages s.blockchain

unfoldable pub mine_pending : (Bytes → Str) → ℕ → Str → Engine → Engine × Result (Unit {0})
mine_pending sha256 fuel now s =
    let (chain, mined) = Methods.mine_pending sha256 fuel now s.blockchain in
    (record s { blockchain = chain }, mined >>= λ b. ok tt)

-- `self.p2p_node.send_message(...)`
unfoldable pub send : Codecs → (ℕ → Bytes → Bool) → Engine → MessagePayload → Str → Engine × Bool
send k accepts s m recipient_id =
    let (node, sent) = send_message k accepts s.node m recipient_id in
    (record s { node = node }, sent)

module _ (c : Primitives) where
  unfoldable pub get_shared_secret : Engine → Peer → Engine × Option Bytes
  get_shared_secret s p = elim (given p.encryption_key) [
    | none ↦ (s, none)
    | some key ↦ elim (Dict.get s.shared_secrets p.id) [
      | some secret ↦ (s, some secret)
      | none ↦
          let secret = c.derive_shared_secret s.wallet.encryption_keys.private_key key in
          (record s { shared_secrets = Dict.put s.shared_secrets p.id secret }, some secret)
    ]
  ]

  -- the nonce and the content of a message that carries `plain` under a secret, if there is one
  unfoldable pub protect : Option Bytes → Bytes → Bytes → Option Bytes × Bytes
  protect secret nonce plain = elim (given secret) [
    | none ↦ (none, plain)
    | some key ↦ let (n, content) = encrypt_message c nonce plain key in (some n, content)
  ]

  -- the content of a message under a secret, or the text of the exception
  unfoldable pub opened : Option Bytes → MessagePayload → Str ⊎ Bytes
  opened secret m = elim (given m.nonce) [
    | none ↦ inr m.content
    | some nonce ↦ elim (given secret) [
      | none ↦ inr m.content
      | some key ↦ c.decrypt_message m.content key nonce
    ]
  ]

  -- The secret is looked up, and kept, only for a message with a nonce.
  unfoldable pub open_content : Engine → Peer → MessagePayload → Engine × (Str ⊎ Bytes)
  open_content s p m = elim (given m.nonce) [
    | none ↦ (s, inr m.content)
    | some nonce ↦ let (s', secret) = get_shared_secret s p in (s', opened secret m)
  ]
