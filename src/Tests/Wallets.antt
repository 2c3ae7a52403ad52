-- ===== src/Tests/Wallets.antt =====
-- Two wallets over stand-ins for the libraries: signing copies the text, the cipher puts one byte
-- before it, and every two keys share one secret.
use blockchain_messaging_pro.Common.{
  refl, inr, true, some, [], ◌∷◌, Bytes, codes, drop, str_beq, str_beq_refl, ok,
}
use blockchain_messaging_pro.Json.{null, end}
use blockchain_messaging_pro.Crypto.{Wallet, Primitives, sign}
use blockchain_messaging_pro.Crypto.Laws.{Agree}
use blockchain_messaging_pro.Message.Packing.{Codecs}
use blockchain_messaging_pro.Peers.{Peer, authenticated}
use blockchain_messaging_pro.P2P.{P2PNode, attach}
use blockchain_messaging_pro.Engine.{Engine, Stamp}
use blockchain_messaging_pro.Tests.{fresh}

abbrev pub plain_primitives : Primitives
plain_primitives = record {
  sign_message = λ m key. m;
  verify_signature = λ m signature key. str_beq m signature;
  derive_shared_secret = λ own other. 7 ∷ [];
  encrypt = λ key nonce plain. b'!' ∷ plain;
  decrypt_message = λ cipher key nonce. inr (drop 1 cipher);
}

abbrev pub alice : Wallet
alice = record {
  name = codes "alice";
  signing_keys = record { private_key = 1 ∷ []; public_key = 2 ∷ [] };
  encryption_keys = record { private_key = 3 ∷ []; public_key = 4 ∷ [] };
}

abbrev pub bob : Wallet
bob = record {
  name = codes "bob";
  signing_keys = record { private_key = 5 ∷ []; public_key = 6 ∷ [] };
  encryption_keys = record { private_key = 7 ∷ []; public_key = 8 ∷ [] };
}

pub alice-bob-Agree : Agree plain_primitives alice bob
unfolding sign
alice-bob-Agree = record {
  signs = λ m. str_beq_refl m;
  shared = refl;
  decrypts = λ nonce plain n p. refl;
  not_empty = λ e. cc;
}

-- the coders before a JSON or MessagePack value is known
abbrev pub plain_codecs : Codecs
plain_codecs = record {
  b64encode = λ b. b;
  b64decode = λ t. ok t;
  packb = λ fs. b'p' ∷ [];
  unpackb = λ b. ok end;
  loads = λ t. ok null;
  decode = λ b. some b;
}

abbrev pub peer_with : Wallet → Peer
peer_with w = record {
  id = w.name;
  address = codes "host";
  port = 1;
  public_key = some w.signing_keys.public_key;
  encryption_key = some w.encryption_keys.public_key;
  state = authenticated;
  last_seen = 0;
  name = some w.name;
}

abbrev pub lone_node : Wallet → P2PNode
lone_node w = record {
  wallet = w;
  peer_manager = record { peers = []; address_index = []; stale_timeout = 300 };
  connections = [];
  running = true;
  sent = [];
  closed = [];
}

-- an engine that is connected with the other on WebSocket 9
abbrev pub engine_of : Wallet → Wallet → Engine
engine_of w other = record {
  wallet = w;
  node = attach (lone_node w) 9 (peer_with other);
  blockchain = fresh;
  reassembler = [];
  transfer_manager = record { max_concurrent = 3; transfers = [] };
  received_files = [];
  shared_secrets = [];
  messages = [];
  files = [];
}

abbrev pub a_nonce : Bytes
a_nonce = codes "twelve bytes"

abbrev pub a_stamp : Stamp
a_stamp = record { id = codes "m"; now = codes "1.0"; ticks = 1; nonce = a_nonce }
