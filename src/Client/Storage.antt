-- ===== src/Client/Storage.antt =====
-- src/client/client.py: the wallet and the chain of one client, found again by the next.
use blockchain_messaging_pro.Common.{
  ℕ, ◌≡◌, ◌≢◌, refl, ap, ◌∙◌, Bool, true, false, Option, none, some, List, [], ◌∷◌, Str, Bytes,
  Error, ok, err, inl, inr, Option-cases, file_exists, runtime_error,
}
use blockchain_messaging_pro.Json.{Json, obj, dumps}
use blockchain_messaging_pro.Block.{Block}
use blockchain_messaging_pro.Crypto.{Wallet, Primitives, wallet_to_dict}
use blockchain_messaging_pro.Crypto.Laws.{wallet_from_dict-to_dict}
use blockchain_messaging_pro.Chain.State.{Blockchain}
use blockchain_messaging_pro.Chain.Index.{IsIndexed}
use blockchain_messaging_pro.Chain.Storage.{to_dict, with_defaults, from_dict-to_dict_chain}
use blockchain_messaging_pro.Engine.{Engine, Stamp}
use blockchain_messaging_pro.Message.Packing.{Codecs, IsBase64}
use blockchain_messaging_pro.Client.{
  ClientConfig, Client, own_chain, of_engine, new_client, blockchain, has_blocks, save_wallet,
  init_wallet, load_fields, load_wallet, read_chain, load_blockchain, save_blockchain,
}
use blockchain_messaging_pro.Client.Calls.{
  Dialed, start, start_with, stop_node, close_registry, stop, reach, send_message,
}

-- A wallet that `init_wallet` makes where there is no file is the one that another client of the
-- same files loads, if JSON and base64 read it back, and none can make another in its place.
pub load_wallet-init_wallet :
    (k : Codecs) (written : Json → Str) (c : Client) (w : Wallet)
    → c.wallet_file ≡ none
    → IsBase64 k
    → k.loads (written (obj (wallet_to_dict k.b64encode w)))
      ≡ ok (obj (wallet_to_dict k.b64encode w))
    → (c' : Client) × (init_wallet k written c w ≡ ok (c', w))
      × ((config : ClientConfig) (chain : Option Str)
          → let d = new_client config c'.wallet_file chain in
            (load_wallet k d ≡ ok (record d { wallet = some w }, true))
            × ((other : Wallet) → init_wallet k written d other ≡ err file_exists))
unfolding init_wallet save_wallet load_wallet load_fields new_client
load_wallet-init_wallet k written c w no_file b64 reads = (
  record c { wallet = some w; wallet_file = some (written (obj (wallet_to_dict k.b64encode w))) },
  rw (init_wallet, no_file) refl,
  λ config chain. (
    rw (reads, wallet_from_dict-to_dict k.b64encode k.b64decode b64.decodes w) refl,
    λ other. refl,
  ),
)

has_block_in : (bs : List Block) → bs ≢ [] → ◌≡◌ {A = Bool} (elim bs [ [] ↦ false | _ ↦ true ]) true
has_block_in [] some_block = absurd (some_block refl)
has_block_in (b ∷ bs) some_block = refl

has_blocks-chain : (b : Blockchain) → b.chain ≢ [] → has_blocks b ≡ true
unfolding has_blocks
has_blocks-chain b some_block = has_block_in b.chain some_block

close_registry-blockchain : (c : Client) → blockchain (close_registry c) ≡ blockchain c
unfolding close_registry blockchain
close_registry-blockchain c = elim (Option-cases c.registry_ws) [
  | inl none_open ↦ rw (close_registry, none_open) refl
  | inr (ws, is_open) ↦ rw (close_registry, is_open) refl
]

save_blockchain_file :
    (c : Client) (b : Blockchain)
    → blockchain c ≡ some b
    → b.chain ≢ []
    → (save_blockchain c).blockchain_file ≡ some (dumps false (to_dict b))
unfolding save_blockchain
save_blockchain_file c b e some_block = rw (save_blockchain, e, has_blocks-chain b some_block) refl

stop_file :
    (c : Client) (e : Engine)
    → c.running ≡ true
    → c.engine ≡ some e
    → c.held_chain ≡ of_engine
    → e.blockchain.chain ≢ []
    → (stop c).blockchain_file ≡ some (dumps false (to_dict e.blockchain))
unfolding stop stop_node blockchain
stop_file c e running has_engine held some_block =
    rw (stop, running)
      (save_blockchain_file (close_registry (stop_node (record c { running = false }))) e.blockchain
        (close_registry-blockchain (stop_node (record c { running = false }))
          ∙ rw (stop_node, has_engine, held) refl)
        some_block)

-- When a running client stops whose engine has its chain, the next client of the same files loads
-- that chain with its pending data and its indexes, if the chain has a block and the indexes of its
-- blocks, and JSON reads it back. The validator is dropped and the limits are the default ones.
pub load_blockchain-stop :
    (k : Codecs) (sha256 : Bytes → Str) (fuel : ℕ) (now : Str) (c : Client) (e : Engine)
    (config : ClientConfig) (wallet : Option Str)
    → c.running ≡ true
    → c.engine ≡ some e
    → c.held_chain ≡ of_engine
    → e.blockchain.chain ≢ []
    → IsIndexed e.blockchain
    → k.loads (dumps false (to_dict e.blockchain)) ≡ ok (to_dict e.blockchain)
    → let d = new_client config wallet (stop c).blockchain_file in
      load_blockchain k sha256 fuel now d
      ≡ ok (record d { held_chain = own_chain (with_defaults e.blockchain) }, true)
unfolding new_client load_blockchain read_chain
load_blockchain-stop k sha256 fuel now c e config wallet running has_engine held some_block indexed
      reads =
    rw
      (
        stop_file c e running has_engine held some_block,
        reads,
        from_dict-to_dict_chain e.blockchain indexed,
      )
      refl

-- After a `start` that cannot read the file of the chain, the client counts as running without an
-- engine: a second `start` does nothing, and a message cannot be sent.
pub start_unreadable :
    (k : Codecs) (accepts : ℕ → Bytes → Bool) (p : Primitives) (sha256 : Bytes → Str) (fuel : ℕ)
    (now : Str) (serves : Bool) (c : Client) (w : Wallet) (x : Error)
    → c.wallet ≡ some w
    → c.running ≡ false
    → c.engine ≡ none
    → read_chain k sha256 fuel now c.blockchain_file ≡ err x
    → let c1 : Client = record c { running = true } in
      (start k sha256 fuel now c serves ≡ (c1, err x))
      × (start k sha256 fuel now c1 serves ≡ (c1, ok tt))
      × ((id message : Str) (d : Dialed) (st : Stamp)
          → send_message k accepts p c1 id message d st ≡ err runtime_error)
unfolding start start_with send_message reach
start_unreadable k accepts p sha256 fuel now serves c w x owned idle no_engine unreadable = (
  ap
        (λ o. elim o [
          | none ↦ (c, err runtime_error)
          | some v ↦ start_with k sha256 fuel now c v serves
        ])
        owned
      ∙ rw (start_with, idle, unreadable) refl,
  let c1 : Client = record c { running = true } in
      ap
        (λ o. elim o [
          | none ↦ (c1, err runtime_error)
          | some v ↦ start_with k sha256 fuel now c1 v serves
        ])
        owned,
  λ id message d st. rw (send_message, reach, no_engine) refl,
)
