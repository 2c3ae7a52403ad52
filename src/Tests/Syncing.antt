-- ===== src/Tests/Syncing.antt =====
-- A node with its genesis block that downloads a chain of two blocks, and one that gets too few.
use blockchain_messaging_pro.Common.{
  ℕ, ◌≡◌, ◌<◌, ◌+◌, refl, true, false, some, List, [], ◌∷◌, ◌++◌, map, Str, codes, ok, arith,
  length, drop, head?, str_eq,
}
use blockchain_messaging_pro.Common.Dict
use blockchain_messaging_pro.Json.{Fields, arr, items, end, field, get_field}
use blockchain_messaging_pro.Block
use blockchain_messaging_pro.Block.{Block}
use blockchain_messaging_pro.Chain.State.{Blockchain, ChainStatus}
use blockchain_messaging_pro.Chain.Methods.{append_block}
use blockchain_messaging_pro.Sync.{
  downloading, SyncProgress, ChainSynchronizer, Message, pos, at_most, start_sync, fresh_progress,
}
use blockchain_messaging_pro.Sync.Transfer.{outcome, handle_chain_response, received_from}
use blockchain_messaging_pro.Sync.Batches.{answers, start_sync-answers}
use blockchain_messaging_pro.Sync.Adoption.{IsSafe, handle_chain_response-IsSafe}
use blockchain_messaging_pro.Sync.Completion.{handle_chain_response_short}
use blockchain_messaging_pro.Tests.{toy, genesis, fresh}
use blockchain_messaging_pro.Tests.Chains.{grown, block_a}

abbrev peer : Str
peer = codes "p"

abbrev node : Blockchain → ChainSynchronizer
node c = record {
  blockchain = c;
  syncing = false;
  sync_progress = [];
  pending_requests = [];
  received_blocks = [];
  peer_status = [];
  sent = [];
}

abbrev remote_status : ChainStatus
remote_status = record {
  height = 1;
  latest_hash = block_a.hash;
  genesis_hash = genesis.hash;
  difficulty = 1;
  total_work = 4;
}

grown_height : remote_status.height + 1 ≡ length grown.chain
unfolding append_block
grown_height = refl

start_sync-answers_example :
    (asked : List (Message × Str)) × ((start_sync
        (some (λ m to. true))
        (node fresh)
        peer
        remote_status).0.sent
      ≡ [] ++ asked)
    × ((start_sync (some (λ m to. true)) (node fresh) peer remote_status).1 ≡ true)
    × (answers grown asked ≡ drop 1 grown.chain)
start_sync-answers_example =
    start_sync-answers (λ m to. true) (node fresh) peer grown remote_status (λ m to. refl) refl
      grown_height

abbrev blocks_message : List Block → Fields
blocks_message bs = field (codes "blocks") (arr (items (map Block.to_dict bs))) end

abbrev in_progress : ℕ → SyncProgress
in_progress n = fresh_progress downloading peer (pos n)

abbrev waiting_node : Blockchain → ChainSynchronizer
waiting_node c = record (node c) { syncing = true; sync_progress = (peer, in_progress 1) ∷ [] }

message_blocks :
    (bs : List Block)
    → get_field (blocks_message bs) (codes "blocks") ≡ some (arr (items (map Block.to_dict bs)))
unfolding get_field
message_blocks bs = refl

waiting_progress :
    (c : Blockchain) → Dict.get (waiting_node c).sync_progress peer ≡ some (in_progress 1)
unfolding Dict.get
waiting_progress c = refl

enough : at_most (pos 1) 1 ≡ true
unfolding at_most
enough = refl

grown_first : head? grown.chain ≡ some genesis
unfolding append_block
grown_first = refl

handle_chain_response-IsSafe_example :
    IsSafe toy fresh
      (handle_chain_response toy (waiting_node fresh) (blocks_message (block_a ∷ [])) peer)
handle_chain_response-IsSafe_example =
    handle_chain_response-IsSafe toy (waiting_node fresh) (blocks_message (block_a ∷ [])) peer

too_few : length (received_from (waiting_node grown) peer ++ (block_a ∷ [])) < length grown.chain
unfolding received_from Dict.get append_block
too_few = omega arith

handle_chain_response_short_example :
    (s' : ChainSynchronizer) × (handle_chain_response toy
        (waiting_node grown)
        (blocks_message (block_a ∷ []))
        peer
      ≡ (s', ok tt))
    × (s'.blockchain ≡ grown)
    × (Dict.get s'.sync_progress peer
        ≡ some (outcome (record (in_progress 1) { received_blocks = 1 }) (ok false)))
handle_chain_response_short_example =
    handle_chain_response_short toy (waiting_node grown) peer genesis block_a []
      (blocks_message (block_a ∷ [])) (in_progress 1) (message_blocks (block_a ∷ []))
      (waiting_progress grown) enough grown_first too_few
