-- ===== src/Tests.antt =====
-- Concrete inputs, and each theorem that has hypotheses or parameters applied to one of them.
mod Trees
mod Blocks
pub mod Chains
mod Clients
mod Senders
mod Streams
mod Frames
mod Syncing
mod Directories
mod Disks
mod Messages
mod Keys
pub mod Wallets
mod Talks
mod Nodes
mod Pools
use blockchain_messaging_pro.Common.{◌≡◌, refl, ℕ, none, [], ◌∷◌, Bytes, Str, codes, replicate}
use blockchain_messaging_pro.Json.{Fields, get_field, str, end, field}
use blockchain_messaging_pro.Block.{Block, new_block, messages_of}
use blockchain_messaging_pro.Chain.State.{
  Blockchain, no_indexes, genesis_content, index_blocks, index_block, index_content, unreadable,
  index_messages,
}
use blockchain_messaging_pro.Chain.Index.{IsIndexed}
use blockchain_messaging_pro.Chain.Methods.{append_block}

-- a stand-in for the hash function: injective, and every value starts with a zero
abbrev pub toy : Bytes → Str
toy x = b'0' ∷ x

abbrev message_a : Fields
message_a = field (codes "id") (str (codes "a")) end

abbrev genesis : Block
genesis = new_block toy 0 (codes "1.0") genesis_content (replicate 64 b'0') 0

abbrev pub fresh : Blockchain
fresh =
    (append_block toy
      (record {
        difficulty = 1;
        validator = none;
        max_block_size = 1000;
        max_pending = 10;
        chain = [];
        pending_data = [];
        indexes = no_indexes;
      })
      genesis).0

pub fresh-IsIndexed : IsIndexed fresh
unfolding append_block index_blocks index_block index_content unreadable index_messages get_field
    new_block messages_of
fresh-IsIndexed = refl
