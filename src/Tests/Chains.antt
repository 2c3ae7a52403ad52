-- ===== src/Tests/Chains.antt =====
-- A chain with one message, from its creation to the proof of the message.
use blockchain_messaging_pro.Common.{
  ◌≡◌, ◌↔◌, ◌||◌, ◌++◌, Error, err, sym, encode, refl, subst, get_last?, true, false, none, some,
  [], ◌∷◌, codes, ok, arith, get_elem?,
}
use mathlib.Core.Bool.{false≢true}
use blockchain_messaging_pro.Json.{Fields, field, arr, items, end, obj, get_field, dumps}
use blockchain_messaging_pro.Merkle.{MerkleProof, calculate_merkle_root, build_tree}
use blockchain_messaging_pro.Block.{
  Block, hashed_fields, merkle_root_of, message_bytes, messages_of, has_work, new_block,
  calculate_hash, mine,
}
use blockchain_messaging_pro.Block.Mining.{candidate}
use blockchain_messaging_pro.Chain.State.{
  Blockchain, rebuild_index, index_blocks, index_block, index_content, index_messages, unreadable,
  unhashable, total_work, work_of, add_data, select, item_size, find_message, block_content,
  message_id, rejects, latest_block,
}
use blockchain_messaging_pro.Chain.Methods.{
  append_block, add_mined, init, mine_pending, mine_selected, fresh_block, replace_chain,
  validate_chain, check_links, check_block, get_merkle_proof,
}
use blockchain_messaging_pro.Chain.Entries.{IsHashable}
use blockchain_messaging_pro.Chain.Links.{IsChain, validate_chain_iff}
use blockchain_messaging_pro.Chain.Mempool.{All, IsSelection, select-IsSelection}
use blockchain_messaging_pro.Chain.Growth.{IsExtension, mine_pending_total, mine_pending_unhashable}
use blockchain_messaging_pro.Chain.Runs.{
  raises, IsValid, IsLocal, mined, init-IsLocal, mine_pending-IsLocal, here, next, add, adopt,
  start, step, Reach-IsValid, Grows-IsLocal,
}
use blockchain_messaging_pro.Chain.Replacement.{with_chain, Replaced, replace_chain_lem}
use blockchain_messaging_pro.Chain.Proofs.{IsProofOf}
use blockchain_messaging_pro.Chain.Recorded.{holds, get_merkle_proof_complete}
use blockchain_messaging_pro.Tests.{toy, message_a, genesis, fresh}

fresh-init : init toy 3 (codes "1.0") 1 none 1000 10 ≡ ok fresh
unfolding init mine has_work new_block calculate_hash append_block index_block index_content
    unreadable get_field index_messages messages_of
fresh-init = refl

fresh-IsLocal : IsLocal toy false fresh
fresh-IsLocal = (init-IsLocal toy 3 (codes "1.0") 1 none 1000 10 fresh-init).0

abbrev waiting : Blockchain
waiting = record fresh { pending_data = message_a ∷ [] }

abbrev pub block_a : Block
block_a = fresh_block toy waiting (codes "2.0") (message_a ∷ []) genesis

abbrev pub grown : Blockchain
grown = record (append_block toy waiting block_a).0 { pending_data = [] }

select-IsSelection_example :
    IsSelection 1000 0
      (message_a ∷ [])
      (select 1000 0 (message_a ∷ [])).0
      (select 1000 0 (message_a ∷ [])).1
select-IsSelection_example = select-IsSelection 1000 0 (message_a ∷ [])

replaced_a :
    replace_chain toy (add_data fresh message_a).0 (genesis ∷ block_a ∷ [])
    ≡ (with_chain toy waiting (genesis ∷ block_a ∷ []), ok true)
unfolding replace_chain validate_chain check_links check_block rebuild_index index_blocks
    index_block index_content index_messages unreadable unhashable total_work work_of has_work
    calculate_hash fresh_block new_block add_data append_block item_size dumps rejects get_field
    messages_of block_content message_id encode hashed_fields merkle_root_of calculate_merkle_root
    build_tree message_bytes
replaced_a = refl

-- The chain of two blocks is adopted, then an item is added.
Reach-IsValid_example :
    let adopted = replace_chain toy (add_data fresh message_a).0 (genesis ∷ block_a ∷ []) in
    IsValid toy (raises adopted.1 || false) (add_data adopted.0 message_a).0
Reach-IsValid_example =
    Reach-IsValid toy fresh-IsLocal.valid
      (next (adopt (genesis ∷ block_a ∷ []) (next here (add message_a))) (add message_a))

Grows-IsLocal_example :
    let mined = mine_pending toy 3 (codes "2.0") (add_data fresh message_a).0 in
    IsLocal toy (raises mined.1) mined.0
Grows-IsLocal_example =
    Grows-IsLocal toy fresh-IsLocal (step (step start (add message_a)) (mined 3 (codes "2.0")))

validate_chain_iff_example :
    (validate_chain toy fresh (genesis ∷ block_a ∷ []) ≡ true)
    ↔ IsChain toy fresh.difficulty (genesis ∷ block_a ∷ [])
validate_chain_iff_example = validate_chain_iff toy fresh (genesis ∷ block_a ∷ [])

replace_chain_lem_example :
    Replaced toy fresh (genesis ∷ block_a ∷ []) (replace_chain toy fresh (genesis ∷ block_a ∷ []))
replace_chain_lem_example = replace_chain_lem toy fresh (genesis ∷ block_a ∷ [])

waiting_added : (add_data fresh message_a).0 ≡ waiting
unfolding add_data append_block item_size dumps rejects
waiting_added = refl

mined_a : mine_pending toy 3 (codes "2.0") waiting ≡ (grown, ok (some block_a))
unfolding mine_pending mine_selected select append_block fresh_block mine has_work new_block
    calculate_hash item_size dumps latest_block add_mined index_block index_content unreadable
    get_field block_content index_messages messages_of unhashable
mined_a = refl

waiting_latest : get_last? waiting.chain ≡ some genesis
unfolding append_block
waiting_latest = refl

waiting_selected : select waiting.max_block_size 0 waiting.pending_data ≡ (message_a ∷ [], [])
unfolding select item_size dumps append_block
waiting_selected = refl

block_a_work : has_work waiting.difficulty (candidate toy 0 block_a).hash ≡ true
unfolding has_work candidate fresh_block new_block calculate_hash append_block
block_a_work = refl

message_a-IsHashable : All (λ d. IsHashable (obj d)) (message_a ∷ [])
unfolding unhashable get_field
message_a-IsHashable = (refl, tt)

mine_pending_total_example :
    (b : Block) × IsExtension toy (codes "2.0") waiting b
    × ((append_block toy waiting b).1 ≡ ok tt)
    × (mine_pending toy 3 (codes "2.0") waiting
        ≡ (record (append_block toy waiting b).0 { pending_data = [] }, ok (some b)))
mine_pending_total_example =
    mine_pending_total toy 3 0 (codes "2.0") waiting genesis message_a [] [] waiting_latest
      waiting_selected message_a-IsHashable (omega arith) block_a_work

-- an item whose id is a list
abbrev message_b : Fields
message_b = field (codes "id") (arr (items [])) end

abbrev stuck : Blockchain
stuck = record fresh { pending_data = message_b ∷ [] }

stuck_selected : select stuck.max_block_size 0 stuck.pending_data ≡ (message_b ∷ [], [])
unfolding select item_size dumps append_block
stuck_selected = refl

not-IsHashable : ¬ (All (λ d. IsHashable (obj d)) (message_b ∷ []))
unfolding unhashable get_field
not-IsHashable h = false≢true (sym h.0)

stuck_work :
    has_work stuck.difficulty
      (candidate toy 0 (fresh_block toy stuck (codes "2.0") (message_b ∷ []) genesis)).hash
    ≡ true
unfolding has_work candidate fresh_block new_block calculate_hash append_block
stuck_work = refl

mine_pending_unhashable_example :
    (b : Block) × (e : Error) × IsExtension toy (codes "2.0") stuck b
    × (mine_pending toy 3 (codes "2.0") stuck ≡ (
      record stuck { chain = stuck.chain ++ (b ∷ []); indexes = (index_block stuck.indexes b).0 },
      err e,
    ))
mine_pending_unhashable_example =
    mine_pending_unhashable toy 3 0 (codes "2.0") stuck genesis message_b [] [] waiting_latest
      stuck_selected not-IsHashable (omega arith) stuck_work

grown-IsLocal : IsLocal toy false grown
unfolding raises
grown-IsLocal =
    subst (λ p. IsLocal toy (raises p.1) p.0) mined_a
      (mine_pending-IsLocal toy 3 (codes "2.0") false waiting (
        subst (IsLocal toy false) waiting_added
          (Grows-IsLocal toy fresh-IsLocal (step start (add message_a)))))

grown_at : get_elem? grown.chain 1 ≡ some block_a
unfolding append_block
grown_at = refl

block_a-holds : holds (codes "a") block_a ≡ true
unfolding find_message fresh_block new_block block_content get_field message_id messages_of
block_a-holds = refl

abbrev proof_of_a :
    (p : MerkleProof) × (get_merkle_proof toy grown (codes "a") ≡ some p)
    × IsProofOf toy grown (codes "a") p
proof_of_a =
    get_merkle_proof_complete toy grown (codes "a") 1 block_a grown-IsLocal grown_at block_a-holds
