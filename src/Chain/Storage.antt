-- ===== src/Chain/Storage.antt =====
-- `to_dict` and `from_dict` of `Blockchain`, and what survives them.
use blockchain_messaging_pro.Common.{
  none, some, List, [], ◌∷◌, map, Str, codes, Result, ok, err, ◌>>=◌, key_error, type_error, str_eq,
  nat_eq,
}
use blockchain_messaging_pro.Json.{
  Json, num, arr, obj, Fields, end, field, items, get_field, to_list,
}
use blockchain_messaging_pro.Block
use blockchain_messaging_pro.Block.{
  Block, messages_of, message_bytes, has_work, calculate_hash, new_block, mine, num_at, obj_at,
}
use blockchain_messaging_pro.Block.RoundTrip.{from_dict-to_dict}
use blockchain_messaging_pro.Common.{◌≡◌, refl, ap}
use blockchain_messaging_pro.Chain.Index.{IsIndexed}
use blockchain_messaging_pro.Chain.State.{
  max_block_size, max_pending_data, Blockchain, no_indexes, rebuild_index,
}

-- the fields that `to_dict` writes
abbrev pub items_of_blocks : List Block → List Json
items_of_blocks = map Block.to_dict

unfoldable pub to_dict : Blockchain → Json
to_dict s = obj (
    field (codes "version") (num 2) (
      field (codes "difficulty") (num s.difficulty) (
        field (codes "chain") (arr (items (items_of_blocks s.chain)))
          (field (codes "pending_data") (arr (items (map obj s.pending_data))) end))))

unfoldable pub blocks_from : List Json → Result (List Block)
blocks_from [] = ok []
blocks_from (j ∷ js) = do b ← Block.from_dict j; bs ← blocks_from js; ok (b ∷ bs)

unfoldable pub dicts_from : List Json → Result (List Fields)
dicts_from [] = ok []
dicts_from (obj d ∷ js) = do ds ← dicts_from js; ok (d ∷ ds)
dicts_from (_ ∷ js) = err type_error

unfoldable pub list_at : Fields → Str → Result (List Json)
list_at fs k = elim (get_field fs k) [
  | none ↦ err key_error
  | some (arr js) ↦ ok (to_list js)
  | some _ ↦ err type_error
]

-- `data.get("pending_data", [])`
unfoldable pub list_or_empty : Fields → Str → Result (List Json)
list_or_empty fs k = elim (get_field fs k) [
  | none ↦ ok []
  | some (arr js) ↦ ok (to_list js)
  | some _ ↦ err type_error
]

unfoldable pub from_dict : Json → Result Blockchain
from_dict (obj fs) = do
  difficulty ← num_at fs (codes "difficulty")
  block_dicts ← list_at fs (codes "chain")
  chain ← blocks_from block_dicts
  pending ← list_or_empty fs (codes "pending_data")
  pending_data ← dicts_from pending
  let rebuilt = rebuild_index (record {
    difficulty = difficulty;
    validator = none;
    max_block_size = max_block_size;
    max_pending = max_pending_data;
    chain = chain;
    pending_data = pending_data;
    indexes = no_indexes;
  })
  rebuilt.1 >>= λ done. ok rebuilt.0
from_dict _ = err type_error

pub to_list-items : (js : List Json) → to_list (items js) ≡ js
to_list-items [] = refl
to_list-items (j ∷ js) = ap (◌∷◌ j) (to_list-items js)

pub blocks_from-to_dict : (bs : List Block) → blocks_from (items_of_blocks bs) ≡ ok bs
unfolding blocks_from
blocks_from-to_dict [] = refl
blocks_from-to_dict (b ∷ bs) = rw (from_dict-to_dict b, blocks_from-to_dict bs)

dicts_from-obj : (ds : List Fields) → dicts_from (map obj ds) ≡ ok ds
unfolding dicts_from
dicts_from-obj [] = refl
dicts_from-obj (d ∷ ds) = rw (dicts_from-obj ds)

-- the chain as its file has it
abbrev pub with_defaults : Blockchain → Blockchain
with_defaults b = record b {
  validator = none;
  max_block_size = max_block_size;
  max_pending = max_pending_data;
}

-- Reading back the dictionary of a chain whose indexes are those of its blocks gives the same
-- difficulty, blocks, pending data and indexes; the validator is dropped and both limits are the
-- default ones.
pub from_dict-to_dict_chain :
    (s : Blockchain) → IsIndexed s → from_dict (to_dict s) ≡ ok (with_defaults s)
unfolding from_dict to_dict num_at list_at list_or_empty get_field rebuild_index
from_dict-to_dict_chain s h = rw (
  to_list-items (items_of_blocks s.chain),
  to_list-items (map obj s.pending_data),
  blocks_from-to_dict s.chain,
  dicts_from-obj s.pending_data,
  h,
)
