-- ===== src/Chain/State.antt =====
-- The state of `Blockchain`, its indexes, the mempool and the readers of src/core/blockchain.py.
use blockchain_messaging_pro.Common.{
  ℕ, suc, ◌+◌, ◌-◌, ◌/◌, ◌^◌, min, Bool, true, false, not, Option, none, some, List, [], ◌∷◌, ◌++◌,
  map, Str, codes, length, get_last?, slice, str_beq, ltb, leb, if◌then◌else◌, Result, ok, ◌>>=◌,
  expect, index_error, type_error, err, str_eq, nat_eq,
}
use blockchain_messaging_pro.Common.Dict
use blockchain_messaging_pro.Common.Dict.{Dict}
use blockchain_messaging_pro.Json.{
  Json, null, bool, num, float, str, arr, obj, Fields, end, field, items, get_field, dumps,
}
use blockchain_messaging_pro.Block.{Block, messages_of}

abbrev pub max_block_size : ℕ
max_block_size = 1_000_000

abbrev pub max_pending_data : ℕ
max_pending_data = 10_000

abbrev pub max_single_item_size : ℕ
max_single_item_size = max_block_size / 10

pub record ChainStatus : Type 0 where
  pub height : ℕ
  pub latest_hash : Str
  pub genesis_hash : Str
  pub difficulty : ℕ
  pub total_work : ℕ

-- `_block_index`, `_height_index`, `_message_index`
pub record Indexes : Type 0 where
  pub by_hash : Dict Str Block
  pub by_height : Dict ℕ Block
  pub by_message : Dict Str ℕ

pub record Blockchain : Type 0 where
  pub difficulty : ℕ
  pub validator : Option (Fields → Bool)
  pub max_block_size : ℕ
  pub max_pending : ℕ
  pub chain : List Block
  pub pending_data : List Fields
  pub indexes : Indexes

abbrev pub no_indexes : Indexes
no_indexes = record { by_hash = []; by_height = []; by_message = [] }

-- `isinstance(msg, dict) and "id" in msg`, for an id that is a text
unfoldable pub message_id : Json → Option Str
message_id (obj fs) = elim (get_field fs (codes "id")) [ some (str s) ↦ some s | _ ↦ none ]
message_id _ = none

-- a message whose id is a list or a dictionary, which cannot be a key
unfoldable pub unhashable : Json → Bool
unhashable (obj fs) = elim (get_field fs (codes "id")) [
  | some (arr js) ↦ true
  | some (obj d) ↦ true
  | _ ↦ false
]
unhashable _ = false

-- the loop over the messages of a block
unfoldable pub index_messages : ℕ → List Json → Dict Str ℕ → Dict Str ℕ × Result (Unit {0})
index_messages height [] d = (d, ok tt)
index_messages height (m ∷ ms) d = elim (unhashable m) [
  | true ↦ (d, err type_error)
  | false ↦
      index_messages height ms (elim (message_id m) [ none ↦ d | some k ↦ Dict.put d k height ])
]

abbrev pub messages_or_none : Block → List Json
messages_or_none b = elim (messages_of b.content) [ none ↦ [] | some ms ↦ ms ]

-- `"messages" in block.data`, with a value that is no list, text or dictionary: `for` raises
unfoldable pub unreadable : Fields → Bool
unreadable content = elim (get_field content (codes "messages")) [
  | some null ↦ true
  | some (bool b) ↦ true
  | some (num n) ↦ true
  | some (float t) ↦ true
  | _ ↦ false
]

-- the part of `_index_block` on message ids
unfoldable pub index_content : Block → Dict Str ℕ → Dict Str ℕ × Result (Unit {0})
index_content b d = elim (unreadable b.content) [
  | true ↦ (d, err type_error)
  | false ↦ index_messages b.index (messages_or_none b) d
]

-- What has been put into the indexes before an exception stays there.
unfoldable pub index_block : Indexes → Block → Indexes × Result (Unit {0})
index_block ix b =
    let r = index_content b ix.by_message in
    (
      record {
        by_hash = Dict.put ix.by_hash b.hash b;
        by_height = Dict.put ix.by_height b.index b;
        by_message = r.0;
      },
      r.1,
    )

-- the loop of `_rebuild_index`
unfoldable pub index_blocks : Indexes → List Block → Indexes × Result (Unit {0})
index_blocks ix [] = (ix, ok tt)
index_blocks ix (b ∷ bs) =
    let r = index_block ix b in elim r.1 [ ok done ↦ index_blocks r.0 bs | err e ↦ (r.0, err e) ]

-- `_rebuild_index`: the three dictionaries are cleared first
unfoldable pub rebuild_index : Blockchain → Blockchain × Result (Unit {0})
rebuild_index s = let r = index_blocks no_indexes s.chain in (record s { indexes = r.0 }, r.1)

-- `self.chain[-1]`
unfoldable pub latest_block : Blockchain → Result Block
latest_block s = expect index_error (get_last? s.chain)

-- `len(self.chain) - 1`, for a chain with its genesis block
unfoldable pub height : Blockchain → ℕ
height s = length s.chain - 1

-- `sum(2 ** difficulty for _ in chain)`
unfoldable pub work_of : ℕ → List Block → ℕ
work_of difficulty [] = 0
work_of difficulty (b ∷ bs) = 2 ^ difficulty + work_of difficulty bs

unfoldable pub total_work : Blockchain → ℕ
total_work s = work_of s.difficulty s.chain

unfoldable pub genesis_hash : Blockchain → Str
genesis_hash s = elim s.chain [ [] ↦ [] | b ∷ bs ↦ b.hash ]

unfoldable pub get_status : Blockchain → Result ChainStatus
get_status s = do
  b ← latest_block s
  ok (record {
    height = height s;
    latest_hash = b.hash;
    genesis_hash = genesis_hash s;
    difficulty = s.difficulty;
    total_work = total_work s;
  })

-- `len(json.dumps(data))`
unfoldable pub item_size : Fields → ℕ
item_size d = length (dumps false (obj d))

-- `self.validator and not self.validator(data)`
unfoldable pub rejects : Option (Fields → Bool) → Fields → Bool
rejects none d = false
rejects (some accepts) d = not (accepts d)

unfoldable pub add_data : Blockchain → Fields → Blockchain × Bool
add_data s d =
    if leb s.max_pending (length s.pending_data)
    then (s, false)
    else if ltb max_single_item_size (item_size d)
    then (s, false)
    else if rejects s.validator d
    then (s, false)
    else (record s { pending_data = s.pending_data ++ (d ∷ []) }, true)

-- The loop of `mine_pending`: the items that fit from `current_size` on, and the others.
unfoldable pub select : ℕ → ℕ → List Fields → List Fields × List Fields
select max_size current_size [] = ([], [])
select max_size current_size (d ∷ ds) = elim (leb (current_size + item_size d) max_size) [
  | true ↦
      let (block_data, remaining) = select max_size (current_size + item_size d) ds in
      (d ∷ block_data, remaining)
  | false ↦
      let (block_data, remaining) = select max_size current_size ds in (block_data, d ∷ remaining)
]

-- `{"messages": block_data}`
unfoldable pub block_content : List Fields → Fields
block_content ds = field (codes "messages") (arr (items (map obj ds))) end

abbrev pub genesis_content : Fields
genesis_content =
    field (codes "message") (str (codes "Genesis Block"))
      (field (codes "type") (str (codes "system")) end)

unfoldable pub get_block_by_hash : Blockchain → Str → Option Block
get_block_by_hash s h = Dict.get s.indexes.by_hash h

unfoldable pub get_block_by_height : Blockchain → ℕ → Option Block
get_block_by_height s h = Dict.get s.indexes.by_height h

unfoldable pub get_blocks_from : Blockchain → ℕ → ℕ → List Block
get_blocks_from s start_height count =
    slice s.chain start_height (min (start_height + count) (length s.chain))

unfoldable pub get_message_block : Blockchain → Str → Option Block
get_message_block s id = elim (Dict.get s.indexes.by_message id) [
  | none ↦ none
  | some h ↦ Dict.get s.indexes.by_height h
]

-- the messages of the blocks of a list, in order
unfoldable pub collect_messages : List Block → Result (List Json)
collect_messages [] = ok []
collect_messages (b ∷ bs) = elim (unreadable b.content) [
  | true ↦ err type_error
  | false ↦ do rest ← collect_messages bs; ok (messages_or_none b ++ rest)
]

-- the genesis block is skipped
unfoldable pub get_messages : Blockchain → Result (List Json)
get_messages s = elim s.chain [ [] ↦ ok [] | b ∷ bs ↦ collect_messages bs ]

-- the first position of a message with the id
unfoldable pub find_message : Str → List Json → Option ℕ
find_message id [] = none
find_message id (m ∷ ms) =
    if elim (message_id m) [ none ↦ false | some k ↦ str_beq k id ]
    then some 0
    else elim (find_message id ms) [ none ↦ none | some i ↦ some (suc i) ]

unfoldable pub should_accept_chain : Blockchain → ChainStatus → Bool
should_accept_chain s remote =
    if not (str_beq remote.genesis_hash (genesis_hash s))
    then false
    else if leb remote.total_work (total_work s)
    then false
    else true
