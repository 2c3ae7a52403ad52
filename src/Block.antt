-- ===== src/Block.antt =====
-- The class `Block` of src/core/blockchain.py. `sha256` is the hash function, and the block's data
-- is a dictionary. A message list is looked up where the source does: a value of `messages` that is
-- no list is read as if it were absent.
pub mod Mining
pub mod RoundTrip
use blockchain_messaging_pro.Common.{
  ℕ, zero, suc, ◌+◌, Bool, true, false, not, ◌&&◌, Option, none, some, List, [], ◌∷◌, ◌++◌, map,
  Str, Bytes, codes, encode, length, replicate, starts_with, str_beq, if◌then◌else◌, Result, ok,
  err, ◌>>=◌, expect, key_error, type_error,
}
use blockchain_messaging_pro.Json.{
  Json, str, num, float, arr, obj, Fields, end, field, Items, to_list, get_field, dumps,
}
use blockchain_messaging_pro.Merkle.{calculate_merkle_root}

pub record Block : Type 0 where
  pub index : ℕ
  pub timestamp : Str
  pub content : Fields
  pub previous_hash : Str
  pub nonce : ℕ
  pub hash : Str
  pub merkle_root : Str

-- the keys of a dictionary
unfoldable pub field_names : Fields → List Json
field_names end = []
field_names (field k v fs) = str k ∷ field_names fs

-- what an iteration over `data["messages"]` yields, if it is there and can be iterated: a text has
-- its characters, and a dictionary its keys
unfoldable pub messages_of : Fields → Option (List Json)
messages_of content = elim (get_field content (codes "messages")) [
  | some (arr js) ↦ some (to_list js)
  | some (str t) ↦ some (map (λ c. str (c ∷ [])) t)
  | some (obj fs) ↦ some (field_names fs)
  | _ ↦ none
]

-- `json.dumps(m, sort_keys=True).encode()`
unfoldable pub message_bytes : Json → Bytes
message_bytes m = encode (dumps true m)

-- `startswith("0" * difficulty)`
unfoldable pub has_work : ℕ → Str → Bool
has_work difficulty hash = starts_with hash (replicate difficulty b'0')

-- the dictionary that is hashed
unfoldable pub hashed_fields : Block → Json
hashed_fields b = obj (
    field (codes "index") (num b.index) (
      field (codes "timestamp") (float b.timestamp) (
        field (codes "data") (obj b.content) (
          field (codes "previous_hash") (str b.previous_hash) (
            field (codes "nonce") (num b.nonce)
              (field (codes "merkle_root") (str b.merkle_root) end))))))

unfoldable pub to_dict : Block → Json
to_dict b = obj (
    field (codes "index") (num b.index) (
      field (codes "timestamp") (float b.timestamp) (
        field (codes "data") (obj b.content) (
          field (codes "previous_hash") (str b.previous_hash) (
            field (codes "nonce") (num b.nonce) (
              field (codes "hash") (str b.hash)
                (field (codes "merkle_root") (str b.merkle_root) end)))))))

-- `len(json.dumps(self.to_dict()))`
unfoldable pub size : Block → ℕ
size b = length (dumps false (to_dict b))

module _ (sha256 : Bytes → Str) where
  -- `_calculate_merkle_root`
  unfoldable pub merkle_root_of : Fields → Str
  merkle_root_of content = elim (messages_of content) [
    | some (m ∷ ms) ↦ calculate_merkle_root sha256 (map message_bytes (m ∷ ms))
    | _ ↦ sha256 []
  ]

  unfoldable pub calculate_hash : Block → Str
  calculate_hash b = sha256 (encode (dumps true (hashed_fields b)))

  -- The constructor, with `__post_init__`: `hash` is empty there, so both are computed.
  unfoldable pub new_block : ℕ → Str → Fields → Str → ℕ → Block
  new_block index timestamp content previous_hash nonce =
      let b : Block = record {
        index = index;
        timestamp = timestamp;
        content = content;
        previous_hash = previous_hash;
        nonce = nonce;
        hash = [];
        merkle_root = merkle_root_of content;
      } in
      record b { hash = calculate_hash b }

  -- the body of the loop of `mine`
  unfoldable pub next_nonce : Block → Block
  next_nonce b = let c = record b { nonce = b.nonce + 1 } in record c { hash = calculate_hash c }

  -- The loop of `mine`; `none` if the fuel ends first, since the source's loop has no bound.
  unfoldable pub mine : ℕ → ℕ → Block → Option Block
  mine zero difficulty b = none
  mine (suc fuel) difficulty b =
      let rest = mine fuel difficulty (next_nonce b) in
      if has_work difficulty b.hash then some b else rest

  unfoldable pub validate : ℕ → Block → Bool
  validate difficulty b =
      if not (str_beq b.hash (calculate_hash b))
      then false
      else if not (has_work difficulty b.hash)
      then false
      else true

-- `data[key]` of the type that the annotations give; another type is `type_error`, where the source
-- would go on with the value.
unfoldable pub num_at : Fields → Str → Result ℕ
num_at fs k = elim (get_field fs k) [
  | none ↦ err key_error
  | some (num n) ↦ ok n
  | some _ ↦ err type_error
]

unfoldable pub float_at : Fields → Str → Result Str
float_at fs k = elim (get_field fs k) [
  | none ↦ err key_error
  | some (float t) ↦ ok t
  | some _ ↦ err type_error
]

unfoldable pub str_at : Fields → Str → Result Str
str_at fs k = elim (get_field fs k) [
  | none ↦ err key_error
  | some (str s) ↦ ok s
  | some _ ↦ err type_error
]

unfoldable pub obj_at : Fields → Str → Result Fields
obj_at fs k = elim (get_field fs k) [
  | none ↦ err key_error
  | some (obj f) ↦ ok f
  | some _ ↦ err type_error
]

-- `data.get("merkle_root", "")`
unfoldable pub str_or : Fields → Str → Str → Result Str
str_or fs k default = elim (get_field fs k) [
  | none ↦ ok default
  | some (str s) ↦ ok s
  | some _ ↦ err type_error
]

-- `Block.from_dict`: the constructor computes a hash and a root, and both are overwritten.
unfoldable pub from_dict : Json → Result Block
from_dict (obj fs) = do
  index ← num_at fs (codes "index")
  timestamp ← float_at fs (codes "timestamp")
  content ← obj_at fs (codes "data")
  previous_hash ← str_at fs (codes "previous_hash")
  nonce ← num_at fs (codes "nonce")
  hash ← str_at fs (codes "hash")
  merkle_root ← str_or fs (codes "merkle_root") []
  ok (record {
    index = index;
    timestamp = timestamp;
    content = content;
    previous_hash = previous_hash;
    nonce = nonce;
    hash = hash;
    merkle_root = merkle_root;
  })
from_dict _ = err type_error
