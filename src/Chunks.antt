-- ===== src/Chunks.antt =====
-- src/engine/chunker.py: splitting a payload into chunks and putting the chunks together again.
-- `sha256` is the hash function; the generated stream id is an argument.
pub mod Split
pub mod Buffer
pub mod Arrivals
pub mod Delivery
pub mod Iteration
use blockchain_messaging_pro.Common.{
  ℕ, zero, suc, ◌+◌, ◌-◌, ◌*◌, ◌/◌, min, Bool, true, false, not, Option, none, some, List, [], ◌∷◌,
  ◌++◌, Str, Bytes, length, slice, nat_beq, str_beq, if◌then◌else◌, Result, ok, err, ◌>>=◌, expect,
  value_error, key_error, zero_division, str_eq, nat_eq,
}
use blockchain_messaging_pro.Common.Dict
use blockchain_messaging_pro.Common.Dict.{Dict}

pub record Chunk : Type 0 where
  pub stream_id : Str
  pub sequence : ℕ
  pub total : ℕ
  pub content : Bytes
  pub hash : Str

pub record ReassemblyBuffer : Type 0 where
  pub stream_id : Str
  pub total : ℕ
  pub chunks : Dict ℕ Bytes

-- `data[start:end]` of round `i`
abbrev pub piece : ℕ → Bytes → ℕ → Bytes
piece chunk_size content i =
    slice content (i * chunk_size) (min (i * chunk_size + chunk_size) (length content))

unfoldable pub chunk_total : ℕ → Bytes → ℕ
chunk_total chunk_size content = (length content + chunk_size - 1) / chunk_size

unfoldable pub is_complete : ReassemblyBuffer → Bool
is_complete b = nat_beq (length b.chunks) b.total

-- the numbers of `range(i, i + rounds)` that are not among the keys
unfoldable pub missing_from : Dict ℕ Bytes → ℕ → ℕ → List ℕ
missing_from d i zero = []
missing_from d i (suc rounds) =
    let rest = missing_from d (suc i) rounds in if Dict.contains d i then rest else i ∷ rest

unfoldable pub missing : ReassemblyBuffer → List ℕ
missing b = missing_from b.chunks 0 b.total

-- the loop of `reassemble`, with the `join`
unfoldable pub collect : Dict ℕ Bytes → ℕ → ℕ → Result Bytes
collect d i zero = ok []
collect d i (suc rounds) = do
  part ← expect key_error (Dict.get d i)
  rest ← collect d (suc i) rounds
  ok (part ++ rest)

unfoldable pub reassemble : ReassemblyBuffer → Result Bytes
reassemble b = if not (is_complete b) then err value_error else collect b.chunks 0 b.total

-- `_buffers` of `ChunkReassembler`
abbrev pub Reassembler : Type 0
Reassembler = Dict Str ReassemblyBuffer

abbrev pub fresh_buffer : Str → ℕ → ReassemblyBuffer
fresh_buffer stream_id total = record { stream_id = stream_id; total = total; chunks = [] }

unfoldable pub get_missing : Reassembler → Str → Option (List ℕ)
get_missing r id = elim (Dict.get r id) [ none ↦ none | some b ↦ some (missing b) ]

unfoldable pub discard : Reassembler → Str → Reassembler × Bool
discard r id = if Dict.contains r id then (Dict.remove r id, true) else (r, false)

unfoldable pub active_streams : Reassembler → List Str
active_streams r = Dict.keys r

-- `if stream_id not in self._buffers: ...; buffer = self._buffers[stream_id]`
unfoldable pub buffer_for : Reassembler → Chunk → ReassemblyBuffer
buffer_for r c = elim (Dict.get r c.stream_id) [
  | none ↦ fresh_buffer c.stream_id c.total
  | some b ↦ b
]

module _ (sha256 : Bytes → Str) where
  -- the constructor, with `__post_init__`
  unfoldable pub new_chunk : Str → ℕ → ℕ → Bytes → Chunk
  new_chunk stream_id sequence total content = record {
    stream_id = stream_id;
    sequence = sequence;
    total = total;
    content = content;
    hash = sha256 content;
  }

  unfoldable pub verify : Chunk → Bool
  verify c = str_beq (sha256 c.content) c.hash

  -- the loop of `chunk`, from round `i` on
  unfoldable pub chunks_from : ℕ → Bytes → Str → ℕ → ℕ → ℕ → List Chunk
  chunks_from chunk_size content stream_id total i zero = []
  chunks_from chunk_size content stream_id total i (suc rounds) =
      new_chunk stream_id i total (piece chunk_size content i)
      ∷ chunks_from chunk_size content stream_id total (suc i) rounds

  -- a chunk size of zero is a `ZeroDivisionError`
  unfoldable pub chunk : ℕ → Bytes → Str → Result (List Chunk)
  chunk chunk_size content stream_id =
      let total = chunk_total chunk_size content in
      if nat_beq chunk_size 0
      then err zero_division
      else ok (chunks_from chunk_size content stream_id total 0 total)

  -- `ReassemblyBuffer.add_chunk`; a buffer is unchanged when it raises
  unfoldable pub add_to_buffer : ReassemblyBuffer → Chunk → Result (ReassemblyBuffer × Bool)
  add_to_buffer b c =
      if not (str_beq c.stream_id b.stream_id)
      then err value_error
      else if Dict.contains b.chunks c.sequence
      then ok (b, false)
      else if not (verify c)
      then err value_error
      else ok (record b { chunks = Dict.put b.chunks c.sequence c.content }, true)

  -- the part of `ChunkReassembler.add_chunk` after the buffer has the chunk
  unfoldable pub finish : Reassembler → ReassemblyBuffer → Str → Reassembler × Result (Option Bytes)
  finish r b id =
      if is_complete b
      then elim (reassemble b) [
        | ok content ↦ (Dict.remove r id, ok (some content))
        | err e ↦ (r, err e)
      ]
      else (r, ok none)

  -- The state comes back beside the result: a new buffer stays when the chunk is refused.
  unfoldable pub add_chunk : Reassembler → Chunk → Reassembler × Result (Option Bytes)
  add_chunk r c =
      let b = buffer_for r c in
      elim (add_to_buffer b c) [
        | err e ↦ (Dict.put r c.stream_id b, err e)
        | ok (b', added) ↦ finish (Dict.put r c.stream_id b') b' c.stream_id
      ]
