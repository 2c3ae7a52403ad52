-- ===== src/Media/Reading.antt =====
-- The blocks of a file: how many, and that they make it up.
use blockchain_messaging_pro.Common.{
  ℕ, zero, suc, ◌+◌, ◌-◌, ◌*◌, ◌/◌, ◌≤◌, ◌<◌, ◌≡◌, refl, ap, ◌∙◌, sym, none, some, List, [], ◌∷◌,
  ◌++◌, Bytes, Str, arith, length, length-take, take, drop, take-append-drop, length-drop,
}
use blockchain_messaging_pro.Media.{
  MediaType, image, audio, video, document, archive, unknown, MediaFile, get_chunk_size, read_loop,
  read_blocks, read_chunks, join, to_media_info, calculate_file_hash,
}

take_head : (size : ℕ) (x : ℕ) (xs : Bytes) → take (suc size) (x ∷ xs) ≡ x ∷ take size xs
take_head size x xs = refl

-- every block has at most this many bytes
abbrev pub Within : ℕ → List Bytes → Type 0
Within size [] = Unit {0}
Within size (block ∷ blocks) = (length block ≤ size) × Within size blocks

-- a block that has been read, before the others
read_block-Within :
    (limit : ℕ) (taken : Bytes) (blocks : List Bytes)
    → length taken ≤ limit
    → Within limit blocks
    → Within limit (elim taken [ [] ↦ [] | x ∷ xs ↦ (x ∷ xs) ∷ blocks ])
read_block-Within limit [] blocks h w = tt
read_block-Within limit (x ∷ xs) blocks h w = (h, w)

read_loop-Within :
    (limit fuel size : ℕ) (content : Bytes)
    → size ≤ limit
    → Within limit (read_loop fuel size content)
unfolding read_loop
read_loop-Within limit zero size content h = tt
read_loop-Within limit (suc fuel) size content h =
    read_block-Within limit (take size content) (read_loop fuel size (drop size content))
      (omega (arith, length-take size content))
      (read_loop-Within limit fuel size (drop size content) h)

get_chunk_size_bounds : (t : MediaType) → get_chunk_size t ≤ 1048576
unfolding get_chunk_size
get_chunk_size_bounds image = omega arith
get_chunk_size_bounds audio = omega arith
get_chunk_size_bounds video = omega arith
get_chunk_size_bounds document = omega arith
get_chunk_size_bounds archive = omega arith
get_chunk_size_bounds unknown = omega arith

-- No block that is read of a file has more than 1 MB.
pub read_chunks-Within :
    (limit : ℕ) (f : MediaFile)
    → 1048576 ≤ limit
    → Within limit (read_chunks f (some (get_chunk_size f.media_type)))
unfolding read_chunks read_blocks
read_chunks-Within limit f h =
    read_loop-Within limit (length f.content) (get_chunk_size f.media_type) f.content
      (omega (arith, h, get_chunk_size_bounds f.media_type))

module _ (size : ℕ) where
  join-read_loop :
      (fuel : ℕ) (content : Bytes)
      → length content ≤ fuel
      → join (read_loop fuel (suc size) content) ≡ content
  unfolding join read_loop
  join-read_loop zero [] h = refl
  join-read_loop zero (x ∷ xs) h = absurd (omega arith)
  join-read_loop (suc fuel) [] h = refl
  join-read_loop (suc fuel) (x ∷ xs) h =
      ap (◌++◌ (x ∷ take size xs))
        (join-read_loop fuel (drop size xs) (omega (arith, length-drop size xs)))
      ∙ ap (◌∷◌ x) (take-append-drop size xs)

  -- the rounds of the loop for a file of `n` bytes
  length-read_loop :
      (fuel : ℕ) (content : Bytes)
      → length content ≤ fuel
      → let k = length (read_loop fuel (suc size) content) in
        (length content ≤ k * suc size) × (k * suc size < length content + suc size)
  unfolding read_loop
  length-read_loop zero [] h = (omega arith, omega arith)
  length-read_loop zero (x ∷ xs) h = absurd (omega arith)
  length-read_loop (suc fuel) [] h = (omega arith, omega arith)
  length-read_loop (suc fuel) (x ∷ xs) h =
      let (lo, hi) = length-read_loop fuel (drop size xs) (omega (arith, length-drop size xs)) in
      let left = length-drop size xs in (grind arith, grind arith)

  join-read_blocks-suc : (content : Bytes) → join (read_blocks (suc size) content) ≡ content
  unfolding read_blocks
  join-read_blocks-suc content = join-read_loop (length content) content (omega arith)

  length-read_blocks-suc :
      (content : Bytes)
      → length (read_blocks (suc size) content) ≡ (length content + suc size - 1) / suc size
  unfolding read_blocks
  length-read_blocks-suc content =
      let (lo, hi) = length-read_loop (length content) content (omega arith) in grind arith

-- what is positive is a successor
positive_is_suc : (n : ℕ) → 0 < n → (k : ℕ) × (n ≡ suc k)
positive_is_suc zero h = absurd (omega arith)
positive_is_suc (suc k) h = (k, refl)

pub join-read_blocks :
    (size : ℕ) (content : Bytes) → 0 < size → join (read_blocks size content) ≡ content
join-read_blocks size content h =
    let (k, e) = positive_is_suc size h in
    ap (λ s. join (read_blocks s content)) e ∙ join-read_blocks-suc k content

pub length-read_blocks :
    (size : ℕ) (content : Bytes)
    → 0 < size
    → length (read_blocks size content) ≡ (length content + size - 1) / size
length-read_blocks size content h =
    let (k, e) = positive_is_suc size h in
    ap (λ s. length (read_blocks s content)) e
    ∙ length-read_blocks-suc k content
    ∙ ap (λ s. (length content + s - 1) / s) (sym e)

pub get_chunk_size_positive : (t : MediaType) → 0 < get_chunk_size t
unfolding get_chunk_size
get_chunk_size_positive image = omega arith
get_chunk_size_positive audio = omega arith
get_chunk_size_positive video = omega arith
get_chunk_size_positive document = omega arith
get_chunk_size_positive archive = omega arith
get_chunk_size_positive unknown = omega arith

-- The blocks that are read of a file, joined, are its content, and the metadata announce as many
-- blocks as there are, if the size is the content's.
pub read_chunks-to_media_info :
    (f : MediaFile)
    → f.size ≡ length f.content
    → (join (read_chunks f none) ≡ f.content)
      × (length (read_chunks f none) ≡ (to_media_info f).chunk_count)
unfolding read_chunks to_media_info
read_chunks-to_media_info f e =
    let positive = get_chunk_size_positive f.media_type in
    (
      join-read_blocks (get_chunk_size f.media_type) f.content positive,
      length-read_blocks (get_chunk_size f.media_type) f.content positive
          ∙ ap (λ n. (n + get_chunk_size f.media_type - 1) / get_chunk_size f.media_type) (sym e),
    )

pub calculate_file_hash-sha256 :
    (sha256 : Bytes → Str) (content : Bytes) → calculate_file_hash sha256 content ≡ sha256 content
unfolding calculate_file_hash
calculate_file_hash-sha256 sha256 content = ap sha256 (join-read_blocks 8192 content (omega arith))
