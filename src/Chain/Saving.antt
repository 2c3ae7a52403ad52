-- ===== src/Chain/Saving.antt =====
-- `save` and `load` of `Blockchain`. Of the files the model has the paths with their texts; what the
-- operating system answers to one call of `save` is the record `Disk`. The text of `json.dump` with
-- its indentation is a parameter, and so is `json.load`.
pub mod Atomic
use blockchain_messaging_pro.Common.{
  ℕ, zero, suc, ◌≡◌, ◌≢◌, ◌⊎◌, inl, refl, sym, ap, ◌∙◌, Bool, true, false, ◌&&◌, Option, none, some,
  List, [], ◌∷◌, Str, length, take, leb, if◌then◌else◌, Result, ok, err, ◌>>=◌, value_error,
  os_error, blockchain_error, str_eq, nat_eq, arith, min, str_beq, str_beq_iff,
}
use blockchain_messaging_pro.Common.Dict
use blockchain_messaging_pro.Common.Dict.{Dict, get-put, get-put_same, get-remove}
use blockchain_messaging_pro.Json.{Json}
use blockchain_messaging_pro.Chain.State.{Blockchain, no_indexes}
use blockchain_messaging_pro.Chain.Mempool.{All}
use blockchain_messaging_pro.Chain.Storage.{to_dict, from_dict}

pub record Disk : Type 0 where
  -- the path of `mkstemp`; without one the directory or the file cannot be made
  pub tmp_path : Option Str
  -- how many characters are written before an exception
  pub written : ℕ
  pub replaces : Bool
  pub unlinks : Bool

abbrev pub Files : Type 0
Files = Dict Str Str

-- the files after each character that is written to the temporary file, the latest first
unfoldable pub write_states : Files → Str → Str → ℕ → List Files
write_states files tmp text zero = Dict.put files tmp [] ∷ files ∷ []
write_states files tmp text (suc n) =
    Dict.put files tmp (take (suc n) text) ∷ write_states files tmp text n

-- `os.replace`
unfoldable pub replace : Files → Str → Str → Files
replace files tmp path = elim (Dict.get files tmp) [
  | none ↦ files
  | some text ↦ Dict.put (Dict.remove files tmp) path text
]

-- the end of the `try`, or its handler where something has failed
unfoldable pub end_file : Disk → Files → Str → Str → Bool → Files × Result (Unit {0})
end_file d now path tmp true = (replace now tmp path, ok tt)
end_file d now path tmp false =
    (if d.unlinks then Dict.remove now tmp else now, err blockchain_error)

unfoldable pub close_file : Disk → Files → Str → Str → Str → Files × List Files × Result (Unit {0})
close_file d files path tmp text =
    let n = min d.written (length text) in
    let now = Dict.put files tmp (take n text) in
    let (after, outcome) = end_file d now path tmp (leb (length text) d.written && d.replaces) in
    (after, write_states files tmp text n, outcome)

-- The files after the call, those at each moment before, the latest first, and the outcome.
unfoldable pub save :
    (Json → Str) → Disk → Files → Str → Blockchain → Files × List Files × Result (Unit {0})
save written d files path s = elim d.tmp_path [
  | none ↦ (files, [], err os_error)
  | some tmp ↦ close_file d files path tmp (written (to_dict s))
]

-- `JSONDecodeError` becomes a `BlockchainError`
unfoldable pub decoded : Result Json → Result Json
decoded (ok j) = ok j
decoded (err value_error) = err blockchain_error
decoded (err e) = err e

unfoldable pub load : (Str → Result Json) → Files → Str → Result Blockchain
load loads files path = elim (Dict.get files path) [
  | none ↦ err blockchain_error
  | some text ↦ do j ← decoded (loads text); from_dict j
]

module _ (files : Files) (path tmp text : Str) (other : tmp ≢ path) where
  -- What is at the path is the old text or the new one, and no file but the temporary one differs.
  abbrev pub OldOrNew : Files → Type 0
  OldOrNew f =
      ((Dict.get f path ≡ Dict.get files path) ⊎ (Dict.get f path ≡ some text))
      × ((q : Str) → q ≢ path → q ≢ tmp → Dict.get f q ≡ Dict.get files q)

  pub get-put_tmp :
      (content q : Str) → q ≢ tmp → Dict.get (Dict.put files tmp content) q ≡ Dict.get files q
  get-put_tmp content q h = ground (arith, get-put files tmp q content, str_beq_iff tmp q)

  pub put-OldOrNew : (content : Str) → OldOrNew (Dict.put files tmp content)
  put-OldOrNew content =
      (inl (get-put_tmp content path (λ e. other (sym e))), λ q h k. get-put_tmp content q k)

  pub write_states-OldOrNew : (n : ℕ) → All OldOrNew (write_states files tmp text n)
  unfolding write_states
  write_states-OldOrNew zero = (put-OldOrNew [], ((inl refl, λ q h k. refl), tt))
  write_states-OldOrNew (suc n) = (put-OldOrNew (take (suc n) text), write_states-OldOrNew n)

  -- after the temporary file has taken the place of the other
  replace-put :
      (content : Str)
      → replace (Dict.put files tmp content) tmp path
        ≡ Dict.put (Dict.remove (Dict.put files tmp content) tmp) path content
  unfolding replace
  replace-put content = rw (replace, get-put_same files tmp content) refl

  pub get-replace :
      (content : Str)
      → let f = replace (Dict.put files tmp content) tmp path in
        (Dict.get f path ≡ some content)
        × (Dict.get f tmp ≡ none)
        × ((q : Str) → q ≢ path → q ≢ tmp → Dict.get f q ≡ Dict.get files q)
  get-replace content =
      let now = Dict.put files tmp content in
      let at : (q : Str)
          → Dict.get (replace now tmp path) q ≡ (
              if str_beq path q
              then some content
              else if str_beq tmp q
              then none
              else Dict.get files q) =
        λ q.
          ap (λ f. Dict.get f q) (replace-put content)
          ∙ ground (
            arith,
            get-put (Dict.remove now tmp) path q content,
            get-remove now tmp q,
            get-put files tmp q content,
          ) in
      (
        ground (arith, at path, str_beq_iff path path),
        ground (arith, at tmp, str_beq_iff path tmp, str_beq_iff tmp tmp),
        λ q h k. ground (arith, at q, str_beq_iff path q, str_beq_iff tmp q),
      )

  pub get-remove-put :
      (content : Str)
      → let f = Dict.remove (Dict.put files tmp content) tmp in
        (Dict.get f tmp ≡ none) × ((q : Str) → q ≢ tmp → Dict.get f q ≡ Dict.get files q)
  get-remove-put content =
      let now = Dict.put files tmp content in
      (
        ground (arith, get-remove now tmp tmp, str_beq_iff tmp tmp),
        λ q h. ground (arith, get-remove now tmp q, get-put files tmp q content, str_beq_iff tmp q),
      )
