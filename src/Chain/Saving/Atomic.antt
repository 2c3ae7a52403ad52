-- ===== src/Chain/Saving/Atomic.antt =====
-- src/core/blockchain.py: what `load` finds when `save` was interrupted at any moment, or ended.
use blockchain_messaging_pro.Common.{
  subst, ◌≡◌, ◌≢◌, ◌≤◌, ◌<◌, ◌⊎◌, inl, inr, refl, sym, Bool, true, false, List, none, some, ◌∷◌,
  Str, length, take, min, take_of_length-le, arith, Result, ok, err, blockchain_error, Bool-cases,
  str_eq, leb, ◌&&◌,
}
use blockchain_messaging_pro.Common.Dict
use blockchain_messaging_pro.Json.{Json}
use blockchain_messaging_pro.Chain.Mempool.{All, All-imp}
use blockchain_messaging_pro.Chain.State.{Blockchain}
use blockchain_messaging_pro.Chain.Index.{IsIndexed}
use blockchain_messaging_pro.Chain.Storage.{to_dict, with_defaults, from_dict-to_dict_chain}
use blockchain_messaging_pro.Chain.Saving.{
  Disk, Files, write_states, replace, end_file, close_file, save, decoded, load, OldOrNew,
  write_states-OldOrNew, put-OldOrNew, get-put_tmp, get-replace, get-remove-put,
}

-- What `load` finds depends on the text at the path only.
load-get :
    (loads : Str → Result Json) (f g : Files) (path : Str)
    → Dict.get f path ≡ Dict.get g path
    → load loads f path ≡ load loads g path
unfolding load
load-get loads f g path e = rw (load, e) refl

load_new :
    (loads : Str → Result Json) (f : Files) (path text : Str) (s : Blockchain)
    → Dict.get f path ≡ some text
    → loads text ≡ ok (to_dict s)
    → IsIndexed s
    → load loads f path ≡ ok (with_defaults s)
unfolding load decoded
load_new loads f path text s e reads indexed =
    rw (load, e, reads) (from_dict-to_dict_chain s indexed)

-- the files at a moment: `load` finds the old chain or the new one, and no other file differs
abbrev pub Consistent : (Str → Result Json) → Files → Str → Str → Blockchain → Files → Type 0
Consistent loads files path tmp s f =
    ((load loads f path ≡ load loads files path) ⊎ (load loads f path ≡ ok (with_defaults s)))
    × ((q : Str) → q ≢ path → q ≢ tmp → Dict.get f q ≡ Dict.get files q)

-- without an exception: `load` finds the new chain, and the temporary file is gone
abbrev pub Saved : (Str → Result Json) → Str → Str → Blockchain → Files → Result (Unit {0}) → Type 0
Saved loads path tmp s f outcome =
    (outcome ≡ ok tt) × (load loads f path ≡ ok (with_defaults s)) × (Dict.get f tmp ≡ none)

-- with an exception: `load` finds the old chain, and the temporary file is gone, or could not be
-- deleted
abbrev pub NotSaved :
    (Str → Result Json) → Disk → Files → Str → Str → Files → Result (Unit {0}) → Type 0
NotSaved loads d files path tmp f outcome =
    (outcome ≡ err blockchain_error)
    × (load loads f path ≡ load loads files path)
    × ((Dict.get f tmp ≡ none) ⊎ (d.unlinks ≡ false))

module _ (loads : Str → Result Json) (d : Disk) (files : Files) (path tmp text : Str)
    (s : Blockchain) (other : tmp ≢ path) (reads : loads text ≡ ok (to_dict s))
    (indexed : IsIndexed s) where
  OldOrNew-Consistent :
      (f : Files) → OldOrNew files path tmp text other f → Consistent loads files path tmp s f
  OldOrNew-Consistent f (at_path, others) = (
    elim at_path [
      | inl e ↦ inl (load-get loads f files path e)
      | inr e ↦ inr (load_new loads f path text s e reads indexed)
    ],
    others,
  )

  end_file_done :
      let r = end_file d (Dict.put files tmp text) path tmp true in
      Consistent loads files path tmp s r.0 × Saved loads path tmp s r.0 r.1
  unfolding end_file
  end_file_done =
      let (new, at_tmp, others) = get-replace files path tmp text other text in
      let f = replace (Dict.put files tmp text) tmp path in
      (
        OldOrNew-Consistent f (inr new, others),
        (refl, load_new loads f path text s new reads indexed, at_tmp),
      )

  end_file_failed :
      (content : Str)
      → let r = end_file d (Dict.put files tmp content) path tmp false in
        Consistent loads files path tmp s r.0 × NotSaved loads d files path tmp r.0 r.1
  unfolding end_file
  end_file_failed content = elim (Bool-cases d.unlinks) [
    | inl u ↦
        let (at_tmp, others) = get-remove-put files path tmp text other content in
        let f = Dict.remove (Dict.put files tmp content) tmp in
        let same = others path (λ e. other (sym e)) in
        rw u (
          OldOrNew-Consistent f (inl same, λ q h k. others q k),
          (refl, load-get loads f files path same, inl at_tmp),
        )
    | inr u ↦
        let f = Dict.put files tmp content in
        let same = get-put_tmp files path tmp text other content path (λ e. other (sym e)) in
        rw u (
          OldOrNew-Consistent f (put-OldOrNew files path tmp text other content),
          (refl, load-get loads f files path same, inr refl),
        )
  ]

  Ends : Files × Result (Unit {0}) → List Files → Type 0
  Ends r before =
      All (Consistent loads files path tmp s) (r.0 ∷ before)
      × ((Saved loads path tmp s r.0 r.1 × (length text ≤ d.written) × (d.replaces ≡ true))
          ⊎ (NotSaved loads d files path tmp r.0 r.1
              × ((d.written < length text) ⊎ (d.replaces ≡ false))))

  end_file-Ends :
      (b : Bool) (content : Str) (before : List Files)
      → All (Consistent loads files path tmp s) before
      → (b ≡ true → (content ≡ text) × (length text ≤ d.written) × (d.replaces ≡ true))
      → (b ≡ false → (d.written < length text) ⊎ (d.replaces ≡ false))
      → Ends (end_file d (Dict.put files tmp content) path tmp b) before
  unfolding Ends
  end_file-Ends true content before h whole cause =
      let (same, enough, replaces) = whole refl in
      let (now, saved) = end_file_done in
      subst (λ x. Ends (end_file d (Dict.put files tmp x) path tmp true) before) (sym same)
        ((now, h), inl (saved, enough, replaces))
  end_file-Ends false content before h whole cause =
      let (now, failed) = end_file_failed content in ((now, h), inr (failed, cause refl))

  take_written : length text ≤ d.written → take (min d.written (length text)) text ≡ text
  take_written h = take_of_length-le (min d.written (length text)) text (omega arith)

  close_file-Ends : let r = close_file d files path tmp text in Ends (r.0, r.2) r.1
  unfolding close_file
  close_file-Ends =
      let n = min d.written (length text) in
      end_file-Ends (leb (length text) d.written && d.replaces) (take n text)
        (write_states files tmp text n)
        (All-imp (OldOrNew files path tmp text other) (Consistent loads files path tmp s)
          (write_states files tmp text n) OldOrNew-Consistent
          (write_states-OldOrNew files path tmp text other n))
        (λ b. (take_written (ground arith), ground arith, ground arith))
        (λ b. elim (Bool-cases d.replaces) [
          | inl replaces ↦ inl (ground arith)
          | inr fails ↦ inr fails
        ])

-- When a chain is saved, with a temporary file that is not the one at the path, then at each moment
-- of the call, also if the program ends there, `load` finds what it found before or the chain, and no
-- other file but the temporary one differs. The call succeeds exactly if the whole text can be written
-- and the file replaced: then `load` finds the chain and the temporary file is gone. Otherwise it
-- raises an exception, `load` finds what it found before, and the temporary file is gone, or could
-- not be deleted. The chain has the indexes of its blocks and JSON reads it back; what is loaded has
-- no validator and the default limits.
pub save_atomic :
    (written : Json → Str) (loads : Str → Result Json) (d : Disk) (files : Files) (path tmp : Str)
    (s : Blockchain)
    → d.tmp_path ≡ some tmp
    → tmp ≢ path
    → IsIndexed s
    → loads (written (to_dict s)) ≡ ok (to_dict s)
    → let (after, before, outcome) = save written d files path s in
      let text = written (to_dict s) in
      All (Consistent loads files path tmp s) (after ∷ before)
      × ((Saved loads path tmp s after outcome × (length text ≤ d.written) × (d.replaces ≡ true))
          ⊎ (NotSaved loads d files path tmp after outcome
              × ((d.written < length text) ⊎ (d.replaces ≡ false))))
unfolding save Ends
save_atomic written loads d files path tmp s named other indexed reads =
    rw (save, named)
      (close_file-Ends loads d files path tmp (written (to_dict s)) s other reads indexed)
