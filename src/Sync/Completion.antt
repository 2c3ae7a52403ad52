-- ===== src/Sync/Completion.antt =====
-- The message that completes a download: what it leaves behind, on both outcomes.
use blockchain_messaging_pro.Common.{
  map, length-append, ◌+◌, ◌<◌, ◌≡◌, inl, inr, refl, sym, subst, ap, ◌∙◌, Bool, true, false, Option,
  none, some, List, [], ◌∷◌, ◌++◌, Str, Bytes, arith, length, head?, Result, ok, err, codes, str_eq,
}
use blockchain_messaging_pro.Common.Dict
use blockchain_messaging_pro.Common.Dict.{Dict, get-put_same, get-remove_same}
use blockchain_messaging_pro.Json.{Json, Fields, Items, arr, items, get_field, to_list}
use blockchain_messaging_pro.Block
use blockchain_messaging_pro.Block.{Block}
use blockchain_messaging_pro.Chain.State.{Blockchain}
use blockchain_messaging_pro.Chain.Storage.{
  blocks_from, list_or_empty, items_of_blocks, to_list-items, blocks_from-to_dict,
}
use blockchain_messaging_pro.Chain.Methods.{replace_chain}
use blockchain_messaging_pro.Chain.Replacement.{replace_chain_lem}
use blockchain_messaging_pro.Sync.{at_most, SyncProgress, ChainSynchronizer, set_progress}
use blockchain_messaging_pro.Sync.Transfer.{
  outcome, settle, apply_received, apply_sync, receive_blocks, decode_blocks, handle_chain_response,
  received_from, clean_up, take_blocks,
}

module _ (sha256 : Bytes → Str) where
  -- the branches that the last message takes
  list_step :
      (fs : Fields) (js : Items)
      → get_field fs (codes "blocks") ≡ some (arr js)
      → list_or_empty fs (codes "blocks") ≡ ok (to_list js)
  unfolding list_or_empty
  list_step fs js e = rw (list_or_empty, e) refl

  module _ (s : ChainSynchronizer) (id : Str) where
    handle_step :
        (fs : Fields) (js : List Json)
        → list_or_empty fs (codes "blocks") ≡ ok js
        → handle_chain_response sha256 s fs id ≡ take_blocks sha256 s id js
    unfolding handle_chain_response
    handle_step fs js e = rw (handle_chain_response, e) refl

    take_step :
        (p : SyncProgress) (j : Json) (js : List Json)
        → Dict.get s.sync_progress id ≡ some p
        → take_blocks sha256 s id (j ∷ js) ≡ decode_blocks sha256 s id p (j ∷ js)
    unfolding take_blocks
    take_step p j js e = rw (take_blocks, e) refl

    decode_step :
        (p : SyncProgress) (js : List Json) (blocks : List Block)
        → blocks_from js ≡ ok blocks
        → decode_blocks sha256 s id p js ≡ receive_blocks sha256 s id p blocks
    unfolding decode_blocks
    decode_step p js blocks e = rw (decode_blocks, e) refl

    apply_step :
        (p : SyncProgress) (blocks : List Block)
        → Dict.get s.sync_progress id ≡ some p
        → received_from s id ≡ blocks
        → apply_sync sha256 s id ≡ apply_received sha256 s id p blocks
    unfolding apply_sync
    apply_step p blocks e f = rw (apply_sync, e, f) refl

  module _ (s : ChainSynchronizer) (id : Str) (g b : Block) (bs : List Block) where
    abbrev so_far : List Block
    so_far = received_from s id ++ (b ∷ bs)

    abbrev counted : SyncProgress → SyncProgress
    counted p = record p { received_blocks = p.received_blocks + length (b ∷ bs) }

    apply_received_nonempty :
        (t : ChainSynchronizer) (p : SyncProgress) (xs : List Block)
        → 0 < length xs
        → head? t.blockchain.chain ≡ some g
        → apply_received sha256 t id p xs
          ≡ settle t id p (replace_chain sha256 t.blockchain (g ∷ xs))
    unfolding apply_received
    apply_received_nonempty t p [] h e = absurd (omega (arith, h))
    apply_received_nonempty t p (x ∷ xs) h e = rw (apply_received, e) refl

    -- the buffer and the request of the peer, after `replace_chain` has returned or raised
    abbrev pub IsCleared : Result Bool → ChainSynchronizer × Result (Unit {0}) → Type 0
    IsCleared (ok replaced) r =
        (r.1 ≡ ok tt)
        × (Dict.get r.0.received_blocks id ≡ none)
        × (Dict.get r.0.pending_requests id ≡ none)
    IsCleared (err e) r =
        (r.1 ≡ err e)
        × (Dict.get r.0.received_blocks id ≡ some so_far)
        × (r.0.pending_requests ≡ s.pending_requests)

    -- how the last message ends, by what `replace_chain` did
    pub record IsFinished (p : SyncProgress) (t : Blockchain × Result Bool)
        (r : ChainSynchronizer × Result (Unit {0})) : Type 0 where
      pub chain : r.0.blockchain ≡ t.0
      pub progress : Dict.get r.0.sync_progress id ≡ some (outcome (counted p) t.1)
      pub cleared : IsCleared t.1 r

    abbrev counted_state : SyncProgress → ChainSynchronizer
    counted_state p =
        set_progress (record s { received_blocks = Dict.put s.received_blocks id so_far }) id
          (counted p)

    decoded :
        (metadata : Fields) (p : SyncProgress)
        → get_field metadata (codes "blocks") ≡ some (arr (items (map Block.to_dict (b ∷ bs))))
        → Dict.get s.sync_progress id ≡ some p
        → handle_chain_response sha256 s metadata id ≡ receive_blocks sha256 s id p (b ∷ bs)
    decoded metadata p e found =
        handle_step s id metadata (items_of_blocks (b ∷ bs))
          (list_step metadata _ e ∙ ap ok (to_list-items (items_of_blocks (b ∷ bs))))
        ∙ take_step s id p (Block.to_dict b) (items_of_blocks bs) found
        ∙ decode_step s id p (items_of_blocks (b ∷ bs)) (b ∷ bs) (blocks_from-to_dict (b ∷ bs))

    abbrev or_none : Option (List Block) → List Block
    or_none o = elim o [ none ↦ [] | some bs ↦ bs ]

    apply_sync-counted :
        (p : SyncProgress)
        → apply_sync sha256 (counted_state p) id
          ≡ apply_received sha256 (counted_state p) id (counted p) so_far
    unfolding set_progress received_from
    apply_sync-counted p =
        apply_step (counted_state p) id (counted p) so_far
          (get-put_same s.sync_progress id (counted p))
          (ap or_none (get-put_same s.received_blocks id so_far))

    some_block : 0 < length so_far
    some_block = omega (arith, length-append (received_from s id) (b ∷ bs))

    settle-IsFinished :
        (p : SyncProgress) (t : Blockchain × Result Bool)
        → IsFinished p t (settle (counted_state p) id (counted p) t)
    unfolding settle clean_up set_progress
    settle-IsFinished p (chain, ok replaced) = record {
      chain = refl;
      progress = get-put_same (Dict.put s.sync_progress id (counted p)) id _;
      cleared = (refl, get-remove_same _ id, get-remove_same _ id);
    }
    settle-IsFinished p (chain, err e) = record {
      chain = refl;
      progress = get-put_same (Dict.put s.sync_progress id (counted p)) id _;
      cleared = (refl, get-put_same s.received_blocks id so_far, refl);
    }

    pub handle_chain_response_last :
        (metadata : Fields) (p : SyncProgress)
        → get_field metadata (codes "blocks") ≡ some (arr (items (map Block.to_dict (b ∷ bs))))
        → Dict.get s.sync_progress id ≡ some p
        → at_most p.total_blocks (p.received_blocks + length (b ∷ bs)) ≡ true
        → head? s.blockchain.chain ≡ some g
        → IsFinished p
            (replace_chain sha256 s.blockchain (g ∷ so_far))
            (handle_chain_response sha256 s metadata id)
    unfolding set_progress receive_blocks
    handle_chain_response_last metadata p e found enough first =
        let t = replace_chain sha256 s.blockchain (g ∷ so_far) in
        let run : handle_chain_response sha256 s metadata id
            ≡ settle (counted_state p) id (counted p) t =
          decoded metadata p e found
          ∙ rw (receive_blocks, enough) refl
          ∙ apply_sync-counted p
          ∙ apply_received_nonempty (counted_state p) (counted p) so_far some_block first in
        subst (IsFinished p t) (sym run) (settle-IsFinished p t)

    -- If the count reaches the total while fewer blocks have come than the chain has, the
    -- synchronization fails and the chain stays as it is.
    pub handle_chain_response_short :
        (metadata : Fields) (p : SyncProgress)
        → get_field metadata (codes "blocks") ≡ some (arr (items (map Block.to_dict (b ∷ bs))))
        → Dict.get s.sync_progress id ≡ some p
        → at_most p.total_blocks (p.received_blocks + length (b ∷ bs)) ≡ true
        → head? s.blockchain.chain ≡ some g
        → length (received_from s id ++ (b ∷ bs)) < length s.blockchain.chain
        → (s' : ChainSynchronizer) × (handle_chain_response sha256 s metadata id ≡ (s', ok tt))
          × (s'.blockchain ≡ s.blockchain)
          × (Dict.get s'.sync_progress id ≡ some (outcome (counted p) (ok false)))
    handle_chain_response_short metadata p e found enough first short =
        let finished = handle_chain_response_last metadata p e found enough first in
        let r = handle_chain_response sha256 s metadata id in
        elim (replace_chain_lem sha256 s.blockchain (g ∷ so_far)) [
          | inl (_, refused) ↦
              let end = subst (λ t. IsFinished p t r) refused finished in
              (r.0, ap (λ x. (r.0, x)) end.cleared.0, end.chain, end.progress)
          | inr (inl (_, longer, _, _)) ↦ absurd (omega (arith, short, longer))
          | inr (inr (_, longer, _, _, _)) ↦ absurd (omega (arith, short, longer))
        ]
