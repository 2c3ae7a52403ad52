-- ===== src/Sync/Adoption.antt =====
-- What a finished download does to the chain, whichever blocks the peer has sent.
use blockchain_messaging_pro.Common.{
  ◌+◌, ◌<◌, ◌≡◌, ◌⊎◌, inl, inr, refl, sym, subst, some, List, [], ◌∷◌, Str, Bytes, length, head?,
  Bool, Error, Result, ok, err, Bool-cases, Option-cases, Result-cases, codes, str_eq,
}
use blockchain_messaging_pro.Common.Dict
use blockchain_messaging_pro.Common.Dict.{Dict, get-put_same, get-remove_same}
use blockchain_messaging_pro.Json.{Json, Fields}
use blockchain_messaging_pro.Block.{Block}
use blockchain_messaging_pro.Chain.State.{Blockchain, index_blocks, no_indexes}
use blockchain_messaging_pro.Chain.Entries.{IsReadable}
use blockchain_messaging_pro.Chain.Index.{IsIndexed}
use blockchain_messaging_pro.Chain.Mempool.{All}
use blockchain_messaging_pro.Chain.Storage.{blocks_from, list_or_empty}
use blockchain_messaging_pro.Chain.Links.{IsChain}
use blockchain_messaging_pro.Chain.Replacement.{Replaced, replace_chain_lem}
use blockchain_messaging_pro.Sync.{at_most, SyncProgress, ChainSynchronizer, set_progress}
use blockchain_messaging_pro.Sync.Transfer.{
  settle, apply_received, apply_sync, receive_blocks, decode_blocks, handle_chain_response,
  received_from, clean_up, take_blocks,
}

module _ (sha256 : Bytes → Str) where
  -- The chain is linked and longer than before, from the same genesis block on, and what it has
  -- beside the blocks and the indexes is kept.
  pub record Adopts (c c' : Blockchain) : Type 0 where
    pub linked : IsChain sha256 c.difficulty c'.chain
    pub longer : length c.chain < length c'.chain
    pub genesis : head? c'.chain ≡ head? c.chain
    pub kept : c' ≡ record c { chain = c'.chain; indexes = (index_blocks no_indexes c'.chain).0 }

  -- how a handler ends that has replaced the chain
  abbrev pub Ends : ChainSynchronizer × Result (Unit {0}) → Type 0
  Ends r =
      ((r.1 ≡ ok tt) × IsIndexed r.0.blockchain)
      ⊎ (¬ (All IsReadable r.0.blockchain.chain) × (e : Error) × (r.1 ≡ err e))

  -- what a handler may do to the chain
  abbrev pub IsSafe : Blockchain → ChainSynchronizer × Result (Unit {0}) → Type 0
  IsSafe c r = (r.0.blockchain ≡ c) ⊎ (Adopts c r.0.blockchain × Ends r)

  settle-IsSafe :
      (s : ChainSynchronizer) (id : Str) (p : SyncProgress) (g : Block) (bs : List Block)
      {r : Blockchain × Result Bool}
      → head? s.blockchain.chain ≡ some g
      → Replaced sha256 s.blockchain (g ∷ bs) r
      → IsSafe s.blockchain (settle s id p r)
  unfolding settle set_progress clean_up
  settle-IsSafe s id p g bs h (inl (_, e)) =
      subst (λ r. IsSafe s.blockchain (settle s id p r)) (sym e) (inl refl)
  settle-IsSafe s id p g bs h (inr (inl (linked, longer, i, e))) =
      subst (λ r. IsSafe s.blockchain (settle s id p r)) (sym e)
        (inr (
          record { linked = linked; longer = longer; genesis = sym h; kept = refl },
          inl (refl, i),
        ))
  settle-IsSafe s id p g bs h (inr (inr (linked, longer, unread, x, e))) =
      subst (λ r. IsSafe s.blockchain (settle s id p r)) (sym e)
        (inr (
          record { linked = linked; longer = longer; genesis = sym h; kept = refl },
          inr (unread, x, refl),
        ))

  apply_received-IsSafe :
      (s : ChainSynchronizer) (id : Str) (p : SyncProgress) (bs : List Block)
      → IsSafe s.blockchain (apply_received sha256 s id p bs)
  unfolding apply_received set_progress
  apply_received-IsSafe s id p [] = inl refl
  apply_received-IsSafe s id p (b ∷ bs) = elim (Option-cases (head? s.blockchain.chain)) [
    | inl e ↦ rw (apply_received, e) (inl refl)
    | inr (g, e) ↦
        rw (apply_received, e)
          (settle-IsSafe s id p g (b ∷ bs) e (replace_chain_lem sha256 s.blockchain (g ∷ b ∷ bs)))
  ]

  apply_sync-IsSafe :
      (s : ChainSynchronizer) (id : Str) → IsSafe s.blockchain (apply_sync sha256 s id)
  unfolding apply_sync
  apply_sync-IsSafe s id = elim (Option-cases (Dict.get s.sync_progress id)) [
    | inl e ↦ rw (apply_sync, e) (inl refl)
    | inr (p, e) ↦ rw (apply_sync, e) (apply_received-IsSafe s id p (received_from s id))
  ]

  receive_blocks-IsSafe :
      (s : ChainSynchronizer) (id : Str) (p : SyncProgress) (blocks : List Block)
      → IsSafe s.blockchain (receive_blocks sha256 s id p blocks)
  unfolding receive_blocks set_progress
  receive_blocks-IsSafe s id p blocks =
      elim (Bool-cases (at_most p.total_blocks (p.received_blocks + length blocks))) [
        | inl e ↦ rw (e) (apply_sync-IsSafe _ id)
        | inr e ↦ rw (e) (inl refl)
      ]

  decode_blocks-IsSafe :
      (s : ChainSynchronizer) (id : Str) (p : SyncProgress) (js : List Json)
      → IsSafe s.blockchain (decode_blocks sha256 s id p js)
  unfolding decode_blocks set_progress
  decode_blocks-IsSafe s id p js = elim (Result-cases (blocks_from js)) [
    | inl (blocks, e) ↦ rw (decode_blocks, e) (receive_blocks-IsSafe s id p blocks)
    | inr (error, e) ↦ rw (decode_blocks, e) (inl refl)
  ]

  take_blocks-IsSafe :
      (s : ChainSynchronizer) (id : Str) (js : List Json)
      → IsSafe s.blockchain (take_blocks sha256 s id js)
  unfolding take_blocks
  take_blocks-IsSafe s id [] = inl refl
  take_blocks-IsSafe s id (j ∷ js) = elim (Option-cases (Dict.get s.sync_progress id)) [
    | inl e ↦ rw (take_blocks, e) (inl refl)
    | inr (p, e) ↦ rw (take_blocks, e) (decode_blocks-IsSafe s id p (j ∷ js))
  ]

  -- Whatever a peer sends, and whether `handle_chain_response` returns or raises an exception, the
  -- chain is either unchanged or replaced by a linked and longer one with the same first block and
  -- everything but the blocks and the indexes kept. After a replacement, either the handler returns
  -- and the indexes are those of the blocks, or it raises and some block cannot be indexed.
  pub handle_chain_response-IsSafe :
      (s : ChainSynchronizer) (metadata : Fields) (id : Str)
      → IsSafe s.blockchain (handle_chain_response sha256 s metadata id)
  unfolding handle_chain_response
  handle_chain_response-IsSafe s metadata id =
      elim (Result-cases (list_or_empty metadata (codes "blocks"))) [
        | inl (js, e) ↦ rw (handle_chain_response, e) (take_blocks-IsSafe s id js)
        | inr (error, e) ↦ rw (handle_chain_response, e) (inl refl)
      ]
