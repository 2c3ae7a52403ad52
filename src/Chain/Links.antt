-- ===== src/Chain/Links.antt =====
-- The validation loops against what they check, and how a chain grows.
use blockchain_messaging_pro.Common.{
  ℕ, ◌≡◌, refl, ◌↔◌, true, List, [], ◌∷◌, ◌++◌, Str, Bytes, arith, last_or, str_beq_iff, get_last?,
  get_last?-cons, subst, some,
}
use blockchain_messaging_pro.Block.{Block, has_work, calculate_hash}
use blockchain_messaging_pro.Block.Mining.{IsSealed}
use blockchain_messaging_pro.Chain.State.{Blockchain}
use blockchain_messaging_pro.Chain.Methods.{
  check_block, check_links, is_chain_valid, validate_chain,
}

module _ (sha256 : Bytes → Str) where
  -- what each block owes to the one before it
  pub record Follows (difficulty : ℕ) (previous current : Block) : Type 0 where
    pub is_sealed : IsSealed sha256 current
    pub linked : current.previous_hash ≡ previous.hash
    pub work : has_work difficulty current.hash ≡ true

  abbrev pub IsLinked : ℕ → Block → List Block → Type 0
  IsLinked difficulty previous [] = Unit
  IsLinked difficulty previous (b ∷ bs) = Follows difficulty previous b × IsLinked difficulty b bs

  -- a chain with a first block, each later one following
  abbrev pub IsChain : ℕ → List Block → Type 0
  IsChain difficulty [] = ⊥
  IsChain difficulty (b ∷ bs) = IsLinked difficulty b bs

  pub check_block_iff : (d : ℕ) (p b : Block) → (check_block sha256 d p b ≡ true) ↔ Follows d p b
  unfolding check_block
  check_block_iff d p b = (
    (λ h.
        ground (
          arith,
          str_beq_iff b.hash (calculate_hash sha256 b),
          str_beq_iff b.previous_hash p.hash,
        )),
    (λ h.
        ground (
          arith,
          str_beq_iff b.hash (calculate_hash sha256 b),
          str_beq_iff b.previous_hash p.hash,
        )),
  )

  check_links_sound :
      (d : ℕ) (p : Block) (bs : List Block) → check_links sha256 d p bs ≡ true → IsLinked d p bs
  unfolding check_links
  check_links_sound d p [] h = tt
  check_links_sound d p (b ∷ bs) h = ground (arith, check_block_iff d p b, check_links_sound d b bs)

  check_links_complete :
      (d : ℕ) (p : Block) (bs : List Block) → IsLinked d p bs → check_links sha256 d p bs ≡ true
  unfolding check_links
  check_links_complete d p [] h = refl
  check_links_complete d p (b ∷ bs) h =
      ground (arith, check_block_iff d p b, check_links_complete d b bs)

  -- `validate_chain` accepts exactly the lists that have a first block and in which every later
  -- block has the hash of its own fields, names the hash of the block before it and has enough
  -- work.
  pub validate_chain_iff :
      (s : Blockchain) (bs : List Block)
      → (validate_chain sha256 s bs ≡ true) ↔ IsChain s.difficulty bs
  unfolding validate_chain
  validate_chain_iff s [] = ((λ h. cc), (λ h. absurd h))
  validate_chain_iff s (b ∷ bs) =
      (check_links_sound s.difficulty b bs, check_links_complete s.difficulty b bs)

  pub is_chain_valid_of_IsChain :
      (s : Blockchain) → IsChain s.difficulty s.chain → is_chain_valid sha256 s ≡ true
  unfolding is_chain_valid
  is_chain_valid_of_IsChain s h = go s.chain refl
    where
      go : (bs : List Block) → s.chain ≡ bs → is_chain_valid sha256 s ≡ true
      go [] e = ground (arith, e)
      go (b ∷ bs) e =
          ground
            (arith, e, check_links_complete s.difficulty b bs (subst (IsChain s.difficulty) e h))

  pub IsLinked-append :
      (d : ℕ) (p : Block) (bs : List Block) (b : Block)
      → IsLinked d p bs
      → Follows d (last_or p bs) b
      → IsLinked d p (bs ++ (b ∷ []))
  IsLinked-append d p [] b h f = (f, tt)
  IsLinked-append d p (c ∷ bs) b h f = (h.0, IsLinked-append d c bs b h.1 f)

  last_eq :
      (latest c : Block) (bs : List Block)
      → get_last? (c ∷ bs) ≡ some latest
      → latest ≡ last_or c bs
  last_eq latest c bs e = cc (get_last?-cons c bs)

  pub IsChain-append :
      (d : ℕ) (bs : List Block) (latest b : Block)
      → IsChain d bs
      → get_last? bs ≡ some latest
      → Follows d latest b
      → IsChain d (bs ++ (b ∷ []))
  IsChain-append d [] latest b h e f = absurd h
  IsChain-append d (c ∷ bs) latest b h e f =
      IsLinked-append d c bs b h (subst (λ q. Follows d q b) (last_eq latest c bs e) f)
