-- ===== src/Block/Mining.antt =====
-- What the mining loop returns.
use blockchain_messaging_pro.Common.{
  ℕ, zero, suc, ◌<◌, ◌≡◌, refl, true, false, some, Bytes, Str, arith, str_beq_refl, Bool-cases, inl,
  inr, ◌⊎◌, subst, sym,
}
use blockchain_messaging_pro.Block.{
  Block, has_work, calculate_hash, new_block, next_nonce, mine, validate, hashed_fields,
}

zero_or_suc : (k : ℕ) → (k ≡ 0) ⊎ ((j : ℕ) × (k ≡ suc j))
zero_or_suc zero = inl refl
zero_or_suc (suc j) = inr (j, refl)

module _ (sha256 : Bytes → Str) where
  -- the hash belongs to the fields
  abbrev pub IsSealed : Block → Type 0
  IsSealed b = b.hash ≡ calculate_hash sha256 b

  -- the block of the `k`-th round
  unfoldable pub candidate : ℕ → Block → Block
  candidate zero b = b
  candidate (suc k) b = candidate k (next_nonce sha256 b)

  pub new_block-IsSealed :
      (index : ℕ) (timestamp : Str) (b : Block)
      → IsSealed (new_block sha256 index timestamp b.content b.previous_hash b.nonce)
  unfolding new_block calculate_hash hashed_fields
  new_block-IsSealed index timestamp b = refl

  pub next_nonce-IsSealed : (b : Block) → IsSealed (next_nonce sha256 b)
  unfolding next_nonce calculate_hash hashed_fields
  next_nonce-IsSealed b = refl

  -- what mining leaves alone
  pub record SameContent (b c : Block) : Type 0 where
    pub index : c.index ≡ b.index
    pub timestamp : c.timestamp ≡ b.timestamp
    pub content : c.content ≡ b.content
    pub previous_hash : c.previous_hash ≡ b.previous_hash
    pub merkle_root : c.merkle_root ≡ b.merkle_root

  pub candidate-SameContent : (k : ℕ) (b : Block) → SameContent b (candidate k b)
  unfolding candidate next_nonce
  candidate-SameContent zero b = record {
    index = refl;
    timestamp = refl;
    content = refl;
    previous_hash = refl;
    merkle_root = refl;
  }
  candidate-SameContent (suc k) b =
      let ih = candidate-SameContent k (next_nonce sha256 b) in
      record {
        index = ih.index;
        timestamp = ih.timestamp;
        content = ih.content;
        previous_hash = ih.previous_hash;
        merkle_root = ih.merkle_root;
      }

  pub candidate-IsSealed : (k : ℕ) (b : Block) → IsSealed b → IsSealed (candidate k b)
  unfolding candidate
  candidate-IsSealed zero b h = h
  candidate-IsSealed (suc k) b h =
      candidate-IsSealed k (next_nonce sha256 b) (next_nonce-IsSealed b)

  -- `b'` is the first candidate with enough work
  pub record IsMined (difficulty : ℕ) (b b' : Block) : Type 0 where
    pub rounds : ℕ
    pub found : b' ≡ candidate rounds b
    pub work : has_work difficulty b'.hash ≡ true
    pub first : (j : ℕ) → j < rounds → has_work difficulty (candidate j b).hash ≡ false

  later :
      (d : ℕ) (b : Block) (k : ℕ)
      → has_work d b.hash ≡ false
      → ((j : ℕ) → j < k → has_work d (candidate j (next_nonce sha256 b)).hash ≡ false)
      → (j : ℕ) → j < suc k
      → has_work d (candidate j b).hash ≡ false
  unfolding candidate
  later d b k h all zero lt = h
  later d b k h all (suc j) lt = all j (omega arith)

  found_now : (d : ℕ) (b : Block) → has_work d b.hash ≡ true → IsMined d b b
  unfolding candidate
  found_now d b h = record {
    rounds = 0;
    found = refl;
    work = h;
    first = λ j lt. absurd (omega arith);
  }

  found_later :
      (d : ℕ) (b b' : Block)
      → has_work d b.hash ≡ false
      → IsMined d (next_nonce sha256 b) b'
      → IsMined d b b'
  unfolding candidate
  found_later d b b' h m = record {
    rounds = suc m.rounds;
    found = m.found;
    work = m.work;
    first = later d b m.rounds h m.first;
  }

  pub mine-IsMined :
      (fuel difficulty k : ℕ) (b : Block)
      → k < fuel
      → has_work difficulty (candidate k b).hash ≡ true
      → (b' : Block) × (mine sha256 fuel difficulty b ≡ some b') × IsMined difficulty b b'
  unfolding mine candidate
  mine-IsMined zero d k b lt h = absurd (omega arith)
  mine-IsMined (suc fuel) d k b lt h = elim (Bool-cases (has_work d b.hash)) [
    | inl now ↦ (b, rw now, found_now d b now)
    | inr not_yet ↦ elim k_cases [
      | inl e ↦ cc (e, h, not_yet)
      | inr (j, e) ↦
          let (b', run, m) =
            mine-IsMined fuel d j (next_nonce sha256 b) (omega (arith, e)) (rw e at h) in
          (b', rw (not_yet, run), found_later d b b' not_yet m)
    ]
  ]
    where
      k_cases : (k ≡ 0) ⊎ ((j : ℕ) × (k ≡ suc j))
      k_cases = zero_or_suc k

  -- Whatever mining returns is the first candidate with enough work.
  pub IsMined-of_mine :
      (fuel difficulty : ℕ) (b b' : Block)
      → mine sha256 fuel difficulty b ≡ some b'
      → IsMined difficulty b b'
  unfolding mine candidate
  IsMined-of_mine zero d b b' h = cc
  IsMined-of_mine (suc fuel) d b b' h = elim (Bool-cases (has_work d b.hash)) [
    | inl now ↦ let e : b ≡ b' = ground arith in subst (IsMined d b) e (found_now d b now)
    | inr not_yet ↦
        found_later d b b' not_yet (IsMined-of_mine fuel d (next_nonce sha256 b) b' (ground arith))
  ]

  pub IsMined-IsSealed : {d : ℕ} {b b' : Block} → IsSealed b → IsMined d b b' → IsSealed b'
  IsMined-IsSealed {b = b} s m = subst IsSealed (sym m.found) (candidate-IsSealed m.rounds b s)

  pub IsMined-SameContent : {d : ℕ} {b b' : Block} → IsMined d b b' → SameContent b b'
  IsMined-SameContent {b = b} m =
      subst (SameContent b) (sym m.found) (candidate-SameContent m.rounds b)

  -- A block that mining found, from a block whose hash belongs to its fields, passes `validate`.
  pub IsMined-validate :
      (difficulty : ℕ) (b b' : Block)
      → IsSealed b
      → IsMined difficulty b b'
      → validate sha256 difficulty b' ≡ true
  unfolding validate
  IsMined-validate d b b' s m =
      ground (arith, m.work, str_beq_refl (calculate_hash sha256 b'), IsMined-IsSealed s m)
