-- ===== src/Engine/Secrets.antt =====
-- The secrets that an engine shares with its peers, and the content of protected messages.
use blockchain_messaging_pro.Common.{
  ◌≡◌, ◌≢◌, refl, sym, ap, ◌∙◌, ◌⊎◌, inl, inr, Option, none, some, [], ◌∷◌, Str, Bytes, str_eq,
  Option-cases,
}
use blockchain_messaging_pro.Common.Dict
use blockchain_messaging_pro.Common.Dict.{Dict, get-put_same}
use blockchain_messaging_pro.Crypto.{Wallet, Primitives, encrypt_message}
use blockchain_messaging_pro.Message.{MessagePayload}
use blockchain_messaging_pro.Peers.{Peer}
use blockchain_messaging_pro.Engine.{
  Engine, given, get_shared_secret, protect, opened, open_content,
}

-- the secret of two wallets, as the first computes it
abbrev pub secret_with : Primitives → Wallet → Wallet → Bytes
secret_with c own other =
    c.derive_shared_secret own.encryption_keys.private_key other.encryption_keys.public_key

-- What the engine knows of a peer are the public keys of this wallet, and a secret that it has kept
-- for the peer was made with them.
pub record Trusts (c : Primitives) (s : Engine) (p : Peer) (other : Wallet) : Type 0 where
  pub signing : given p.public_key ≡ some other.signing_keys.public_key
  pub encryption : given p.encryption_key ≡ some other.encryption_keys.public_key
  pub cached :
      (Dict.get s.shared_secrets p.id ≡ none)
      ⊎ (Dict.get s.shared_secrets p.id ≡ some (secret_with c s.wallet other))

pub given_not_empty : (b : Bytes) → b ≢ [] → given (some b) ≡ some b
unfolding given
given_not_empty [] h = absurd (h refl)
given_not_empty (x ∷ xs) h = refl

-- the engine after a secret is kept
abbrev pub with_secrets : Engine → Dict Str Bytes → Engine
with_secrets s d = record s { shared_secrets = d }

module _ (c : Primitives) where
  -- `_get_shared_secret` gives the secret of the two wallets, and changes the kept secrets only.
  pub get_shared_secret_trusted :
      (s : Engine) (p : Peer) (other : Wallet)
      → Trusts c s p other
      → (d : Dict Str Bytes) × (get_shared_secret c s p
          ≡ (with_secrets s d, some (secret_with c s.wallet other)))
  unfolding get_shared_secret
  get_shared_secret_trusted s p other t = elim t.cached [
    | inl e ↦ (
      Dict.put s.shared_secrets p.id (secret_with c s.wallet other),
      rw (get_shared_secret, t.encryption, e) refl,
    )
    | inr e ↦ (s.shared_secrets, rw (get_shared_secret, t.encryption, e) refl)
  ]

  pub protect_secret :
      (secret nonce plain : Bytes)
      → secret ≢ []
      → protect c (some secret) nonce plain ≡ (some nonce, c.encrypt secret nonce plain)
  unfolding protect encrypt_message
  protect_secret secret nonce plain h = rw (protect, given_not_empty secret h) refl

  pub opened_secret :
      (m : MessagePayload) (secret nonce : Bytes)
      → m.nonce ≡ some nonce
      → nonce ≢ []
      → secret ≢ []
      → opened c (some secret) m ≡ c.decrypt_message m.content secret nonce
  unfolding opened
  opened_secret m secret nonce e h i =
      rw (opened, ap given e ∙ given_not_empty nonce h, given_not_empty secret i) refl

  pub get_shared_secret_keeps :
      (s : Engine) (p : Peer)
      → (d : Dict Str Bytes) × ((get_shared_secret c s p).0 ≡ with_secrets s d)
  unfolding get_shared_secret
  get_shared_secret_keeps s p = elim (Option-cases (given p.encryption_key)) [
    | inl e ↦ (s.shared_secrets, rw (get_shared_secret, e) refl)
    | inr (key, e) ↦ elim (Option-cases (Dict.get s.shared_secrets p.id)) [
      | inl f ↦ (
        Dict.put s.shared_secrets p.id
            (c.derive_shared_secret s.wallet.encryption_keys.private_key key),
        rw (get_shared_secret, e, f) refl,
      )
      | inr (secret, f) ↦ (s.shared_secrets, rw (get_shared_secret, e, f) refl)
    ]
  ]

  -- Opening a message changes the kept secrets only.
  pub open_content_keeps :
      (s : Engine) (p : Peer) (m : MessagePayload)
      → (d : Dict Str Bytes) × ((open_content c s p m).0 ≡ with_secrets s d)
  unfolding open_content
  open_content_keeps s p m = elim (Option-cases (given m.nonce)) [
    | inl e ↦ (s.shared_secrets, rw (open_content, e) refl)
    | inr (n, e) ↦
        let (d, kept) = get_shared_secret_keeps s p in (d, rw (open_content, e) refl ∙ kept)
  ]

  pub open_content-eq-opened :
      (s : Engine) (p : Peer) (m : MessagePayload)
      → (open_content c s p m).1 ≡ opened c (get_shared_secret c s p).1 m
  unfolding open_content opened
  open_content-eq-opened s p m = elim (Option-cases (given m.nonce)) [
    | inl e ↦ rw (open_content, opened, e) refl
    | inr (n, e) ↦ rw (open_content, e) refl
  ]

  secret_kept :
      (s : Engine) (p : Peer) (key kept : Bytes)
      → given p.encryption_key ≡ some key
      → Dict.get s.shared_secrets p.id ≡ some kept
      → get_shared_secret c s p ≡ (s, some kept)
  unfolding get_shared_secret
  secret_kept s p key kept e f = rw (get_shared_secret, e, f) refl

  secret_again :
      (s : Engine) (p : Peer)
      → (get_shared_secret c (get_shared_secret c s p).0 p).1 ≡ (get_shared_secret c s p).1
  unfolding get_shared_secret
  secret_again s p = elim (Option-cases (given p.encryption_key)) [
    | inl e ↦ rw (get_shared_secret, e) refl
    | inr (key, e) ↦
        let secret = c.derive_shared_secret s.wallet.encryption_keys.private_key key in
        let d = Dict.put s.shared_secrets p.id secret in
        elim (Option-cases (Dict.get s.shared_secrets p.id)) [
          | inl f ↦
              let first : get_shared_secret c s p ≡ (with_secrets s d, some secret) =
                rw (get_shared_secret, e, f) refl in
              ap (λ r. (get_shared_secret c r.0 p).1) first
              ∙ ap (λ r. r.1)
                  (secret_kept (with_secrets s d) p key secret e
                    (get-put_same s.shared_secrets p.id secret))
              ∙ sym (ap (λ r. r.1) first)
          | inr (kept, f) ↦ ap (λ r. (get_shared_secret c r.0 p).1) (secret_kept s p key kept e f)
        ]
  ]

  -- A secret that was looked up once stays the same.
  pub get_shared_secret_stable :
      (s : Engine) (p : Peer) (m : MessagePayload)
      → (get_shared_secret c (open_content c s p m).0 p).1 ≡ (get_shared_secret c s p).1
  unfolding open_content
  get_shared_secret_stable s p m = elim (Option-cases (given m.nonce)) [
    | inl e ↦ rw (open_content, e) refl
    | inr (n, e) ↦
        ap (λ r. (get_shared_secret c r p).1) (rw (open_content, e) refl) ∙ secret_again s p
  ]

  -- the secret, of the private key, the kept secrets and the peer alone
  unfoldable pub secret_from : Bytes → Dict Str Bytes → Peer → Option Bytes
  secret_from private_key d p = elim (given p.encryption_key) [
    | none ↦ none
    | some key ↦ elim (Dict.get d p.id) [
      | some secret ↦ some secret
      | none ↦ some (c.derive_shared_secret private_key key)
    ]
  ]

  pub get_shared_secret-eq :
      (s : Engine) (p : Peer)
      → (get_shared_secret c s p).1
        ≡ secret_from s.wallet.encryption_keys.private_key s.shared_secrets p
  unfolding get_shared_secret secret_from
  get_shared_secret-eq s p = elim (Option-cases (given p.encryption_key)) [
    | inl e ↦ rw (get_shared_secret, secret_from, e) refl
    | inr (key, e) ↦ elim (Option-cases (Dict.get s.shared_secrets p.id)) [
      | inl f ↦ rw (get_shared_secret, secret_from, e, f) refl
      | inr (secret, f) ↦ rw (get_shared_secret, secret_from, e, f) refl
    ]
  ]
