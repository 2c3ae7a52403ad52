-- ===== src/Crypto/Library.antt =====
-- src/core/crypto.py: the functions around the cryptography library, whose calls are the record
-- `Library`, and the generation of keys. A key is an object of the library or its raw bytes. The
-- engine takes these functions, for keys that the library accepts, as `Primitives`.
use blockchain_messaging_pro.Common.{
  ◌≤◌, ◌≡◌, ◌≢◌, refl, sym, ap, ◌∙◌, subst, inr, Bool, [], ◌∷◌, true, false, Str, Bytes, length,
  codes, encode, Result, ok, err, ◌>>=◌, arith,
}
use blockchain_messaging_pro.Crypto.{KeyPair, Wallet, Primitives, sign}
use blockchain_messaging_pro.Crypto.Laws.{nonce_size, max_plain, Agree}

pub record Library : Type 1 where
  -- Ed25519PrivateKey and Ed25519PublicKey
  pub SigningKey : Type 0
  pub VerifyKey : Type 0
  pub signing_key : Bytes → Result SigningKey
  pub verify_key : Bytes → Result VerifyKey
  pub signing_bytes : SigningKey → Bytes
  pub verify_bytes : VerifyKey → Bytes
  pub verifier : SigningKey → VerifyKey
  pub signs : SigningKey → Bytes → Bytes
  pub verifies : VerifyKey → Bytes → Bytes → Bool
  -- X25519PrivateKey and X25519PublicKey
  pub PrivateKey : Type 0
  pub PublicKey : Type 0
  pub private_key : Bytes → Result PrivateKey
  pub public_key : Bytes → Result PublicKey
  pub private_bytes : PrivateKey → Bytes
  pub public_bytes : PublicKey → Bytes
  pub public_of : PrivateKey → PublicKey
  pub exchange : PrivateKey → PublicKey → Result Bytes
  -- HKDF with SHA-256 and 32 bytes, of some context and a key
  pub hkdf : Bytes → Bytes → Bytes
  -- ChaCha20Poly1305, of a key, a nonce and a text
  pub seal : Bytes → Bytes → Bytes → Result Bytes
  pub open_sealed : Bytes → Bytes → Bytes → Result Bytes

-- What the library documents: keys are read back from their bytes, a signature verifies under the
-- key that belongs to it, both sides of an exchange get one key, HKDF gives as many bytes as it is
-- asked for, and under a key of 32 bytes a text that is not too long is encrypted with a nonce of 12
-- bytes and decrypted again.
pub record IsLawful (l : Library) : Type 0 where
  pub signing_back : (key : l.SigningKey) → l.signing_key (l.signing_bytes key) ≡ ok key
  pub verify_back : (key : l.VerifyKey) → l.verify_key (l.verify_bytes key) ≡ ok key
  pub private_back : (key : l.PrivateKey) → l.private_key (l.private_bytes key) ≡ ok key
  pub public_back : (key : l.PublicKey) → l.public_key (l.public_bytes key) ≡ ok key
  pub signed :
      (key : l.SigningKey) (m : Bytes) → l.verifies (l.verifier key) (l.signs key m) m ≡ true
  pub exchanged : (a b : l.PrivateKey) → l.exchange a (l.public_of b) ≡ l.exchange b (l.public_of a)
  pub hkdf_size : (info key : Bytes) → length (l.hkdf info key) ≡ 32
  pub sealed :
      (key nonce plain : Bytes)
      → length key ≡ 32
      → length nonce ≡ nonce_size
      → length plain ≤ max_plain
      → (cipher : Bytes) × (l.seal key nonce plain ≡ ok cipher)
        × (l.open_sealed key nonce cipher ≡ ok plain)

-- `info` of `derive_shared_secret`
abbrev pub key_info : Bytes
key_info = encode (codes "bmp-message-key")

module _ (l : Library) where
  -- The generated key is an argument.
  unfoldable pub generate_signing_keypair : l.SigningKey → KeyPair
  generate_signing_keypair key = record {
    private_key = l.signing_bytes key;
    public_key = l.verify_bytes (l.verifier key);
  }

  unfoldable pub generate_encryption_keypair : l.PrivateKey → KeyPair
  generate_encryption_keypair key = record {
    private_key = l.private_bytes key;
    public_key = l.public_bytes (l.public_of key);
  }

  unfoldable pub generate : Str → l.SigningKey → l.PrivateKey → Wallet
  generate name signing encryption = record {
    name = name;
    signing_keys = generate_signing_keypair signing;
    encryption_keys = generate_encryption_keypair encryption;
  }

  unfoldable pub sign_message : Bytes → Bytes → Result Bytes
  sign_message message private_bytes = do
    key ← l.signing_key private_bytes
    ok (l.signs key message)

  -- Every exception is a false.
  unfoldable pub verify_signature : Bytes → Bytes → Bytes → Bool
  verify_signature message signature public_bytes = elim (l.verify_key public_bytes) [
    | err e ↦ false
    | ok key ↦ l.verifies key signature message
  ]

  unfoldable pub derive_shared_secret : Bytes → Bytes → Bytes → Result Bytes
  derive_shared_secret private_bytes peer_public_bytes info = do
    our_key ← l.private_key private_bytes
    peer_key ← l.public_key peer_public_bytes
    shared_key ← l.exchange our_key peer_key
    ok (l.hkdf info shared_key)

  -- The generated nonce is an argument.
  unfoldable pub encrypt_message : Bytes → Bytes → Bytes → Result (Bytes × Bytes)
  encrypt_message plaintext key nonce = do
    ciphertext ← l.seal key nonce plaintext
    ok (nonce, ciphertext)

  unfoldable pub decrypt_message : Bytes → Bytes → Bytes → Result Bytes
  decrypt_message ciphertext key nonce = l.open_sealed key nonce ciphertext

-- A key of 32 bytes is not empty.
no_bytes : (key : Bytes) → length key ≡ 32 → key ≢ []
no_bytes [] h e = absurd (omega (arith, h))
no_bytes (x ∷ xs) h e = cc

-- The primitives have the results of the functions above, where these raise nothing. What they are
-- where an exception is raised is left open, but for the verification, which catches them all.
pub record Follows (l : Library) (c : Primitives) : Type 0 where
  pub signs : (m key s : Bytes) → sign_message l m key ≡ ok s → c.sign_message m key ≡ s
  pub verifies : (m s key : Bytes) → c.verify_signature m s key ≡ verify_signature l m s key
  pub derives :
      (own other s : Bytes)
      → derive_shared_secret l own other key_info ≡ ok s
      → c.derive_shared_secret own other ≡ s
  pub encrypts :
      (key nonce plain cipher : Bytes)
      → encrypt_message l plain key nonce ≡ ok (nonce, cipher)
      → c.encrypt key nonce plain ≡ cipher
  pub decrypts :
      (cipher key nonce plain : Bytes)
      → decrypt_message l cipher key nonce ≡ ok plain
      → c.decrypt_message cipher key nonce ≡ inr plain

module _ (l : Library) (c : Primitives) (laws : IsLawful l) (follows : Follows l c) where
  derived :
      (a b : Str) (sa sb : l.SigningKey) (ea eb : l.PrivateKey) (shared : Bytes)
      → l.exchange ea (l.public_of eb) ≡ ok shared
      → c.derive_shared_secret
          (generate l a sa ea).encryption_keys.private_key
          (generate l b sb eb).encryption_keys.public_key
        ≡ l.hkdf key_info shared
  unfolding generate generate_encryption_keypair derive_shared_secret
  derived a b sa sb ea eb shared e =
      follows.derives (l.private_bytes ea) (l.public_bytes (l.public_of eb))
        (l.hkdf key_info shared)
        (rw (laws.private_back ea, laws.public_back (l.public_of eb), e) refl)

  -- a signature of a generated wallet
  generate-verifies :
      (name : Str) (s : l.SigningKey) (e : l.PrivateKey) (m : Bytes)
      → let w = generate l name s e in
        c.verify_signature m (sign c w m) w.signing_keys.public_key ≡ true
  unfolding generate generate_signing_keypair sign_message verify_signature sign
  generate-verifies name s e m =
      let signature : c.sign_message m (l.signing_bytes s) ≡ l.signs s m =
        follows.signs m (l.signing_bytes s) (l.signs s m) (rw (laws.signing_back s) refl) in
      let public = l.verify_bytes (l.verifier s) in
      ap (λ x. c.verify_signature m x public) signature
      ∙ follows.verifies m (l.signs s m) public
      ∙ rw (verify_signature, laws.verify_back (l.verifier s)) (laws.signed s m)

  decrypts_sealed :
      (key nonce plain : Bytes)
      → length key ≡ 32
      → length nonce ≡ nonce_size
      → length plain ≤ max_plain
      → c.decrypt_message (c.encrypt key nonce plain) key nonce ≡ inr plain
  unfolding encrypt_message decrypt_message
  decrypts_sealed key nonce plain k n p =
      let (cipher, seals, opens) = laws.sealed key nonce plain k n p in
      ap (λ x. c.decrypt_message x key nonce)
        (follows.encrypts key nonce plain cipher (rw seals refl))
      ∙ follows.decrypts cipher key nonce plain opens

  -- Two wallets of generated keys whose exchange gives a key agree: every text that the one signs
  -- verifies under its public key, both derive the same secret, which is not empty, and less than
  -- 2 GB encrypted under it with a nonce of 12 bytes are decrypted again. The primitives follow the
  -- library, and this keeps what it documents.
  pub generate-Agree :
      (a b : Str) (sa sb : l.SigningKey) (ea eb : l.PrivateKey) (shared : Bytes)
      → l.exchange ea (l.public_of eb) ≡ ok shared
      → Agree c (generate l a sa ea) (generate l b sb eb)
  generate-Agree a b sa sb ea eb shared e =
      let own = derived a b sa sb ea eb shared e in
      let secret = l.hkdf key_info shared in
      let size = laws.hkdf_size key_info shared in
      record {
        signs = generate-verifies a sa ea;
        shared = own ∙ sym (derived b a sb sa eb ea shared (laws.exchanged eb ea ∙ e));
        decrypts = λ nonce plain n p.
            subst (λ k. c.decrypt_message (c.encrypt k nonce plain) k nonce ≡ inr plain) (sym own)
              (decrypts_sealed secret nonce plain size n p);
        not_empty = λ empty. no_bytes secret size (sym own ∙ empty);
      }
