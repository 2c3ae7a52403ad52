-- ===== src/Crypto/Laws.antt =====
-- What two wallets rely on of the primitives, and the stored form of a wallet.
use blockchain_messaging_pro.Common.{
  ℕ, ◌≤◌, ◌≡◌, ◌≢◌, refl, true, inr, [], Str, Bytes, length, Result, ok,
}
use blockchain_messaging_pro.Json.{get_field}
use blockchain_messaging_pro.Block.{str_at, obj_at}
use blockchain_messaging_pro.Crypto.{
  KeyPair, Wallet, Primitives, sign, key_pair_to_dict, key_pair_from_dict, wallet_to_dict,
  wallet_from_dict,
}

-- the bytes of a nonce of ChaCha20-Poly1305, and the most bytes that the library encrypts at once
abbrev pub nonce_size : ℕ
nonce_size = 12

abbrev pub max_plain : ℕ
max_plain = 2147483647

-- Signatures of the first wallet verify under its public key, both wallets agree on a secret that
-- is not empty, and decryption under it undoes encryption, for nonces and texts of the sizes that
-- the cipher takes.
pub record Agree (c : Primitives) (a b : Wallet) : Type 0 where
  pub signs : (m : Bytes) → c.verify_signature m (sign c a m) a.signing_keys.public_key ≡ true
  pub shared :
      c.derive_shared_secret a.encryption_keys.private_key b.encryption_keys.public_key
      ≡ c.derive_shared_secret b.encryption_keys.private_key a.encryption_keys.public_key
  pub decrypts :
      (nonce plain : Bytes)
      → length nonce ≡ nonce_size
      → length plain ≤ max_plain
      → let secret =
          c.derive_shared_secret a.encryption_keys.private_key b.encryption_keys.public_key in
        c.decrypt_message (c.encrypt secret nonce plain) secret nonce ≡ inr plain
  pub not_empty :
      c.derive_shared_secret a.encryption_keys.private_key b.encryption_keys.public_key ≢ []

module _ (b64encode : Bytes → Str) (b64decode : Str → Result Bytes)
    (decodes : (b : Bytes) → b64decode (b64encode b) ≡ ok b) where
  key_pair_from_dict-to_dict :
      (k : KeyPair) → key_pair_from_dict b64decode (key_pair_to_dict b64encode k) ≡ ok k
  unfolding key_pair_from_dict key_pair_to_dict str_at get_field
  key_pair_from_dict-to_dict k = rw (decodes k.private_key, decodes k.public_key) refl

  -- If decoding base64 undoes encoding, `from_dict` reads back every wallet from its dictionary.
  pub wallet_from_dict-to_dict :
      (w : Wallet) → wallet_from_dict b64decode (wallet_to_dict b64encode w) ≡ ok w
  unfolding wallet_from_dict wallet_to_dict str_at obj_at get_field
  wallet_from_dict-to_dict w =
      rw (key_pair_from_dict-to_dict w.signing_keys, key_pair_from_dict-to_dict w.encryption_keys)
        refl
