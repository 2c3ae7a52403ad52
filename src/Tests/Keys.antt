-- ===== src/Tests/Keys.antt =====
-- Wallets of generated keys over a stand-in for the cryptography library.
use blockchain_messaging_pro.Common.{
  ℕ, ◌+◌, ◌≡◌, refl, ap, inl, inr, ◌⊎◌, Str, [], ◌∷◌, ◌++◌, Bytes, Result, ok, err, value_error,
  codes, take, drop, length, length-take, length-append, drop-append, str_beq, str_beq_refl, arith,
}
use blockchain_messaging_pro.Crypto.{Primitives}
use blockchain_messaging_pro.Crypto.Laws.{Agree}
use blockchain_messaging_pro.Crypto.Library.{
  Library, IsLawful, Follows, key_info, generate, sign_message, verify_signature,
  derive_shared_secret, encrypt_message, decrypt_message, generate-Agree,
}

exchange_comm : (a b : ℕ) → a + (b + 1) ≡ b + (a + 1)
exchange_comm a b = omega arith

-- A library whose keys are one number each, whose signature is the text, and whose cipher puts the
-- key before the text.
abbrev one_byte : Bytes → Result ℕ
one_byte (x ∷ []) = ok x
one_byte _ = err value_error

abbrev plain_library : Library
plain_library = record {
  SigningKey = ℕ;
  VerifyKey = ℕ;
  signing_key = one_byte;
  verify_key = one_byte;
  signing_bytes = λ key. key ∷ [];
  verify_bytes = λ key. key ∷ [];
  verifier = λ key. key + 1;
  signs = λ key m. m;
  verifies = λ key s m. str_beq m s;
  PrivateKey = ℕ;
  PublicKey = ℕ;
  private_key = one_byte;
  public_key = one_byte;
  private_bytes = λ key. key ∷ [];
  public_bytes = λ key. key ∷ [];
  public_of = λ key. key + 1;
  exchange = λ own other. ok ((own + other) ∷ []);
  hkdf = λ info key. take 32 (key ++ codes "derived from the shared key: hkdf");
  seal = λ key nonce plain. ok (key ++ plain);
  open_sealed = λ key nonce cipher. ok (drop (length key) cipher);
}

derived_size :
    (key : Bytes) → length (take 32 (key ++ codes "derived from the shared key: hkdf")) ≡ 32
derived_size key =
    let pad = codes "derived from the shared key: hkdf" in
    omega (arith, length-take 32 (key ++ pad), length-append key pad)

plain_library-IsLawful : IsLawful plain_library
plain_library-IsLawful = record {
  signing_back = λ key. refl;
  verify_back = λ key. refl;
  private_back = λ key. refl;
  public_back = λ key. refl;
  signed = λ key m. str_beq_refl m;
  exchanged = λ a b. ap (λ n. ok (n ∷ [])) (exchange_comm a b);
  hkdf_size = λ info key. derived_size key;
  sealed = λ key nonce plain k n p.
      (key ++ plain, refl, ap ok (drop-append key plain (length key) refl));
}

abbrev or_empty : Result Bytes → Bytes
or_empty (ok b) = b
or_empty (err e) = []

-- the functions of the library, with a value where they raise an exception
abbrev library_primitives : Primitives
library_primitives = record {
  sign_message = λ m key. or_empty (sign_message plain_library m key);
  verify_signature = verify_signature plain_library;
  derive_shared_secret =
      λ own other. or_empty (derive_shared_secret plain_library own other key_info);
  encrypt = λ key nonce plain. elim (encrypt_message plain_library plain key nonce) [
    | ok r ↦ r.1
    | err e ↦ []
  ];
  decrypt_message = λ cipher key nonce. elim (decrypt_message plain_library cipher key nonce) [
    | ok plain ↦ inr plain
    | err e ↦ inl []
  ];
}

library_primitives-Follows : Follows plain_library library_primitives
library_primitives-Follows = record {
  signs = λ m key s e. ap or_empty e;
  verifies = λ m s key. refl;
  derives = λ own other s e. ap or_empty e;
  encrypts = λ key nonce plain cipher e.
      ap (λ (r : Result (Bytes × Bytes)). elim r [ ok x ↦ x.1 | err _ ↦ [] ]) e;
  decrypts = λ cipher key nonce plain e.
      ap (λ (r : Result Bytes). let o : Str ⊎ Bytes = elim r [ ok x ↦ inr x | err _ ↦ inl [] ] in o)
        e;
}

generate-Agree_example :
    Agree library_primitives
      (generate plain_library (codes "alice") 1 3)
      (generate plain_library (codes "bob") 5 7)
generate-Agree_example =
    generate-Agree plain_library library_primitives plain_library-IsLawful
      library_primitives-Follows (codes "alice") (codes "bob") 1 5 3 7 (11 ∷ []) refl
