-- ===== src/Crypto.antt =====
-- src/core/crypto.py: key pairs and wallets. The primitives of the cryptography library are a record
-- of operations, `Primitives`; base64 is the coder of the library.
pub mod Laws
pub mod Library
use blockchain_messaging_pro.Common.{
  ℕ, ◌+◌, ◌-◌, ◌/◌, ◌%◌, ◌⊎◌, Bool, List, [], ◌∷◌, ◌++◌, Str, Bytes, codes, encode, length, take,
  drop, ltb, if◌then◌else◌, Result, ok, err, ◌>>=◌, type_error,
}
use blockchain_messaging_pro.Json.{Json, str, obj, Fields, end, field}
use blockchain_messaging_pro.Block.{str_at, obj_at}

pub record KeyPair : Type 0 where
  pub private_key : Bytes
  pub public_key : Bytes

pub record Wallet : Type 0 where
  pub name : Str
  pub signing_keys : KeyPair
  pub encryption_keys : KeyPair

-- the calls of the library: signing, verification, key agreement and the cipher; a cipher text that
-- is not authentic raises an exception with a text
pub record Primitives : Type 0 where
  pub sign_message : Bytes → Bytes → Bytes
  pub verify_signature : Bytes → Bytes → Bytes → Bool
  pub derive_shared_secret : Bytes → Bytes → Bytes
  pub encrypt : Bytes → Bytes → Bytes → Bytes
  pub decrypt_message : Bytes → Bytes → Bytes → Str ⊎ Bytes

hex_digit : ℕ → ℕ
hex_digit d = if ltb d 10 then 48 + d else 87 + d

-- `bytes.hex`
unfoldable pub hex : Bytes → Str
unfolding hex_digit
hex [] = []
hex (b ∷ bs) = hex_digit (b / 16) ∷ hex_digit (b % 16) ∷ hex bs

unfoldable pub public_key_hex : KeyPair → Str
public_key_hex k = hex k.public_key

-- `hex_key[:8]`, three dots and `hex_key[-8:]`
unfoldable pub public_key_short : KeyPair → Str
public_key_short k =
    let hex_key = public_key_hex k in
    take 8 hex_key ++ codes "..." ++ drop (length hex_key - 8) hex_key

unfoldable pub address : Wallet → Str
address w = public_key_hex w.signing_keys

unfoldable pub address_short : Wallet → Str
address_short w = public_key_short w.signing_keys

unfoldable pub sign : Primitives → Wallet → Bytes → Bytes
sign c w message = c.sign_message message w.signing_keys.private_key

-- `encrypt_message`, whose generated nonce is an argument
unfoldable pub encrypt_message : Primitives → Bytes → Bytes → Bytes → Bytes × Bytes
encrypt_message c nonce plaintext key = (nonce, c.encrypt key nonce plaintext)

unfoldable pub hash_string : (Bytes → Str) → Str → Str
hash_string sha256 t = sha256 (encode t)

module _ (b64encode : Bytes → Str) where
  unfoldable pub key_pair_to_dict : KeyPair → Fields
  key_pair_to_dict k =
      field (codes "private_key") (str (b64encode k.private_key))
        (field (codes "public_key") (str (b64encode k.public_key)) end)

  unfoldable pub wallet_to_dict : Wallet → Fields
  wallet_to_dict w = field (codes "name") (str w.name) (
      field (codes "signing_keys") (obj (key_pair_to_dict w.signing_keys))
        (field (codes "encryption_keys") (obj (key_pair_to_dict w.encryption_keys)) end))

module _ (b64decode : Str → Result Bytes) where
  unfoldable pub key_pair_from_dict : Fields → Result KeyPair
  key_pair_from_dict fs = do
    private_text ← str_at fs (codes "private_key")
    private_key ← b64decode private_text
    public_text ← str_at fs (codes "public_key")
    public_key ← b64decode public_text
    ok (record { private_key = private_key; public_key = public_key })

  unfoldable pub wallet_from_dict : Fields → Result Wallet
  wallet_from_dict fs = do
    name ← str_at fs (codes "name")
    signing_fields ← obj_at fs (codes "signing_keys")
    signing_keys ← key_pair_from_dict signing_fields
    encryption_fields ← obj_at fs (codes "encryption_keys")
    encryption_keys ← key_pair_from_dict encryption_fields
    ok (record { name = name; signing_keys = signing_keys; encryption_keys = encryption_keys })
