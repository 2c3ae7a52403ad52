-- ===== src/Peers/Storage.antt =====
-- src/network/peer.py: `to_dict` and `from_dict` of `Peer`, over base64. The metadata of a peer, which
-- its record does not have, stands beside it; `last_seen` is a number of clock ticks.
use blockchain_messaging_pro.Common.{
  ℕ, ◌≡◌, refl, ◌∙◌, false, Option, none, some, [], ◌∷◌, Str, Bytes, codes, str_beq, str_beq_refl,
  if◌then◌else◌, Result, ok, err, ◌>>=◌, key_error, type_error,
}
use blockchain_messaging_pro.Json.{null, num, str, obj, Fields, end, field, get_field, truthy}
use blockchain_messaging_pro.Block.{num_at, str_at}
use blockchain_messaging_pro.Peers.{
  PeerState, disconnected, connecting, connected, handshaking, authenticated, Peer,
}

-- `state.name`
unfoldable pub state_name : PeerState → Str
state_name disconnected = codes "DISCONNECTED"
state_name connecting = codes "CONNECTING"
state_name connected = codes "CONNECTED"
state_name handshaking = codes "HANDSHAKING"
state_name authenticated = codes "AUTHENTICATED"

-- `PeerState[name]`
unfoldable pub state_named : Str → Result PeerState
state_named name =
    if str_beq name (codes "DISCONNECTED")
    then ok disconnected
    else if str_beq name (codes "CONNECTING")
    then ok connecting
    else if str_beq name (codes "CONNECTED")
    then ok connected
    else if str_beq name (codes "HANDSHAKING")
    then ok handshaking
    else if str_beq name (codes "AUTHENTICATED")
    then ok authenticated
    else err key_error

-- a text that is none or empty is left out
abbrev pub text_field : Str → Option Str → Fields → Fields
text_field k none rest = rest
text_field k (some []) rest = rest
text_field k (some (c ∷ t)) rest = field k (str (c ∷ t)) rest

-- a field that may be missing: its value, and otherwise the default
unfoldable pub state_of : Fields → Result PeerState
state_of fs = elim (get_field fs (codes "state")) [
  | none ↦ ok disconnected
  | some (str name) ↦ state_named name
  | some _ ↦ err key_error
]

unfoldable pub last_seen_of : ℕ → Fields → Result ℕ
last_seen_of now fs = elim (get_field fs (codes "last_seen")) [
  | none ↦ ok now
  | some (num n) ↦ ok n
  | some _ ↦ err type_error
]

unfoldable pub name_of : Fields → Result (Option Str)
name_of fs = elim (get_field fs (codes "name")) [
  | none ↦ ok none
  | some null ↦ ok none
  | some (str t) ↦ ok (some t)
  | some _ ↦ err type_error
]

unfoldable pub metadata_of : Fields → Result Fields
metadata_of fs = elim (get_field fs (codes "metadata")) [
  | none ↦ ok end
  | some (obj d) ↦ ok d
  | some _ ↦ err type_error
]

-- what is empty stands for no text
abbrev pub filled : Option Str → Option Str
filled none = none
filled (some []) = none
filled (some (c ∷ t)) = some (c ∷ t)

module _ (b64encode : Bytes → Str) where
  abbrev pub key_field : Str → Option Bytes → Fields → Fields
  key_field k none rest = rest
  key_field k (some []) rest = rest
  key_field k (some (b ∷ bs)) rest = field k (str (b64encode (b ∷ bs))) rest

  -- the fields that may be left out
  abbrev pub optional_fields : Peer → Fields
  optional_fields p = text_field (codes "name") p.name (
      key_field (codes "public_key") p.public_key
        (key_field (codes "encryption_key") p.encryption_key end))

  unfoldable pub peer_to_dict : Peer → Fields → Fields
  peer_to_dict p metadata = field (codes "id") (str p.id) (
      field (codes "address") (str p.address) (
        field (codes "port") (num p.port) (
          field (codes "state") (str (state_name p.state)) (
            field (codes "last_seen") (num p.last_seen)
              (field (codes "metadata") (obj metadata) (optional_fields p))))))

module _ (b64decode : Str → Result Bytes) where
  -- `if key in data and data[key]: base64.b64decode(data[key])`
  unfoldable pub key_of : Fields → Str → Result (Option Bytes)
  key_of fs k = elim (get_field fs k) [
    | none ↦ ok none
    | some (str []) ↦ ok none
    | some (str (c ∷ t)) ↦ do b ← b64decode (c ∷ t); ok (some b)
    | some j ↦ if truthy j then err type_error else ok none
  ]

  unfoldable pub peer_from_dict : ℕ → Fields → Result (Peer × Fields)
  peer_from_dict now fs = do
    public_key ← key_of fs (codes "public_key")
    encryption_key ← key_of fs (codes "encryption_key")
    id ← str_at fs (codes "id")
    address ← str_at fs (codes "address")
    port ← num_at fs (codes "port")
    state ← state_of fs
    last_seen ← last_seen_of now fs
    name ← name_of fs
    metadata ← metadata_of fs
    ok (
      record {
        id = id;
        address = address;
        port = port;
        public_key = public_key;
        encryption_key = encryption_key;
        state = state;
        last_seen = last_seen;
        name = name;
      },
      metadata,
    )

state_named-state_name : (s : PeerState) → state_named (state_name s) ≡ ok s
unfolding state_named state_name
state_named-state_name disconnected = refl
state_named-state_name connecting = refl
state_named-state_name connected = refl
state_named-state_name handshaking = refl
state_named-state_name authenticated = refl

module _ (b64encode : Bytes → Str) (b64decode : Str → Result Bytes)
    (decodes : (b : Bytes) → b64decode (b64encode b) ≡ ok b)
    (not_empty : (x : ℕ) (xs : Bytes) → (y : ℕ) × (ys : Str) × (b64encode (x ∷ xs) ≡ y ∷ ys)) where
  -- another field is not what is looked for
  skip_key :
      (k j : Str) (key : Option Bytes) (rest : Fields)
      → str_beq k j ≡ false
      → get_field (key_field b64encode k key rest) j ≡ get_field rest j
  unfolding get_field
  skip_key k j none rest h = refl
  skip_key k j (some []) rest h = refl
  skip_key k j (some (b ∷ bs)) rest h = rw h refl

  skip_text :
      (k j : Str) (t : Option Str) (rest : Fields)
      → str_beq k j ≡ false
      → get_field (text_field k t rest) j ≡ get_field rest j
  unfolding get_field
  skip_text k j none rest h = refl
  skip_text k j (some []) rest h = refl
  skip_text k j (some (c ∷ t)) rest h = rw h refl

  key_of-get :
      (f g : Fields) (k : Str)
      → get_field f k ≡ get_field g k
      → key_of b64decode f k ≡ key_of b64decode g k
  unfolding key_of
  key_of-get f g k e = rw (key_of, e) refl

  key_text :
      (k t : Str) (y : ℕ) (ys : Str) (rest : Fields)
      → t ≡ y ∷ ys
      → key_of b64decode (field k (str t) rest) k ≡ (b64decode t >>= λ b. ok (some b))
  unfolding key_of get_field
  key_text k t y ys rest e = rw (e, key_of, get_field, str_beq_refl k) refl

  key_back :
      (k : Str) (key : Option Bytes) (rest : Fields)
      → get_field rest k ≡ none
      → key_of b64decode (key_field b64encode k key rest) k ≡ ok (filled key)
  unfolding key_of
  key_back k none rest h = rw (key_of, h) refl
  key_back k (some []) rest h = rw (key_of, h) refl
  key_back k (some (b ∷ bs)) rest h =
      let (y, ys, e) = not_empty b bs in
      key_text k (b64encode (b ∷ bs)) y ys rest e ∙ rw (decodes (b ∷ bs)) refl

  name_back :
      (n : Option Str) (rest : Fields)
      → get_field rest (codes "name") ≡ none
      → name_of (text_field (codes "name") n rest) ≡ ok (filled n)
  unfolding name_of get_field
  name_back none rest h = rw (name_of, h) refl
  name_back (some []) rest h = rw (name_of, h) refl
  name_back (some (c ∷ t)) rest h = refl

  -- `from_dict` reads back every peer and its metadata from the dictionary that `to_dict` makes of
  -- them, an empty name and empty keys as none, if decoding base64 undoes encoding and the code of
  -- some bytes is not empty.
  pub peer_from_dict-to_dict :
      (now : ℕ) (p : Peer) (metadata : Fields)
      → peer_from_dict b64decode now (peer_to_dict b64encode p metadata)
        ≡ ok (
          record p {
            name = filled p.name;
            public_key = filled p.public_key;
            encryption_key = filled p.encryption_key;
          },
          metadata,
        )
  unfolding peer_from_dict peer_to_dict get_field str_at num_at state_of last_seen_of metadata_of
      name_of
  peer_from_dict-to_dict now p metadata =
      let d = peer_to_dict b64encode p metadata in
      let second = key_field b64encode (codes "encryption_key") p.encryption_key end in
      let keys = key_field b64encode (codes "public_key") p.public_key second in
      let missing = λ (k : Str) (h : str_beq (codes "encryption_key") k ≡ false).
        skip_key (codes "encryption_key") k p.encryption_key end h in
      let public : key_of b64decode d (codes "public_key") ≡ ok (filled p.public_key) =
        key_of-get d keys (codes "public_key")
          (skip_text (codes "name") (codes "public_key") p.name keys refl)
        ∙ key_back (codes "public_key") p.public_key second (missing (codes "public_key") refl) in
      let encryption : key_of b64decode d (codes "encryption_key") ≡ ok (filled p.encryption_key) =
        key_of-get d second (codes "encryption_key") (
          skip_text (codes "name") (codes "encryption_key") p.name keys refl
          ∙ skip_key (codes "public_key") (codes "encryption_key") p.public_key second refl)
        ∙ key_back (codes "encryption_key") p.encryption_key end refl in
      let name : name_of d ≡ ok (filled p.name) = name_back p.name keys (
        skip_key (codes "public_key") (codes "name") p.public_key second refl
        ∙ missing (codes "name") refl) in
      rw (public, encryption, state_named-state_name p.state, name) refl
