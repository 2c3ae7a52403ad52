-- ===== src/Client/Commands.antt =====
-- src/client/cli.py: the commands, without what they print. `int` reads ASCII digits.
use blockchain_messaging_pro.Common.{
  ℕ, zero, suc, ◌+◌, ◌-◌, ◌*◌, Bool, true, false, ◌&&◌, ◌||◌, Option, none, some, List, [], ◌∷◌,
  Str, Bytes, codes, length, drop, ltb, leb, nat_beq, starts_with, rsplit, if◌then◌else◌, Result,
  ok, err, ◌>>=◌, value_error,
}
use blockchain_messaging_pro.Json.{Json, Fields}
use blockchain_messaging_pro.Block.{str_at}
use blockchain_messaging_pro.Chain.State.{get_messages}
use blockchain_messaging_pro.Crypto.{Wallet, Primitives}
use blockchain_messaging_pro.Engine.{Stamp}
use blockchain_messaging_pro.Media.{PathFacts}
use blockchain_messaging_pro.Message.Packing.{Codecs}
use blockchain_messaging_pro.Sync.{ℤ, pos, negsuc}
use blockchain_messaging_pro.Client.{
  ClientConfig, Client, new_client, blockchain, init_wallet, load_wallet, load_blockchain,
  get_peers,
}
use blockchain_messaging_pro.Client.Registration.{register}
use blockchain_messaging_pro.Client.Calls.{Dialed, start, stop, send_message, send_file}

unfoldable pub is_digit : ℕ → Bool
is_digit c = leb 48 c && ltb c 58

unfoldable pub is_space : ℕ → Bool
is_space c = nat_beq c 32 || leb 9 c && ltb c 14 || leb 28 c && ltb c 32

unfoldable pub lstrip : Str → Str
lstrip [] = []
lstrip (c ∷ s) = elim (is_space c) [ true ↦ lstrip s | false ↦ c ∷ s ]

unfoldable pub rstrip : Str → Str
rstrip [] = []
rstrip (c ∷ s) = elim (rstrip s) [ [] ↦ if is_space c then [] else c ∷ [] | d ∷ t ↦ c ∷ d ∷ t ]

-- the digits of `int`, between which single underscores may stand; `ready` says whether the
-- character before is a digit
unfoldable pub read_digits : ℕ → Bool → Str → Result ℕ
read_digits v ready [] = if ready then ok v else err value_error
read_digits v ready (c ∷ s) = elim (is_digit c) [
  | true ↦ read_digits (10 * v + (c - 48)) true s
  | false ↦ elim (ready && nat_beq c b'_') [
    | true ↦ read_digits v false s
    | false ↦ err value_error
  ]
]

unfoldable pub negated : ℕ → ℤ
negated zero = pos 0
negated (suc n) = negsuc n

unfoldable pub signed_digits : Bool → Str → Result ℤ
signed_digits minus s = do n ← read_digits 0 false s; ok (if minus then negated n else pos n)

unfoldable pub read_signed : Str → Result ℤ
read_signed [] = err value_error
read_signed (c ∷ s) =
    if nat_beq c b'-'
    then signed_digits true s
    else if nat_beq c b'+'
    then signed_digits false s
    else signed_digits false (c ∷ s)

-- `int(text)`
unfoldable pub int : Str → Result ℤ
int t = read_signed (lstrip (rstrip t))

-- the server address that every command reads
unfoldable pub parse_server : ClientConfig → Str → Result ClientConfig
parse_server config server = elim (rsplit b':' server) [
  | none ↦ ok (record config { registry_host = server })
  | some (host, port_text) ↦ do
    port ← int port_text
    ok (record config { registry_host = host; registry_port = port })
]

-- the loop over the known peers
unfoldable pub find_by_prefix : Str → List Fields → Result Str
find_by_prefix recipient [] = ok recipient
find_by_prefix recipient (peer ∷ rest) = elim (str_at peer (codes "peer_id")) [
  | err e ↦ err e
  | ok id ↦ elim (starts_with id recipient) [ true ↦ ok id | false ↦ find_by_prefix recipient rest ]
]

-- a recipient of less than 64 characters is looked for by its beginning
unfoldable pub full_recipient : Str → List Fields → Result Str
full_recipient recipient peers =
    if ltb (length recipient) 64 then find_by_prefix recipient peers else ok recipient

-- What the registry's WebSocket brings.
pub record Joined : Type 0 where
  pub opened : Option ℕ
  pub first : Option Bytes
  pub second : Option Bytes
  pub third : Option Bytes

module _ (k : Codecs) (accepts : ℕ → Bytes → Bool) where
  unfoldable pub join_registry : Client → Joined → Result (Client × Bool)
  join_registry c j = register k accepts c j.opened j.first j.second j.third

  module _ (sha256 : Bytes → Str) (fuel : ℕ) (now : Str) (serves : Bool) where
    -- The beginning of `do_send` and `run_listener`: the client registers and starts.
    unfoldable pub go_online : Client → Joined → Result (Client × Bool)
    go_online c j = do
      (c1, registered) ← join_registry c j
      elim registered [
        | false ↦ ok (c1, false)
        | true ↦ do
          done ← (start k sha256 fuel now c1 serves).1
          ok ((start k sha256 fuel now c1 serves).0, true)
      ]

    module _ (p : Primitives) where
      unfoldable pub do_send : Client → Joined → Str → Str → Dialed → Stamp → Result (Client × Bool)
      do_send c j recipient message d st = do
        (c1, online) ← go_online c j
        elim online [
          | false ↦ ok (c1, false)
          | true ↦ do
            id ← full_recipient recipient (get_peers c1)
            (c2, success) ← send_message k accepts p c1 id message d st
            ok (stop c2, success)
        ]

      unfoldable pub do_send_file :
          Client
          → Joined
          → Str
          → PathFacts
          → Dialed
          → Str
          → (ℕ → Stamp)
          → Stamp
          → Stamp
          → Result (Client × Option Str)
      do_send_file c j recipient path d id stamps before after = do
        (c1, online) ← go_online c j
        elim online [
          | false ↦ ok (c1, none)
          | true ↦ do
            to ← full_recipient recipient (get_peers c1)
            (c2, transfer_id) ← send_file k accepts p sha256 c1 to path d id stamps before after
            ok (stop c2, transfer_id)
        ]

      -- The command `send`: the client, and whether it exits without an error. The files are those of
      -- the data directory.
      unfoldable pub send :
          ClientConfig
          → Option Str
          → Option Str
          → Joined
          → Str
          → Str
          → Str
          → ℕ
          → Dialed
          → Stamp
          → Result (Client × Bool)
      send config wallet_file blockchain_file j recipient message server port d st = do
        config' ← parse_server (record config { p2p_port = port }) server
        (c, found) ← load_wallet k (new_client config' wallet_file blockchain_file)
        elim found [
          | false ↦ ok (c, false)
          | true ↦ elim (do_send c j recipient message d st) [ err e ↦ ok (c, false) | ok r ↦ ok r ]
        ]

-- The command `init`: a confirmed overwriting removes the file first.
unfoldable pub init : Codecs → (Json → Str) → Client → Bool → Wallet → Result (Client × Wallet)
init k written c confirmed generated =
    init_wallet k written (if confirmed then record c { wallet_file = none } else c) generated

-- `messages[-20:]`
unfoldable pub last_shown : List Json → List Json
last_shown messages = drop (length messages - 20) messages

-- The command `history`: none without a wallet.
unfoldable pub history : Codecs → (Bytes → Str) → ℕ → Str → Client → Result (Option (List Json))
history k sha256 fuel now c = do
  (c1, found) ← load_wallet k c
  elim found [
    | false ↦ ok none
    | true ↦ do
      (c2, loaded) ← load_blockchain k sha256 fuel now c1
      messages ← elim (blockchain c2) [ none ↦ ok [] | some b ↦ get_messages b ]
      ok (some (last_shown messages))
  ]
