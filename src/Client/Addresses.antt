-- ===== src/Client/Addresses.antt =====
-- src/client/cli.py: reading the address of the server, and finding a recipient.
use blockchain_messaging_pro.Common.{
  rsplit, ℕ, ◌+◌, ◌-◌, ◌*◌, ◌≡◌, refl, sym, ap, ◌∙◌, subst, true, false, ◌&&◌, none, some, [], ◌∷◌,
  ◌++◌, Str, ltb, leb, nat_beq, arith, ok,
}
use blockchain_messaging_pro.Json.{decimal}
use blockchain_messaging_pro.Json.Decimal.{
  AreDigits, number, decimal-AreDigits, number-decimal, decimal-cons,
}
use blockchain_messaging_pro.Sync.{pos}
use blockchain_messaging_pro.Client.{ClientConfig}
use blockchain_messaging_pro.Client.Commands.{
  is_digit, is_space, lstrip, rstrip, read_digits, signed_digits, read_signed, int, parse_server,
}

read_digits-eq : (v : ℕ) (s : Str) → AreDigits s → read_digits v true s ≡ ok (number v s)
unfolding read_digits is_digit
read_digits-eq v [] h = refl
read_digits-eq v (c ∷ s) ((low, high), h) =
    let digit : (leb 48 c && ltb c 58) ≡ true = ground arith in
    rw (read_digits, digit) (read_digits-eq (10 * v + (c - 48)) s h)

lstrip_digits : (s : Str) → AreDigits s → lstrip s ≡ s
unfolding lstrip is_space
lstrip_digits [] h = refl
lstrip_digits (c ∷ s) ((low, high), h) =
    let other : is_space c ≡ false = ground arith in rw (lstrip, other) refl

rstrip_digits : (s : Str) → AreDigits s → rstrip s ≡ s
unfolding rstrip is_space
rstrip_digits [] h = refl
rstrip_digits (c ∷ []) ((low, high), h) = ground arith
rstrip_digits (c ∷ d ∷ s) ((low, high), h) = rw (rstrip_digits (d ∷ s) h) refl

read_signed_digits :
    (c : ℕ) (s : Str) → AreDigits (c ∷ s) → read_signed (c ∷ s) ≡ ok (pos (number 0 (c ∷ s)))
unfolding read_signed signed_digits read_digits is_digit
read_signed_digits c s ((low, high), h) =
    let no_minus : nat_beq c b'-' ≡ false = ground arith in
    let no_plus : nat_beq c b'+' ≡ false = ground arith in
    let digit : (leb 48 c && ltb c 58) ≡ true = ground arith in
    rw
      (no_minus, no_plus, signed_digits, read_digits, digit, read_digits-eq (10 * 0 + (c - 48)) s h)
      refl

-- `int` reads the number that is written in decimal.
int-decimal : (n : ℕ) → int (decimal n) ≡ ok (pos n)
unfolding int
int-decimal n =
    let (c, s, e) = decimal-cons n in
    let digits = subst AreDigits e (decimal-AreDigits n) in
    let value : number 0 (c ∷ s) ≡ n = ap (number 0) (sym e) ∙ number-decimal n in
    rw (e, rstrip_digits (c ∷ s) digits, lstrip_digits (c ∷ s) digits)
      (read_signed_digits c s digits ∙ ap (λ v. ok (pos v)) value)

rsplit_digits : (s : Str) → AreDigits s → rsplit b':' s ≡ none
unfolding rsplit
rsplit_digits [] h = refl
rsplit_digits (c ∷ s) ((low, high), h) =
    let other : nat_beq c b':' ≡ false = ground arith in rw (rsplit_digits s h, other) refl

rsplit-append :
    (host port : Str) → AreDigits port → rsplit b':' (host ++ (b':' ∷ port)) ≡ some (host, port)
unfolding rsplit
rsplit-append [] port h = rw (rsplit_digits port h) refl
rsplit-append (c ∷ host) port h = rw (rsplit-append host port h) refl

-- A server address that is written as a host, a colon and a port in decimal is read as that host
-- and that port, whatever colons the host has.
pub parse_server_joined :
    (config : ClientConfig) (host : Str) (port : ℕ)
    → parse_server config (host ++ (b':' ∷ decimal port))
      ≡ ok (record config { registry_host = host; registry_port = pos port })
unfolding parse_server
parse_server_joined config host port =
    rw (parse_server, rsplit-append host (decimal port) (decimal-AreDigits port), int-decimal port)
      refl
