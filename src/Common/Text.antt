-- ===== src/Common/Text.antt =====
-- Python's `str` as a list of code points, `bytes` as a list of bytes, `str.encode()`.
use Prim.Native.Nat.{ℕ, ◌+◌, ◌/◌, ◌%◌}
use Prim.Native.Char.{code}
use Prim.Native.String.{String}
use mathlib.Core.Path.{◌≡◌, refl, sym, ap₂}
use mathlib.Core.Logic.{◌↔◌, ◌≢◌}
use mathlib.Core.Bool.{Bool, true, false, ◌&&◌}
use mathlib.Core.Option.{Option, none, some}
use mathlib.Core.List.{List, [], ◌∷◌}
use native.Mathlib.Omega.{arith}
use blockchain_messaging_pro.Common.Tests.{ltb, nat_beq, if◌then◌else◌, HasEq}

abbrev pub Str : Type 0
Str = List ℕ

abbrev pub Bytes : Type 0
Bytes = List ℕ

-- A literal of the source.
abbrev pub codes : String → Str
codes String.[] = []
codes (String.◌∷◌ c s) = code c ∷ codes s

abbrev pub str_beq : Str → Str → Bool
str_beq [] [] = true
str_beq [] (b ∷ t) = false
str_beq (a ∷ s) [] = false
str_beq (a ∷ s) (b ∷ t) = nat_beq a b && str_beq s t

str_beq_sound : (s t : Str) → str_beq s t ≡ true → s ≡ t
str_beq_sound [] [] h = refl
str_beq_sound [] (b ∷ t) h = ground arith
str_beq_sound (a ∷ s) [] h = ground arith
str_beq_sound (a ∷ s) (b ∷ t) h = ground (arith, str_beq_sound s t)

pub str_beq_refl : (s : Str) → str_beq s s ≡ true
str_beq_refl [] = refl
str_beq_refl (a ∷ s) = ground (arith, str_beq_refl s)

pub str_beq_iff : (s t : Str) → (str_beq s t ≡ true) ↔ (s ≡ t)
str_beq_iff s t = (str_beq_sound s t, λ e. rw (← e) (str_beq_refl s))

instance abbrev pub str_eq : HasEq Str
str_eq = record { eqb = str_beq; eqb_iff = str_beq_iff }

-- `s.startswith(prefix)`
abbrev pub starts_with : Str → Str → Bool
starts_with s [] = true
starts_with [] (b ∷ t) = false
starts_with (a ∷ s) (b ∷ t) = nat_beq a b && starts_with s t

-- `s.rsplit(separator, 1)` of a text with the separator: what is before its last place and after
unfoldable pub rsplit : ℕ → Str → Option (Str × Str)
rsplit separator [] = none
rsplit separator (c ∷ s) = elim (rsplit separator s) [
  | some (before, after) ↦ some (c ∷ before, after)
  | none ↦ if nat_beq c separator then some ([], s) else none
]

-- UTF-8, one code point.
pub encode_char : ℕ → Bytes → Bytes
encode_char c rest =
    if ltb c 0x80
    then c ∷ rest
    else if ltb c 0x800
    then (0xc0 + c / 64) ∷ (0x80 + c % 64) ∷ rest
    else if ltb c 0x10000
    then (0xe0 + c / 4096) ∷ (0x80 + c / 64 % 64) ∷ (0x80 + c % 64) ∷ rest
    else (0xf0 + c / 262144)
      ∷ (0x80 + c / 4096 % 64)
      ∷ (0x80 + c / 64 % 64)
      ∷ (0x80 + c % 64)
      ∷ rest

-- `s.encode()`
unfoldable pub encode : Str → Bytes
unfolding encode_char
encode [] = []
encode (c ∷ s) = encode_char c (encode s)

encode_char_injective :
    (a b : ℕ) (s t : Bytes) → encode_char a s ≡ encode_char b t → (a ≡ b) × (s ≡ t)
unfolding encode_char
encode_char_injective a b s t h = ground arith

encode_char-ne-nil : (a : ℕ) (s : Bytes) → encode_char a s ≢ []
unfolding encode_char
encode_char-ne-nil a s h = ground arith

-- Different texts have different encodings.
pub encode_injective : (s t : Str) → encode s ≡ encode t → s ≡ t
unfolding encode
encode_injective [] [] h = refl
encode_injective [] (b ∷ t) h = absurd (encode_char-ne-nil b (encode t) (sym h))
encode_injective (a ∷ s) [] h = absurd (encode_char-ne-nil a (encode s) h)
encode_injective (a ∷ s) (b ∷ t) h =
    let (head, tail) = encode_char_injective a b (encode s) (encode t) h in
    ap₂ ◌∷◌ head (encode_injective s t tail)
