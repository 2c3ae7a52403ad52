-- ===== src/Json.antt =====
-- The values that the program hands to `json.dumps`, and the text that it writes for them.
-- A float is kept as the text that Python's `repr` gives it.
pub mod Decimal
pub mod Quoted
use blockchain_messaging_pro.Common.{
  not, ℕ, zero, suc, ◌+◌, ◌-◌, ◌/◌, ◌%◌, Bool, true, false, ◌||◌, Option, none, some, List, [], ◌∷◌,
  ◌++◌, Str, codes, ltb, nat_beq, str_beq, if◌then◌else◌,
}

mutual
  pub data Json : Type 0 where
    null : Json
    bool : Bool → Json
    num : ℕ → Json
    minus : ℕ → Json
    float : Str → Json
    str : Str → Json
    arr : Items → Json
    obj : Fields → Json

  pub data Items : Type 0 where
    nil : Items
    cons : Json → Items → Items

  pub data Fields : Type 0 where
    end : Fields
    field : Str → Json → Fields → Fields

abbrev pub items : List Json → Items
items [] = nil
items (j ∷ js) = cons j (items js)

abbrev pub to_list : Items → List Json
to_list nil = []
to_list (cons j js) = j ∷ to_list js

-- `d.get(k)` on a decoded dictionary
unfoldable pub get_field : Fields → Str → Option Json
get_field end k = none
get_field (field j v fs) k = if str_beq j k then some v else get_field fs k

-- Decimal digits, least first; a number has at most `n + 1` of them.
digits_of : ℕ → ℕ → Str → Str
digits_of zero n acc = acc
digits_of (suc f) n acc =
    let here = (48 + n % 10) ∷ acc in
    let rest = digits_of f (n / 10) here in if ltb n 10 then here else rest

unfoldable pub decimal : ℕ → Str
unfolding digits_of
decimal n = digits_of (suc n) n []

hex_digit : ℕ → ℕ
hex_digit d = if ltb d 10 then 48 + d else 87 + d

-- `\u` and four hexadecimal digits
unicode_escape : ℕ → Str
unfolding hex_digit
unicode_escape c =
    92
    ∷ 117
    ∷ hex_digit (c / 4096 % 16)
    ∷ hex_digit (c / 256 % 16)
    ∷ hex_digit (c / 16 % 16)
    ∷ hex_digit (c % 16)
    ∷ []

-- One character of a string, as `ensure_ascii` writes it.
escape_char : ℕ → Str
unfolding unicode_escape
escape_char c =
    if nat_beq c 34 || nat_beq c 92
    then 92 ∷ c ∷ []
    else if nat_beq c 10
    then 92 ∷ 110 ∷ []
    else if nat_beq c 13
    then 92 ∷ 114 ∷ []
    else if nat_beq c 9
    then 92 ∷ 116 ∷ []
    else if nat_beq c 12
    then 92 ∷ 102 ∷ []
    else if nat_beq c 8
    then 92 ∷ 98 ∷ []
    else if ltb c 32
    then unicode_escape c
    else if ltb c 127
    then c ∷ []
    else if ltb c 0x10000
    then unicode_escape c
    else unicode_escape (0xd800 + (c - 0x10000) / 1024 % 1024) ++ unicode_escape (0xdc00 + c % 1024)

escape : Str → Str
unfolding escape_char
escape [] = []
escape (c ∷ s) = escape_char c ++ escape s

unfoldable pub quote : Str → Str
unfolding escape
quote s = 34 ∷ (escape s ++ (34 ∷ []))

-- The order of Python's `sorted` on the keys.
str_before : Str → Str → Bool
str_before [] t = true
str_before (a ∷ s) [] = false
str_before (a ∷ s) (b ∷ t) =
    let rest = str_before s t in if ltb a b then true else if ltb b a then false else rest

insert_entry : Str → Str → List (Str × Str) → List (Str × Str)
unfolding str_before
insert_entry k v [] = (k, v) ∷ []
insert_entry k v ((j, w) ∷ es) =
    let rest = insert_entry k v es in if str_before k j then (k, v) ∷ (j, w) ∷ es else (j, w) ∷ rest

sort_entries : List (Str × Str) → List (Str × Str)
unfolding insert_entry
sort_entries [] = []
sort_entries ((k, v) ∷ es) = insert_entry k v (sort_entries es)

-- The parts, separated by a comma and a space.
join_items : List Str → Str
join_items [] = []
join_items (t ∷ []) = t
join_items (t ∷ u ∷ ts) = t ++ (44 ∷ 32 ∷ join_items (u ∷ ts))

entry_texts : List (Str × Str) → List Str
unfolding quote
entry_texts [] = []
entry_texts ((k, t) ∷ es) = (quote k ++ (58 ∷ 32 ∷ t)) ∷ entry_texts es

render_fields : Bool → List (Str × Str) → Str
unfolding sort_entries join_items entry_texts
render_fields sort_keys es =
    123 ∷ (join_items (entry_texts (if sort_keys then sort_entries es else es)) ++ (125 ∷ []))

-- `json.dumps(value, sort_keys=...)`
unfoldable mutual
  unfolding decimal quote join_items render_fields

  pub dumps : Bool → Json → Str
  dumps sort_keys null = codes "null"
  dumps sort_keys (bool true) = codes "true"
  dumps sort_keys (bool false) = codes "false"
  dumps sort_keys (num n) = decimal n
  dumps sort_keys (minus n) = 45 ∷ decimal (suc n)
  dumps sort_keys (float t) = t
  dumps sort_keys (str s) = quote s
  dumps sort_keys (arr js) = 91 ∷ (join_items (dump_items sort_keys js) ++ (93 ∷ []))
  dumps sort_keys (obj fs) = render_fields sort_keys (dump_fields sort_keys fs)

  pub dump_items : Bool → Items → List Str
  dump_items sort_keys nil = []
  dump_items sort_keys (cons j js) = dumps sort_keys j ∷ dump_items sort_keys js

  pub dump_fields : Bool → Fields → List (Str × Str)
  dump_fields sort_keys end = []
  dump_fields sort_keys (field k j fs) = (k, dumps sort_keys j) ∷ dump_fields sort_keys fs

-- Python's truth value of a decoded value
unfoldable pub truthy : Json → Bool
truthy null = false
truthy (bool b) = b
truthy (num zero) = false
truthy (float t) = not (str_beq t (codes "0.0") || str_beq t (codes "-0.0"))
truthy (str []) = false
truthy (arr nil) = false
truthy (obj end) = false
truthy _ = true

unfoldable pub truthy_at : Fields → Str → Bool
truthy_at fs k = elim (get_field fs k) [ none ↦ false | some j ↦ truthy j ]
