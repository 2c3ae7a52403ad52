-- ===== src/Tests/Messages.antt =====
-- A text message with an empty nonce, over stand-ins for base64 and for signing.
use blockchain_messaging_pro.Common.{
  ℕ, zero, suc, ◌≡◌, refl, ap, ap₂, inl, none, some, [], ◌∷◌, ◌++◌, Str, Bytes, codes, drop,
  replicate, arith,
}
use blockchain_messaging_pro.Json.{str, end, field}
use blockchain_messaging_pro.Json.Quoted.{IsText, is_text, is_text-IsText, Lacks, Lacks-cancel}
use blockchain_messaging_pro.Message.Binding.{IsSignable, get_signable_content-injective}
use blockchain_messaging_pro.Message.{MessagePayload, text, get_signable_content}
use blockchain_messaging_pro.Message.RoundTrip.{without_empty_nonce}

abbrev hello : MessagePayload
hello = record {
  id = codes "m";
  kind = text;
  sender = codes "a";
  recipient = codes "b";
  timestamp = codes "1.0";
  content = codes "hi";
  signature = [];
  nonce = some [];
  chunk_info = some (record { sequence = 0; total = 1; stream_id = codes "s"; hash = codes "h" });
  metadata = end;
}

abbrev letters : ℕ → Str
letters n = replicate n b'a'

-- a coder that writes a byte as so many letters and another one
unary : Bytes → Str
unary [] = []
unary (n ∷ bs) = letters n ++ (b'b' ∷ unary bs)

letters-IsText : (n : ℕ) (s : Str) → IsText s → IsText (letters n ++ s)
letters-IsText zero s h = h
letters-IsText (suc n) s h = (inl (omega arith), letters-IsText n s h)

letters-Lacks : (n : ℕ) → Lacks b'b' (letters n)
letters-Lacks zero = tt
letters-Lacks (suc n) = (λ e. ground arith, letters-Lacks n)

letters-injective : (m n : ℕ) → letters m ≡ letters n → m ≡ n
letters-injective zero zero e = refl
letters-injective zero (suc n) e = absurd (ground arith)
letters-injective (suc m) zero e = absurd (ground arith)
letters-injective (suc m) (suc n) e = ap suc (letters-injective m n (ap (drop 1) e))

unary-IsText : (b : Bytes) → IsText (unary b)
unfolding unary
unary-IsText [] = tt
unary-IsText (n ∷ bs) = letters-IsText n (b'b' ∷ unary bs) (inl (omega arith), unary-IsText bs)

unary-injective : (a b : Bytes) → unary a ≡ unary b → a ≡ b
unfolding unary
unary-injective [] [] e = refl
unary-injective [] (zero ∷ bs) e = absurd (ground arith)
unary-injective [] (suc n ∷ bs) e = absurd (ground arith)
unary-injective (zero ∷ bs) [] e = absurd (ground arith)
unary-injective (suc n ∷ bs) [] e = absurd (ground arith)
unary-injective (m ∷ xs) (n ∷ ys) e =
    let (same, rest) =
      Lacks-cancel b'b' (letters m) (letters n) (unary xs) (unary ys) (letters-Lacks m)
        (letters-Lacks n) e in
    ap₂ ◌∷◌ (letters-injective m n same) (unary-injective xs ys rest)

abbrev a_note : MessagePayload
a_note = record {
  id = codes "m";
  kind = text;
  sender = codes "alice";
  recipient = codes "bob";
  timestamp = codes "1.5";
  content = 7 ∷ [];
  signature = [];
  nonce = some (3 ∷ []);
  chunk_info = none;
  metadata = end;
}

abbrev tampered : MessagePayload
tampered = record a_note { signature = 1 ∷ []; metadata = field (codes "name") (str []) end }

a_note-IsSignable : IsSignable unary unary-IsText unary-injective a_note
unfolding is_text
a_note-IsSignable = record {
  id = is_text-IsText (codes "m") refl;
  sender = is_text-IsText (codes "alice") refl;
  recipient = is_text-IsText (codes "bob") refl;
  timestamp = (λ e. ground arith, (λ e. ground arith, (λ e. ground arith, tt)));
  chunk = tt;
}

tampered-IsSignable : IsSignable unary unary-IsText unary-injective tampered
tampered-IsSignable = record {
  id = a_note-IsSignable.id;
  sender = a_note-IsSignable.sender;
  recipient = a_note-IsSignable.recipient;
  timestamp = a_note-IsSignable.timestamp;
  chunk = tt;
}

same_signed_content : get_signable_content unary a_note ≡ get_signable_content unary tampered
unfolding get_signable_content
same_signed_content = refl

get_signable_content-injective_example :
    without_empty_nonce a_note
    ≡ record (without_empty_nonce tampered) { signature = []; metadata = end }
get_signable_content-injective_example =
    get_signable_content-injective unary unary-IsText unary-injective a_note tampered
      a_note-IsSignable tampered-IsSignable same_signed_content
