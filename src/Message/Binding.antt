-- ===== src/Message/Binding.antt =====
-- src/core/message.py: what the signed content of a message determines.
use mathlib.Core.List.{append_assoc, append_cancel_right}
use blockchain_messaging_pro.Common.{
  ◌≡◌, refl, sym, ap, ◌∙◌, inl, inr, Option, none, some, [], ◌∷◌, ◌++◌, Str, Bytes, encode, codes,
  encode_injective, arith, drop, get_or, true,
}
use blockchain_messaging_pro.Json.{obj, dumps, quote, decimal}
use blockchain_messaging_pro.Json.Quoted.{IsText, Lacks, quote-cancel, Lacks-cancel, decimal-cancel}
use blockchain_messaging_pro.Message.{
  MessagePayload, ChunkInfo, type_name, chunk_to_dict, get_signable_content,
}
use blockchain_messaging_pro.Message.Names.{type_name-IsText, type_name-injective}
use blockchain_messaging_pro.Message.RoundTrip.{without_empty_nonce}

abbrev chunk_text : ChunkInfo → Str → Str
chunk_text c rest =
    codes "{\"hash\": "
    ++ (quote c.hash
        ++ (codes ", \"sequence\": "
            ++ (decimal c.sequence
                ++ (codes ", \"stream_id\": "
                    ++ (quote c.stream_id
                        ++ (codes ", \"total\": " ++ (decimal c.total ++ (codes "}" ++ rest))))))))

dumps-chunk_to_dict :
    (c : ChunkInfo) (rest : Str) → dumps true (obj (chunk_to_dict c)) ++ rest ≡ chunk_text c rest
unfolding dumps chunk_to_dict quote
dumps-chunk_to_dict c rest = simp (append_assoc) refl

-- Texts of the chunk information that JSON can tell apart.
abbrev pub ChunkIsText : Option ChunkInfo → Type 0
ChunkIsText none = Unit
ChunkIsText (some c) = IsText c.hash × IsText c.stream_id

same_chunk :
    {a b : ChunkInfo}
    → a.sequence ≡ b.sequence
    → a.total ≡ b.total
    → a.stream_id ≡ b.stream_id
    → a.hash ≡ b.hash
    → a ≡ b
same_chunk {a} {b} p q r s =
    ap (λ x. record a { sequence = x }) p
    ∙ ap (λ x. record b { total = x; stream_id = a.stream_id; hash = a.hash }) q
    ∙ ap (λ x. record b { stream_id = x; hash = a.hash }) r
    ∙ ap (λ x. record b { hash = x }) s

chunk_text-cancel :
    (c d : ChunkInfo) (r u : Str)
    → ChunkIsText (some c)
    → ChunkIsText (some d)
    → chunk_text c r ≡ chunk_text d u
    → (c ≡ d) × (r ≡ u)
chunk_text-cancel c d r u (hash, stream) (hash', stream') e =
    let (same_hash, e1) = quote-cancel c.hash d.hash _ _ hash hash' (ap (drop 9) e) in
    let (same_sequence, e2) =
      decimal-cancel 44 c.sequence d.sequence _ _ (inl (omega arith)) (ap (drop 14) e1) in
    let (same_stream, e3) =
      quote-cancel c.stream_id d.stream_id _ _ stream stream' (ap (drop 14) e2) in
    let (same_total, e4) =
      decimal-cancel 125 c.total d.total r u (inr (omega arith)) (ap (drop 11) e3) in
    (same_chunk same_sequence same_total same_stream same_hash, e4)

-- the chunk information of a message in its signed text
abbrev chunk_part : Option ChunkInfo → Str → Str
chunk_part none rest = rest
chunk_part (some c) rest =
    codes "\"chunk_info\": " ++ (dumps true (obj (chunk_to_dict c)) ++ (codes ", " ++ rest))

chunk_part-cancel :
    (a b : Option ChunkInfo) (r u : Str)
    → ChunkIsText a
    → ChunkIsText b
    → chunk_part a (codes "\"content\": " ++ r) ≡ chunk_part b (codes "\"content\": " ++ u)
    → (a ≡ b) × (r ≡ u)
chunk_part-cancel none none r u h k e = (refl, ap (drop 11) e)
chunk_part-cancel none (some d) r u h k e = absurd (omega (arith, ap (λ s. get_or s 2 0) e))
chunk_part-cancel (some c) none r u h k e = absurd (omega (arith, ap (λ s. get_or s 2 0) e))
chunk_part-cancel (some c) (some d) r u h k e =
    let (same, rest) =
      chunk_text-cancel c d (codes ", \"content\": " ++ r) (codes ", \"content\": " ++ u) h k
        (sym (dumps-chunk_to_dict c _) ∙ ap (drop 14) e ∙ dumps-chunk_to_dict d _) in
    (ap some same, ap (drop 13) rest)

module _ (b64encode : Bytes → Str) where
  abbrev nonce_part : Option Bytes → Str → Str
  nonce_part none rest = rest
  nonce_part (some []) rest = rest
  nonce_part (some (x ∷ xs)) rest =
      codes "\"nonce\": " ++ (quote (b64encode (x ∷ xs)) ++ (codes ", " ++ rest))

  -- the signed text without its braces
  abbrev signed_text : MessagePayload → Str
  signed_text m = chunk_part m.chunk_info (
      codes "\"content\": "
      ++ (quote (b64encode m.content)
          ++ (codes ", \"id\": "
              ++ (quote m.id
                  ++ (codes ", "
                      ++ (nonce_part m.nonce (
                          codes "\"recipient\": "
                          ++ (quote m.recipient
                              ++ (codes ", \"sender\": "
                                  ++ (quote m.sender
                                      ++ (codes ", \"timestamp\": "
                                          ++ (m.timestamp
                                              ++ (codes ", \"type\": "
                                                  ++ quote (type_name m.kind))))))))))))))

  signable :
      (m : MessagePayload) (nonce : Option Bytes) (chunk : Option ChunkInfo)
      → get_signable_content b64encode (record m { nonce = nonce; chunk_info = chunk })
        ≡ encode
            (123 ∷ (signed_text (record m { nonce = nonce; chunk_info = chunk }) ++ (125 ∷ [])))
  unfolding get_signable_content dumps chunk_to_dict quote
  signable m none none = refl
  signable m none (some c) = refl
  signable m (some []) none = refl
  signable m (some []) (some c) = refl
  signable m (some (x ∷ xs)) none = refl
  signable m (some (x ∷ xs)) (some c) = refl

  -- an empty nonce is none
  abbrev some_nonce : Option Bytes → Option Bytes
  some_nonce n = elim n [ none ↦ none | some [] ↦ none | some (x ∷ xs) ↦ some (x ∷ xs) ]

  module _ (texts : (b : Bytes) → IsText (b64encode b))
      (injective : (a b : Bytes) → b64encode a ≡ b64encode b → a ≡ b) where
    nonce_part-cancel :
        (a b : Option Bytes) (r u : Str)
        → nonce_part a (codes "\"recipient\": " ++ r) ≡ nonce_part b (codes "\"recipient\": " ++ u)
        → (some_nonce a ≡ some_nonce b) × (r ≡ u)
    nonce_part-cancel none none r u e = (refl, ap (drop 13) e)
    nonce_part-cancel none (some []) r u e = (refl, ap (drop 13) e)
    nonce_part-cancel (some []) none r u e = (refl, ap (drop 13) e)
    nonce_part-cancel (some []) (some []) r u e = (refl, ap (drop 13) e)
    nonce_part-cancel none (some (y ∷ ys)) r u e = absurd (omega (arith, ap (λ s. get_or s 1 0) e))
    nonce_part-cancel (some []) (some (y ∷ ys)) r u e =
        absurd (omega (arith, ap (λ s. get_or s 1 0) e))
    nonce_part-cancel (some (x ∷ xs)) none r u e = absurd (omega (arith, ap (λ s. get_or s 1 0) e))
    nonce_part-cancel (some (x ∷ xs)) (some []) r u e =
        absurd (omega (arith, ap (λ s. get_or s 1 0) e))
    nonce_part-cancel (some (x ∷ xs)) (some (y ∷ ys)) r u e =
        let (same, rest) =
          quote-cancel (b64encode (x ∷ xs)) (b64encode (y ∷ ys)) _ _ (texts (x ∷ xs))
            (texts (y ∷ ys)) (ap (drop 9) e) in
        (ap some (injective (x ∷ xs) (y ∷ ys) same), ap (drop 15) rest)

    -- The message's texts have no surrogates, and its time, which is the text of a float, no comma.
    pub record IsSignable (m : MessagePayload) : Type 0 where
      pub id : IsText m.id
      pub sender : IsText m.sender
      pub recipient : IsText m.recipient
      pub timestamp : Lacks b',' m.timestamp
      pub chunk : ChunkIsText m.chunk_info

    -- what is equal in two messages with the same signed content
    record Agrees (m n : MessagePayload) : Type 0 where
      id : m.id ≡ n.id
      kind : m.kind ≡ n.kind
      sender : m.sender ≡ n.sender
      recipient : m.recipient ≡ n.recipient
      timestamp : m.timestamp ≡ n.timestamp
      content : m.content ≡ n.content
      nonce : some_nonce m.nonce ≡ some_nonce n.nonce
      chunk : m.chunk_info ≡ n.chunk_info

    signed_text-cancel :
        (m n : MessagePayload)
        → IsSignable m
        → IsSignable n
        → signed_text m ≡ signed_text n
        → Agrees m n
    signed_text-cancel m n h k e =
        let (chunk, e1) = chunk_part-cancel m.chunk_info n.chunk_info _ _ h.chunk k.chunk e in
        let (content, e2) =
          quote-cancel (b64encode m.content) (b64encode n.content) _ _ (texts m.content)
            (texts n.content) e1 in
        let (id, e3) = quote-cancel m.id n.id _ _ h.id k.id (ap (drop 8) e2) in
        let (nonce, e4) = nonce_part-cancel m.nonce n.nonce _ _ (ap (drop 2) e3) in
        let (recipient, e5) = quote-cancel m.recipient n.recipient _ _ h.recipient k.recipient e4 in
        let (sender, e6) = quote-cancel m.sender n.sender _ _ h.sender k.sender (ap (drop 12) e5) in
        let (timestamp, e7) =
          Lacks-cancel b',' m.timestamp n.timestamp _ _ h.timestamp k.timestamp (ap (drop 15) e6) in
        let (name, e8) =
          quote-cancel (type_name m.kind) (type_name n.kind) [] [] (type_name-IsText m.kind)
            (type_name-IsText n.kind) (ap (λ s. drop 9 s ++ []) e7) in
        record {
          id = id;
          kind = type_name-injective m.kind n.kind name;
          sender = sender;
          recipient = recipient;
          timestamp = timestamp;
          content = injective m.content n.content content;
          nonce = nonce;
          chunk = chunk;
        }

    without_empty_nonce-Agrees :
        (m n : MessagePayload)
        → Agrees m n
        → without_empty_nonce m
          ≡ record (without_empty_nonce n) { signature = m.signature; metadata = m.metadata }
    without_empty_nonce-Agrees m n a =
        rw (a.id, a.kind, a.sender, a.recipient, a.timestamp, a.content, a.nonce, a.chunk) refl

    -- Two messages with the same signed content differ in their signatures and their metadata only,
    -- an empty nonce taken for none, if base64 makes texts and different ones of different bytes, the
    -- texts of the messages have no surrogates and the texts of their times no comma.
    pub get_signable_content-injective :
        (m n : MessagePayload)
        → IsSignable m
        → IsSignable n
        → get_signable_content b64encode m ≡ get_signable_content b64encode n
        → without_empty_nonce m
          ≡ record (without_empty_nonce n) { signature = m.signature; metadata = m.metadata }
    get_signable_content-injective m n h k e =
        let same =
          encode_injective _ _
            (sym (signable m m.nonce m.chunk_info) ∙ e ∙ signable n n.nonce n.chunk_info) in
        without_empty_nonce-Agrees m n (
          signed_text-cancel m n h k
            (append_cancel_right (signed_text m) (signed_text n) (125 ∷ []) (ap (drop 1) same)))
