-- ===== src/Frame/RoundTrip.antt =====
-- Writing and reading frames are inverse to each other, up to the limit on the payload.
use blockchain_messaging_pro.Common.{
  ℕ, suc, ◌≢◌, ◌+◌, ◌-◌, ◌*◌, ◌/◌, ◌%◌, ◌≤◌, ◌<◌, ◌^◌, ◌≡◌, refl, ap, ◌∙◌, [], ◌∷◌, ◌++◌, Bytes,
  arith, length, take, slice, ok, >>=-eq-ok, ◌>>=◌, err, value_error, take-append, length-append,
  str_beq, str_beq_iff, true, length-take,
}
use blockchain_messaging_pro.Frame.{
  FrameType, read_payload, code, frame_type, ProtocolFrame, protocol_magic, max_frame_size,
  pack_u32, unpack_u32, to_bytes, from_bytes, data_frame, handshake, handshake_ack, ping, pong,
  error, close,
}

frame_type-code : (k : FrameType) → frame_type (code k) ≡ ok k
unfolding frame_type code
frame_type-code data_frame = refl
frame_type-code handshake = refl
frame_type-code handshake_ack = refl
frame_type-code ping = refl
frame_type-code pong = refl
frame_type-code error = refl
frame_type-code close = refl

code-frame_type : (n : ℕ) (k : FrameType) → frame_type n ≡ ok k → code k ≡ n
unfolding frame_type code
code-frame_type n k h = ground arith

-- the bytes of a frame
abbrev frame_bytes : ProtocolFrame → Bytes
frame_bytes f =
    let n = length f.payload in
    66
    ∷ 77
    ∷ 80
    ∷ 1
    ∷ code f.frame_type
    ∷ (n / 2 ^ 24)
    ∷ (n / 2 ^ 16 % 256)
    ∷ (n / 2 ^ 8 % 256)
    ∷ (n % 256)
    ∷ f.payload

to_bytes-frame_bytes :
    (f : ProtocolFrame) → length f.payload < 2 ^ 32 → to_bytes f ≡ ok (frame_bytes f)
unfolding to_bytes pack_u32
to_bytes-frame_bytes f h = ground arith

four_bytes :
    (n : ℕ)
    → n < 2 ^ 32
    → n / 2 ^ 24 * 2 ^ 24 + n / 2 ^ 16 % 256 * 2 ^ 16 + n / 2 ^ 8 % 256 * 2 ^ 8 + n % 256 ≡ n
four_bytes n h = omega arith

from_bytes-frame_bytes :
    (f : ProtocolFrame) (rest : Bytes)
    → length f.payload < 2 ^ 32
    → from_bytes (frame_bytes f ++ rest)
      ≡ read_payload (frame_bytes f ++ rest) f.frame_type (length f.payload)
unfolding from_bytes unpack_u32
from_bytes-frame_bytes f rest h =
    rw (frame_type-code f.frame_type, four_bytes (length f.payload) h) (ground arith)

read_payload_whole :
    (f : ProtocolFrame) (rest : Bytes)
    → length f.payload ≤ max_frame_size
    → read_payload (frame_bytes f ++ rest) f.frame_type (length f.payload)
      ≡ ok (f, length (frame_bytes f))
unfolding read_payload
read_payload_whole f rest h =
    ground
      (arith, length-append f.payload rest, take-append f.payload rest (9 + length f.payload - 9))

-- A frame whose payload is at most 16 MB is written, and read back from its bytes, whatever
-- follows them, and exactly its own bytes are consumed.
pub from_bytes-to_bytes :
    (f : ProtocolFrame) (rest : Bytes)
    → length f.payload ≤ max_frame_size
    → (bytes : Bytes) × (to_bytes f ≡ ok bytes)
      × (from_bytes (bytes ++ rest) ≡ ok (f, length bytes))
from_bytes-to_bytes f rest h = (
  frame_bytes f,
  to_bytes-frame_bytes f (omega arith),
  from_bytes-frame_bytes f rest (omega arith) ∙ read_payload_whole f rest h,
)

-- A larger payload, up to the range of the length field, is written, and its bytes are refused by
-- the reader.
pub from_bytes_too_large :
    (f : ProtocolFrame) (rest : Bytes)
    → max_frame_size < length f.payload
    → length f.payload < 2 ^ 32
    → (bytes : Bytes) × (to_bytes f ≡ ok bytes) × (from_bytes (bytes ++ rest) ≡ err value_error)
unfolding read_payload
from_bytes_too_large f rest h k =
    (frame_bytes f, to_bytes-frame_bytes f k, from_bytes-frame_bytes f rest k ∙ ground arith)

abbrev pub IsBytes : Bytes → Type 0
IsBytes [] = Unit
IsBytes (b ∷ bs) = (b < 256) × IsBytes bs

-- what `from_bytes` has tested, on an input that holds a header
header_tests :
    (m0 m1 m2 m3 k b0 b1 b2 b3 : ℕ) (tail : Bytes) (r : ProtocolFrame × ℕ)
    → let input = m0 ∷ m1 ∷ m2 ∷ m3 ∷ k ∷ b0 ∷ b1 ∷ b2 ∷ b3 ∷ tail in
      from_bytes input ≡ ok r
      → (str_beq (m0 ∷ m1 ∷ m2 ∷ m3 ∷ []) protocol_magic ≡ true)
        × ((frame_type k >>= λ kind.
              read_payload input kind (b0 * 2 ^ 24 + b1 * 2 ^ 16 + b2 * 2 ^ 8 + b3))
            ≡ ok r)
unfolding from_bytes unpack_u32
header_tests m0 m1 m2 m3 k b0 b1 b2 b3 tail r h = (ground arith, ground arith)

payload_tests :
    (input : Bytes) (kind : FrameType) (n : ℕ) (f : ProtocolFrame) (used : ℕ)
    → read_payload input kind n ≡ ok (f, used)
    → (n ≤ max_frame_size)
      × (9 + n ≤ length input)
      × (used ≡ 9 + n)
      × (f.frame_type ≡ kind)
      × (f.payload ≡ slice input 9 (9 + n))
unfolding read_payload
payload_tests input kind n f used h =
    (ground arith, ground arith, ground arith, ground arith, ground arith)

short_refused : (input : Bytes) (r : ProtocolFrame × ℕ) → length input < 9 → from_bytes input ≢ ok r
unfolding from_bytes
short_refused input r h e = ground arith

header_equal :
    (m0 m1 m2 m3 k b0 b1 b2 b3 : ℕ) (tail : Bytes) (f : ProtocolFrame) (n : ℕ)
    → IsBytes (m0 ∷ m1 ∷ m2 ∷ m3 ∷ k ∷ b0 ∷ b1 ∷ b2 ∷ b3 ∷ tail)
    → m0 ∷ m1 ∷ m2 ∷ m3 ∷ [] ≡ protocol_magic
    → code f.frame_type ≡ k
    → n ≡ b0 * 2 ^ 24 + b1 * 2 ^ 16 + b2 * 2 ^ 8 + b3
    → length f.payload ≡ n
    → f.payload ≡ take n tail
    → frame_bytes f
      ≡ take
          (suc (suc (suc (suc (suc (suc (suc (suc (suc n)))))))))
          (m0 ∷ m1 ∷ m2 ∷ m3 ∷ k ∷ b0 ∷ b1 ∷ b2 ∷ b3 ∷ tail)
header_equal m0 m1 m2 m3 k b0 b1 b2 b3 tail f n bytes magic kind size len payload = ground arith

-- Whatever sequence of bytes `from_bytes` accepts, the count that it returns is within the input,
-- and writing the frame that it returns gives that part of the input back.
pub to_bytes-from_bytes :
    (input : Bytes) (f : ProtocolFrame) (used : ℕ)
    → IsBytes input
    → from_bytes input ≡ ok (f, used)
    → (used ≤ length input) × (to_bytes f ≡ ok (take used input))
to_bytes-from_bytes (m0 ∷ m1 ∷ m2 ∷ m3 ∷ k ∷ b0 ∷ b1 ∷ b2 ∷ b3 ∷ tail) f used bytes h =
    let n = b0 * 2 ^ 24 + b1 * 2 ^ 16 + b2 * 2 ^ 8 + b3 in
    let (magic, more) = header_tests m0 m1 m2 m3 k b0 b1 b2 b3 tail (f, used) h in
    let (kind, ek, er) = >>=-eq-ok (frame_type k) _ more in
    let (small, room, total, same_kind, same_payload) = payload_tests _ kind n f used er in
    let len : length f.payload ≡ n =
      ap length same_payload ∙ length-take (9 + n - 9) tail ∙ omega arith in
    let header =
      header_equal m0 m1 m2 m3 k b0 b1 b2 b3 tail f n bytes ((str_beq_iff _ protocol_magic).0 magic)
        (ap code same_kind ∙ code-frame_type k kind ek) refl len
        (same_payload ∙ ap (λ t. take t tail) (omega arith)) in
    let consumed : suc (suc (suc (suc (suc (suc (suc (suc (suc n)))))))) ≡ used =
      omega (arith, total) in
    (
      omega arith,
      to_bytes-frame_bytes f (omega arith)
          ∙ ap ok (
              header
              ∙ ap (λ t. take t (m0 ∷ m1 ∷ m2 ∷ m3 ∷ k ∷ b0 ∷ b1 ∷ b2 ∷ b3 ∷ tail)) consumed),
    )
to_bytes-from_bytes input f used bytes h = absurd (short_refused input (f, used) (omega arith) h)
