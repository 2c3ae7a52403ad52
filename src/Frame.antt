-- ===== src/Frame.antt =====
-- `FrameType` and `ProtocolFrame` of src/network/protocol.py: the framing of the wire protocol.
pub mod RoundTrip
use blockchain_messaging_pro.Common.{
  ℕ, ◌+◌, ◌*◌, ◌/◌, ◌%◌, ◌^◌, ◌≡◌, Bool, not, List, [], ◌∷◌, ◌++◌, Option, none, some, Bytes, Str,
  encode, length, get_or, slice, take, drop, ltb, nat_beq, str_beq, if◌then◌else◌, Result, ok, err,
  ◌>>=◌, expect, value_error, type_error,
}

pub data FrameType : Type 0 where
  data_frame handshake handshake_ack ping pong error close : FrameType

-- the value of an `IntEnum` member
unfoldable pub code : FrameType → ℕ
code data_frame = 1
code handshake = 2
code handshake_ack = 3
code ping = 4
code pong = 5
code error = 6
code close = 7

-- `FrameType(n)`: a `ValueError` for a number that no member has
unfoldable pub frame_type : ℕ → Result FrameType
frame_type n =
    if nat_beq n 1
    then ok data_frame
    else if nat_beq n 2
    then ok handshake
    else if nat_beq n 3
    then ok handshake_ack
    else if nat_beq n 4
    then ok ping
    else if nat_beq n 5
    then ok pong
    else if nat_beq n 6
    then ok error
    else if nat_beq n 7
    then ok close
    else err value_error

-- `b"BMP\x01"`
abbrev pub protocol_magic : Bytes
protocol_magic = 66 ∷ 77 ∷ 80 ∷ 1 ∷ []

abbrev pub max_frame_size : ℕ
max_frame_size = 16 * 1024 * 1024

pub record ProtocolFrame : Type 0 where
  pub frame_type : FrameType
  pub payload : Bytes

-- `struct.pack("!I", n)`: four bytes, the highest first; a larger number is `struct.error`
unfoldable pub pack_u32 : ℕ → Result Bytes
pack_u32 n =
    if ltb n (2 ^ 32)
    then ok ((n / 2 ^ 24) ∷ (n / 2 ^ 16 % 256) ∷ (n / 2 ^ 8 % 256) ∷ (n % 256) ∷ [])
    else err value_error

-- `struct.unpack("!I", data)[0]` of four bytes
unfoldable pub unpack_u32 : Bytes → ℕ
unpack_u32 (a ∷ b ∷ c ∷ d ∷ []) = a * 2 ^ 24 + b * 2 ^ 16 + c * 2 ^ 8 + d
unpack_u32 _ = 0

unfoldable pub to_bytes : ProtocolFrame → Result Bytes
to_bytes f = do
  size ← pack_u32 (length f.payload)
  ok (protocol_magic ++ (code f.frame_type ∷ (size ++ f.payload)))

-- the part of `from_bytes` after the frame type
unfoldable pub read_payload : Bytes → FrameType → ℕ → Result (ProtocolFrame × ℕ)
read_payload input kind payload_len =
    if ltb max_frame_size payload_len
    then err value_error
    else if ltb (length input) (9 + payload_len)
    then err value_error
    else ok
        (record { frame_type = kind; payload = slice input 9 (9 + payload_len) }, 9 + payload_len)

-- the frame, and the number of bytes that it took
unfoldable pub from_bytes : Bytes → Result (ProtocolFrame × ℕ)
unfolding read_payload
from_bytes input =
    if ltb (length input) 9
    then err value_error
    else if not (str_beq (take 4 input) protocol_magic)
    then err value_error
    else frame_type (get_or input 4 0) >>= λ kind.
        read_payload input kind (unpack_u32 (slice input 5 9))

unfoldable pub data_of : Bytes → ProtocolFrame
data_of payload = record { frame_type = data_frame; payload = payload }

unfoldable pub ping_frame : ProtocolFrame
ping_frame = record { frame_type = ping; payload = [] }

unfoldable pub pong_frame : ProtocolFrame
pong_frame = record { frame_type = pong; payload = [] }

unfoldable pub error_of : Str → ProtocolFrame
error_of message = record { frame_type = error; payload = encode message }

unfoldable pub close_of : Str → ProtocolFrame
close_of reason = record { frame_type = close; payload = encode reason }
