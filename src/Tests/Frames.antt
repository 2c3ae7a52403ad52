-- ===== src/Tests/Frames.antt =====
-- Frames, at the limit and beyond it.
use blockchain_messaging_pro.Common.{◌≡◌, ◌≤◌, refl, [], ◌∷◌, ◌++◌, Bytes, ok, arith, length, take}
use blockchain_messaging_pro.Frame.{
  frame_type, unpack_u32, ProtocolFrame, ping, to_bytes, from_bytes,
}
use blockchain_messaging_pro.Frame.RoundTrip.{from_bytes-to_bytes, to_bytes-from_bytes}

abbrev two_bytes : ProtocolFrame
two_bytes = record { frame_type = ping; payload = 7 ∷ 8 ∷ [] }

from_bytes-to_bytes_example :
    (bytes : Bytes) × (to_bytes two_bytes ≡ ok bytes)
    × (from_bytes (bytes ++ (1 ∷ 2 ∷ [])) ≡ ok (two_bytes, length bytes))
from_bytes-to_bytes_example = from_bytes-to_bytes two_bytes (1 ∷ 2 ∷ []) (omega arith)

abbrev input : Bytes
input = 66 ∷ 77 ∷ 80 ∷ 1 ∷ 4 ∷ 0 ∷ 0 ∷ 0 ∷ 2 ∷ 7 ∷ 8 ∷ 9 ∷ []

accepted : from_bytes input ≡ ok (two_bytes, 11)
unfolding from_bytes frame_type unpack_u32
accepted = refl

to_bytes-from_bytes_example : (11 ≤ length input) × (to_bytes two_bytes ≡ ok (take 11 input))
to_bytes-from_bytes_example =
    to_bytes-from_bytes input two_bytes 11
      (
        omega arith,
        (
          omega arith,
          (
            omega arith,
            (
              omega arith,
              (
                omega arith,
                (
                  omega arith,
                  (
                    omega arith,
                    (omega arith, (omega arith, (omega arith, (omega arith, (omega arith, tt))))),
                  ),
                ),
              ),
            ),
          ),
        ),
      )
      accepted
