-- ===== src/Protocol/Examples.antt =====
-- Tests of src/protocol.rs, and its theorems at concrete frames.
use tassh.Protocol.{
  Frame, to_bytes, from_bytes, invalid_magic, unsupported_version, too_short, length_mismatch,
}
use tassh.Protocol.RoundTrip.{from_bytes-to_bytes, to_bytes-from_bytes}
use tassh.Protocol.Framing.{from_bytes_inexact}
use tassh.Prelude.{ℕ, refl, take, ◌∷◌, List, ◌≡◌, ◌++◌, [], ok, err, arith}

abbrev two_bytes : Frame
two_bytes = record { frame_type = 1; payload = 0x89 ∷ 0x50 ∷ [] }

abbrev encoded : List ℕ
encoded = 0xc5 ∷ 0x53 ∷ 1 ∷ 1 ∷ 0 ∷ 0 ∷ 0 ∷ 2 ∷ 0x89 ∷ 0x50 ∷ []

to_bytes_two : to_bytes two_bytes ≡ ok encoded
unfolding to_bytes
to_bytes_two = refl

from_bytes_two : from_bytes encoded ≡ ok two_bytes
unfolding from_bytes
from_bytes_two = refl

refused :
    (from_bytes (0xff ∷ 0xff ∷ 1 ∷ 0 ∷ 0 ∷ 0 ∷ 0 ∷ 0 ∷ []) ≡ err invalid_magic)
    × (from_bytes (0xc5 ∷ 0x53 ∷ 0xff ∷ 1 ∷ 0 ∷ 0 ∷ 0 ∷ 0 ∷ []) ≡ err (unsupported_version 0xff))
    × (from_bytes (0xc5 ∷ 0x53 ∷ 1 ∷ []) ≡ err too_short)
    × (from_bytes (0xc5 ∷ 0x53 ∷ 1 ∷ 1 ∷ 0 ∷ 0 ∷ 0 ∷ 100 ∷ 7 ∷ []) ≡ err (length_mismatch 100 1))
unfolding from_bytes
refused = (refl, refl, refl, refl)

from_bytes-to_bytes_example : from_bytes encoded ≡ ok two_bytes
from_bytes-to_bytes_example = from_bytes-to_bytes two_bytes encoded to_bytes_two

to_bytes-from_bytes_example : to_bytes two_bytes ≡ ok encoded
to_bytes-from_bytes_example = to_bytes-from_bytes encoded two_bytes (omega arith) from_bytes_two

from_bytes_inexact_example :
    (from_bytes (encoded ++ 0 ∷ []) ≡ err (length_mismatch 2 3))
    × (from_bytes (take 9 encoded) ≡ err (length_mismatch 2 1))
from_bytes_inexact_example =
    from_bytes_inexact two_bytes encoded (0 ∷ []) 9 to_bytes_two (cc) (omega arith)
