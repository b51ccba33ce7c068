-- ===== src/Protocol/Framing.antt =====
-- Where one encoded frame ends: what `from_bytes` of src/protocol.rs says of a buffer that holds
-- less than a frame, or more.
use tassh.Prelude.{
  ℕ, ◌+◌, ◌<◌, ◌≤◌, ◌≡◌, ◌≢◌, ◌⊎◌, refl, List, [], ◌∷◌, ◌++◌, arith, length, ok, err, length-append,
  take, if◌then◌else◌, ltb, ◌-◌, suc, length-take_of_le, zero,
}
use tassh.Protocol.{
  Frame, to_bytes, from_bytes, header_len, length_mismatch, too_large, too_short, u32_max,
}

-- `to_bytes` fails exactly on a payload above the `u32` range, and else adds a header of 8 bytes.
pub to_bytes-length :
    (f : Frame)
    → ((u32_max < length f.payload) × (to_bytes f ≡ err (too_large (length f.payload))))
      ⊎ ((length f.payload ≤ u32_max)
          × (bytes : List ℕ) × (to_bytes f ≡ ok bytes)
          × (length bytes ≡ header_len + length f.payload))
unfolding to_bytes
to_bytes-length f = ground arith

pub length-to_bytes :
    (f : Frame) (bytes : List ℕ)
    → to_bytes f ≡ ok bytes
    → length bytes ≡ header_len + length f.payload
unfolding to_bytes
length-to_bytes f bytes h = ground arith

-- An encoded frame with bytes behind it is refused, and the error names both lengths.
pub from_bytes-append :
    (f : Frame) (bytes extra : List ℕ)
    → to_bytes f ≡ ok bytes
    → extra ≢ []
    → from_bytes (bytes ++ extra)
      ≡ err (length_mismatch (length f.payload) (length f.payload + length extra))
unfolding to_bytes from_bytes
from_bytes-append f bytes [] h ne = absurd (ne refl)
from_bytes-append f bytes (x ∷ extra) h ne = ground (arith, length-append f.payload (x ∷ extra))

-- Each proper prefix of an encoded frame is refused: as too short while the header is cut, and
-- after that with the length that the header announces and the length that is there.
pub from_bytes-take :
    (f : Frame) (bytes : List ℕ) (n : ℕ)
    → to_bytes f ≡ ok bytes
    → n < length bytes
    → from_bytes (take n bytes) ≡ (
        if ltb n header_len
        then err too_short
        else err (length_mismatch (length f.payload) (n - header_len)))
unfolding to_bytes from_bytes
from_bytes-take f bytes zero e h = ground arith
from_bytes-take f bytes (suc zero) e h = ground arith
from_bytes-take f bytes (suc (suc zero)) e h = ground arith
from_bytes-take f bytes (suc (suc (suc zero))) e h = ground arith
from_bytes-take f bytes (suc (suc (suc (suc zero)))) e h = ground arith
from_bytes-take f bytes (suc (suc (suc (suc (suc zero))))) e h = ground arith
from_bytes-take f bytes (suc (suc (suc (suc (suc (suc zero)))))) e h = ground arith
from_bytes-take f bytes (suc (suc (suc (suc (suc (suc (suc zero))))))) e h = ground arith
from_bytes-take f bytes (suc (suc (suc (suc (suc (suc (suc (suc n)))))))) e h =
    ground (arith, length-take_of_le n f.payload)

-- An encoded frame that is cut or has bytes behind it does not decode. With bytes behind it the error names
-- both lengths; a proper prefix is too short while the header is cut, and after that the error names the
-- length that the header announces and the length that is there.
pub from_bytes_inexact :
    (f : Frame) (bytes extra : List ℕ) (n : ℕ)
    → to_bytes f ≡ ok bytes
    → extra ≢ []
    → n < length bytes
    → (from_bytes (bytes ++ extra)
        ≡ err (length_mismatch (length f.payload) (length f.payload + length extra)))
      × (from_bytes (take n bytes) ≡ (
          if ltb n header_len
          then err too_short
          else err (length_mismatch (length f.payload) (n - header_len))))
from_bytes_inexact f bytes extra n h ne lt =
    (from_bytes-append f bytes extra h ne, from_bytes-take f bytes n h lt)
