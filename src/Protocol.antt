-- ===== src/Protocol.antt =====
-- src/protocol.rs: the wire format of a frame.
-- Bytes are numbers below 256; a `u32` is written out in base 256.
pub mod RoundTrip
pub mod Framing
mod Examples
use tassh.Prelude.{
  ℕ, ◌+◌, ◌-◌, ◌*◌, ◌/◌, ◌%◌, ◌<◌, Bool, not, ◌||◌, List, [], ◌∷◌, ◌++◌, ltb, ◌==◌, if◌then◌else◌,
  length, drop, get_or, Result, ok, err,
}

-- MAGIC[0] and MAGIC[1]
abbrev pub magic_0 : ℕ
magic_0 = 0xc5

abbrev pub magic_1 : ℕ
magic_1 = 0x53

abbrev pub version : ℕ
version = 1

abbrev pub frame_type_png : ℕ
frame_type_png = 1

abbrev pub header_len : ℕ
header_len = 8

abbrev pub u32_max : ℕ
u32_max = 0xffff_ffff

pub data FrameError : Type 0 where
  invalid_magic : FrameError
  unsupported_version : ℕ → FrameError
  too_short : FrameError
  too_large : ℕ → FrameError
  length_mismatch : ℕ → ℕ → FrameError

pub data DisplayEnvironment : Type 0 where
  wayland x11 xvfb headless : DisplayEnvironment

pub record Frame : Type 0 where
  pub frame_type : ℕ
  pub payload : List ℕ

unfoldable pub new_png : List ℕ → Frame
new_png payload = record { frame_type = frame_type_png; payload = payload }

-- u32::to_be_bytes
unfoldable pub to_be_bytes : ℕ → List ℕ
to_be_bytes n = (n / 16777216 % 256) ∷ (n / 65536 % 256) ∷ (n / 256 % 256) ∷ (n % 256) ∷ []

-- u32::from_be_bytes
unfoldable pub from_be_bytes : ℕ → ℕ → ℕ → ℕ → ℕ
from_be_bytes a b c d = a * 16777216 + b * 65536 + c * 256 + d

unfoldable pub to_bytes : Frame → Result FrameError (List ℕ)
unfolding to_be_bytes
to_bytes f =
    let len = length f.payload in
    if ltb u32_max len
    then err (too_large len)
    else ok (magic_0 ∷ magic_1 ∷ version ∷ f.frame_type ∷ (to_be_bytes len ++ f.payload))

-- The indices are below `header_len`, so the default of `get_or` is never read.
unfoldable pub from_bytes : List ℕ → Result FrameError Frame
unfolding from_be_bytes
from_bytes bytes =
    let at = λ (i : ℕ). get_or bytes i 0 in
    if ltb (length bytes) header_len
    then err too_short
    else if not (at 0 == magic_0) || not (at 1 == magic_1)
    then err invalid_magic
    else if not (at 2 == version)
    then err (unsupported_version (at 2))
    else let expected = from_be_bytes (at 4) (at 5) (at 6) (at 7) in
      let available = length bytes - header_len in
      if not (available == expected)
      then err (length_mismatch expected available)
      else ok (record { frame_type = at 3; payload = drop header_len bytes })
