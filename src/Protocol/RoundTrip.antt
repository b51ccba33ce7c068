-- ===== src/Protocol/RoundTrip.antt =====
-- Encoding and decoding of src/protocol.rs are inverse to each other.
use tassh.Prelude.{ℕ, ◌<◌, ◌≡◌, List, [], ◌∷◌, arith, ok, All}
use tassh.Protocol.{Frame, to_bytes, from_bytes, to_be_bytes, from_be_bytes}

abbrev pub IsByte : ℕ → Type 0
IsByte b = b < 256

-- Decoding what `to_bytes` wrote gives the frame back.
pub from_bytes-to_bytes :
    (f : Frame) (bytes : List ℕ) → to_bytes f ≡ ok bytes → from_bytes bytes ≡ ok f
unfolding to_bytes from_bytes
from_bytes-to_bytes f bytes h = ground arith

to_be_bytes-from_be_bytes :
    (a b c d : ℕ)
    → a < 256
    → b < 256
    → c < 256
    → d < 256
    → to_be_bytes (from_be_bytes a b c d) ≡ a ∷ b ∷ c ∷ d ∷ []
unfolding to_be_bytes from_be_bytes
to_be_bytes-from_be_bytes a b c d ha hb hc hd = ground arith

-- What decodes is the encoding of the frame that it decodes to: no frame has two encodings.
pub to_bytes-from_bytes :
    (bytes : List ℕ) (f : Frame)
    → All IsByte bytes
    → from_bytes bytes ≡ ok f
    → to_bytes f ≡ ok bytes
unfolding to_bytes from_bytes
to_bytes-from_bytes (m0 ∷ m1 ∷ v ∷ t ∷ a ∷ b ∷ c ∷ d ∷ payload) f
      (_, (_, (_, (_, (ha, (hb, (hc, (hd, _)))))))) e =
    ground (arith, to_be_bytes-from_be_bytes a b c d ha hb hc hd)
to_bytes-from_bytes [] f h e = ground arith
to_bytes-from_bytes (_ ∷ []) f h e = ground arith
to_bytes-from_bytes (_ ∷ _ ∷ []) f h e = ground arith
to_bytes-from_bytes (_ ∷ _ ∷ _ ∷ []) f h e = ground arith
to_bytes-from_bytes (_ ∷ _ ∷ _ ∷ _ ∷ []) f h e = ground arith
to_bytes-from_bytes (_ ∷ _ ∷ _ ∷ _ ∷ _ ∷ []) f h e = ground arith
to_bytes-from_bytes (_ ∷ _ ∷ _ ∷ _ ∷ _ ∷ _ ∷ []) f h e = ground arith
to_bytes-from_bytes (_ ∷ _ ∷ _ ∷ _ ∷ _ ∷ _ ∷ _ ∷ []) f h e = ground arith
