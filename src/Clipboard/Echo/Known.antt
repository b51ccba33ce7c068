-- ===== src/Clipboard/Echo/Known.antt =====
-- Whether a side of src/clipboard.rs has an image to send.
use tassh.Protocol.{new_png}
use tassh.Clipboard.{watch_loop, is_last}
use tassh.Clipboard.Echo.{Side, sends}
use tassh.Prelude.{
  ℕ, Text, List, some, false, [], ◌∷◌, ◌≡◌, ◌≢◌, text_eq, text_eq_refl, text_eq_iff, arith,
}

pub text_eq_differ : (s t : Text) → s ≢ t → text_eq s t ≡ false
text_eq_differ s t h = ground (arith, text_eq_iff s t)

module _ (content_hash : List ℕ → Text) where
  -- The side is to send its image.
  abbrev pub IsNew : Side → Type 0
  IsNew s = is_last (content_hash s.clipboard) s.last_hash ≡ false

  -- The image of the side is the last one that it recorded.
  abbrev pub IsKnown : Side → Type 0
  IsKnown s = s.last_hash ≡ some (content_hash s.clipboard)

  pub sends-IsNew : (s : Side) → IsNew s → sends content_hash s ≡ new_png s.clipboard ∷ []
  unfolding sends watch_loop
  sends-IsNew s h = rw h

  pub sends-IsKnown : (s : Side) → IsKnown s → sends content_hash s ≡ []
  unfolding sends watch_loop
  sends-IsKnown s h = ground (arith, h, text_eq_refl (content_hash s.clipboard))
