-- ===== src/Clipboard/Watch.antt =====
-- What the watcher of src/clipboard.rs forwards.
use tassh.Protocol.{Frame, new_png}
use tassh.Clipboard.{Poll, image, no_image, failed, is_last, watch_loop, watch_from}
use tassh.Prelude.{
  ok-injective, subst, sym, All-mono, text_eq_refl, refl, true, false, inl, inr, Text, Bool-cases,
  ℕ, List, Option, ◌≡◌, Bool, some, All, ok, if◌then◌else◌, ◌||◌, arith, All-mono, map_option, [],
  ◌∷◌,
}

module _ (content_hash : List ℕ → Text) where
  -- Each frame differs by its hash from the frame before it, and the first from the given hash.
  abbrev pub Changes : Option Text → List Frame → Type 0
  Changes last [] = Unit
  Changes last (f ∷ fs) =
      (is_last (content_hash f.payload) last ≡ false) × Changes (some (content_hash f.payload)) fs

  watch_loop-Changes :
      (last : Option Text) (polls : List Poll) → Changes last (watch_loop content_hash last polls)
  unfolding watch_loop new_png
  watch_loop-Changes last [] = tt
  watch_loop-Changes last (no_image ∷ polls) = watch_loop-Changes last polls
  watch_loop-Changes last (failed ∷ polls) = watch_loop-Changes last polls
  watch_loop-Changes last (image png taken ∷ polls) =
      choose (is_last (content_hash png) last) taken refl (watch_loop-Changes last polls)
        (watch_loop-Changes (some (content_hash png)) polls)
    where
      choose :
          (same taken' : Bool)
          → is_last (content_hash png) last ≡ same
          → Changes last (watch_loop content_hash last polls)
          → Changes
              (some (content_hash png))
              (watch_loop content_hash (some (content_hash png)) polls)
          → Changes last (
              if same
              then watch_loop content_hash last polls
              else if taken'
              then new_png png ∷ watch_loop content_hash (some (content_hash png)) polls
              else [])
      choose true taken' e skip sent = skip
      choose false true e skip sent = (e, sent)
      choose false false e skip sent = tt

  -- A hash is the last one recorded, or that of a frame that is sent.
  abbrev pub knows : Option Text → List Frame → Text → Bool
  knows last [] h = is_last h last
  knows last (f ∷ fs) h = is_last h last || knows (some (content_hash f.payload)) fs h

  abbrev pub Forwarded : Option Text → List Frame → Poll → Type 0
  Forwarded last sent (image png taken) = knows last sent (content_hash png) ≡ true
  Forwarded last sent _ = Unit

  abbrev pub IsTaken : Poll → Type 0
  IsTaken (image png taken) = taken ≡ true
  IsTaken _ = Unit

  knows_later :
      (last : Option Text) (f : Frame) (fs : List Frame) (poll : Poll)
      → Forwarded (some (content_hash f.payload)) fs poll
      → Forwarded last (f ∷ fs) poll
  knows_later last f fs (image png taken) h = ground arith
  knows_later last f fs no_image h = tt
  knows_later last f fs failed h = tt

  watch_loop_same :
      (last : Option Text) (png : List ℕ) (taken : Bool) (polls : List Poll)
      → is_last (content_hash png) last ≡ true
      → watch_loop content_hash last (image png taken ∷ polls) ≡ watch_loop content_hash last polls
  unfolding watch_loop
  watch_loop_same last png taken polls e = rw e

  watch_loop_new :
      (last : Option Text) (png : List ℕ) (taken : Bool) (polls : List Poll)
      → is_last (content_hash png) last ≡ false
      → taken ≡ true
      → watch_loop content_hash last (image png taken ∷ polls)
        ≡ new_png png ∷ watch_loop content_hash (some (content_hash png)) polls
  unfolding watch_loop
  watch_loop_new last png taken polls e t = rw (e, t)

  knows_now :
      (last : Option Text) (h : Text)
      → is_last h last ≡ true
      → (sent : List Frame) → knows last sent h ≡ true
  knows_now last h e [] = e
  knows_now last h e (f ∷ fs) = rw e

  knows_next :
      (last : Option Text) (h : Text) (f : Frame) (fs : List Frame)
      → content_hash f.payload ≡ h
      → knows last (f ∷ fs) h ≡ true
  knows_next last h f fs e =
      ground (arith, knows_now (some (content_hash f.payload)) h (rw e (text_eq_refl h)) fs)

  watch_loop-Forwarded :
      (last : Option Text) (polls : List Poll)
      → All IsTaken polls
      → All (Forwarded last (watch_loop content_hash last polls)) polls
  unfolding watch_loop new_png
  watch_loop-Forwarded last [] u = tt
  watch_loop-Forwarded last (no_image ∷ polls) (_, u) = (tt, watch_loop-Forwarded last polls u)
  watch_loop-Forwarded last (failed ∷ polls) (_, u) = (tt, watch_loop-Forwarded last polls u)
  watch_loop-Forwarded last (image png taken ∷ polls) (t, u) =
      elim (Bool-cases (is_last (content_hash png) last)) [
        | inl e ↦
            subst (λ sent. All (Forwarded last sent) (image png taken ∷ polls))
              (sym (watch_loop_same last png taken polls e))
              (
                knows_now last (content_hash png) e (watch_loop content_hash last polls),
                watch_loop-Forwarded last polls u,
              )
        | inr e ↦
            subst (λ sent. All (Forwarded last sent) (image png taken ∷ polls))
              (sym (watch_loop_new last png taken polls e t))
              (
                knows_next last (content_hash png) (new_png png)
                    (watch_loop content_hash (some (content_hash png)) polls)
                    (unfold new_png in refl),
                All-mono _ _
                    (knows_later last (new_png png)
                      (watch_loop content_hash (some (content_hash png)) polls))
                    polls (watch_loop-Forwarded (some (content_hash png)) polls u),
              )
      ]

  -- Whatever is polled, each frame that `watch_clipboard_with_command` sends differs by its hash from
  -- the frame before it, and the first from the image that was there at the start.
  pub watch_from-Changes :
      (startup : Option (List ℕ)) (polls : List Poll) (sent : List Frame)
      → watch_from content_hash (ok startup) polls ≡ ok sent
      → Changes (map_option content_hash startup) sent
  unfolding watch_from
  watch_from-Changes startup polls sent e =
      subst (Changes (map_option content_hash startup)) (ok-injective e)
        (watch_loop-Changes (map_option content_hash startup) polls)

  -- While the channel takes every frame, each image that is polled has the hash of the image at the
  -- start or of a frame that was sent.
  pub watch_from-Forwarded :
      (startup : Option (List ℕ)) (polls : List Poll) (sent : List Frame)
      → All IsTaken polls
      → watch_from content_hash (ok startup) polls ≡ ok sent
      → All (Forwarded (map_option content_hash startup) sent) polls
  unfolding watch_from
  watch_from-Forwarded startup polls sent u e =
      subst (λ fs. All (Forwarded (map_option content_hash startup) fs) polls) (ok-injective e)
        (watch_loop-Forwarded (map_option content_hash startup) polls u)
