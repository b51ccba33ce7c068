-- ===== src/Clipboard/Writer.antt =====
-- The life of the clipboard holders that `ClipboardWriter` of src/clipboard.rs starts.
use tassh.Clipboard.{ClipboardWriter, Attempt, Effect, killed, started, write}
use tassh.Prelude.{
  ℕ, refl, true, List, Option, [], Text, if◌then◌else◌, ◌++◌, ◌≡◌, All, some, ◌==◌, none, arith,
  ◌∙◌, ◌∷◌,
}

abbrev pub without : ℕ → List ℕ → List ℕ
without c [] = []
without c (x ∷ xs) = if x == c then without c xs else x ∷ without c xs

-- The children alive after some effects; a child's number is used once.
abbrev pub alive : List ℕ → List Effect → List ℕ
alive cs [] = cs
alive cs (killed c ∷ es) = alive (without c cs) es
alive cs (started command c ∷ es) = alive (c ∷ cs) es

abbrev pub held : Option ℕ → List ℕ
held none = []
held (some c) = c ∷ []

-- Writes one after the other, each with the value of $DISPLAY and what the system does.
pub write_all : List (Option Text × Attempt) → ClipboardWriter → ClipboardWriter × List Effect
write_all [] w = (w, [])
write_all ((display_var, a) ∷ rest) w =
    let (w', effects, result) = write display_var a w in
    let (last, more) = write_all rest w' in (last, effects ++ more)

-- The standard input of every child takes the image.
abbrev pub IsPiped : Option Text × Attempt → Type 0
IsPiped (display_var, a) = a.piped ≡ true

alive-append : (cs : List ℕ) (es fs : List Effect) → alive cs (es ++ fs) ≡ alive (alive cs es) fs
alive-append cs [] fs = refl
alive-append cs (killed c ∷ es) fs = alive-append (without c cs) es fs
alive-append cs (started command c ∷ es) fs = alive-append (c ∷ cs) es fs

one_write :
    (display_var : Option Text) (a : Attempt) (w : ClipboardWriter)
    → a.piped ≡ true
    → alive (held w.current_child) (write display_var a w).1
      ≡ held (write display_var a w).0.current_child
unfolding write
one_write display_var a w p = ground arith

-- After any writes whose children take the image, also where some could not be spawned, the only
-- holder alive is the writer's current child.
pub one_holder :
    (writes : List (Option Text × Attempt)) (w : ClipboardWriter)
    → All IsPiped writes
    → let (last, effects) = write_all writes w in
      alive (held w.current_child) effects ≡ held last.current_child
unfolding write_all
one_holder [] w u = refl
one_holder ((display_var, a) ∷ rest) w (p, u) =
    alive-append (held w.current_child) (write display_var a w).1 _
    ∙ rw (one_write display_var a w p) (one_holder rest (write display_var a w).0 u)
