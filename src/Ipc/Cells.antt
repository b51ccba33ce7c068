-- ===== src/Ipc/Cells.antt =====
-- The interface of serde for responses at a small format: four numbers for each character of a hostname,
-- and four behind it for the other fields.
use tassh.Peer.{PeerInfo}
use tassh.Ipc.Answer.{ResponseJson}
use tassh.Prelude.{
  ℕ, Text, Bool, List, All, ◌++◌, ◌∷◌, ◌==◌, ◌≡◌, ◌+◌, ◌-◌, if◌then◌else◌, [], true, false, some,
  refl, arith, append-nil, ap, ◌∙◌,
}

abbrev bit : Bool → ℕ
bit true = 1
bit false = 0

abbrev name_cells : Text → Text → Text
name_cells [] s = s
name_cells (c ∷ name) s = 1 ∷ (c + 11) ∷ 0 ∷ 0 ∷ name_cells name s

abbrev cells : List PeerInfo → Text
cells [] = []
cells (p ∷ ps) =
    name_cells p.hostname
      (2 ∷ bit p.connected ∷ bit p.no_daemon ∷ (p.session_count + 11) ∷ cells ps)

-- The character is put before the hostname of the first peer.
abbrev put : ℕ → List PeerInfo → List PeerInfo
put c [] = []
put c (p ∷ ps) = record p { hostname = c ∷ p.hostname } ∷ ps

read_cells : Text → List PeerInfo
read_cells (t ∷ x ∷ y ∷ z ∷ s) =
    let rest = read_cells s in
    if t == 1
    then put (x - 11) rest
    else record { hostname = []; connected = x == 1; no_daemon = y == 1; session_count = z - 11 }
      ∷ rest
read_cells _ = []

read_cells-name_cells :
    (name s : Text) (p : PeerInfo) (ps : List PeerInfo)
    → read_cells (s ++ 10 ∷ []) ≡ p ∷ ps
    → read_cells (name_cells name s ++ 10 ∷ []) ≡ record p { hostname = name ++ p.hostname } ∷ ps
unfolding read_cells
read_cells-name_cells [] s p ps e = e
read_cells-name_cells (c ∷ name) s p ps e = ground (arith, read_cells-name_cells name s p ps e)

bit-test : (b : Bool) → (bit b == 1) ≡ b
bit-test true = refl
bit-test false = refl

read_cells-cells : (ps : List PeerInfo) → read_cells (cells ps ++ 10 ∷ []) ≡ ps
unfolding read_cells
read_cells-cells [] = refl
read_cells-cells (p ∷ ps) =
    let fields = 2 ∷ bit p.connected ∷ bit p.no_daemon ∷ (p.session_count + 11) ∷ cells ps in
    let behind : read_cells (fields ++ 10 ∷ []) ≡ record p { hostname = [] } ∷ ps =
      ground (arith, bit-test p.connected, bit-test p.no_daemon, read_cells-cells ps) in
    read_cells-name_cells p.hostname fields (record p { hostname = [] }) ps behind
    ∙ ap (λ name. record p { hostname = name } ∷ ps) (append-nil p.hostname)

name_cells-one_line :
    (name s : Text)
    → All (λ c. (c == 10) ≡ false) s
    → All (λ c. (c == 10) ≡ false) (name_cells name s)
name_cells-one_line [] s h = h
name_cells-one_line (c ∷ name) s h =
    (refl, (ground arith, (refl, (refl, name_cells-one_line name s h))))

bit-one_line : (b : Bool) → (bit b == 10) ≡ false
bit-one_line true = refl
bit-one_line false = refl

cells-one_line : (ps : List PeerInfo) → All (λ c. (c == 10) ≡ false) (cells ps)
cells-one_line [] = tt
cells-one_line (p ∷ ps) = name_cells-one_line p.hostname _ (
  refl,
  (bit-one_line p.connected, (bit-one_line p.no_daemon, (ground arith, cells-one_line ps))),
)

pub in_cells : ResponseJson
in_cells = record {
  to_string = λ ps. some (cells ps);
  from_str = λ s. some (read_cells s);
  reads_back = λ ps h. (cells ps, refl, cells-one_line ps, ap some (read_cells-cells ps));
}
