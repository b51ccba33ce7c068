-- ===== src/Client/Delays.antt =====
-- The delays of `client` in src/transport.rs.
use tassh.Client.{next_backoff, client, Round, Frame, refused, delay}
use tassh.Prelude.{ℕ, ◌≡◌, suc, if◌then◌else◌, zero, leb, ◌^◌, arith, refl, List, ◌∷◌, ap₂, ap, []}

unfoldable pub backoff_after : ℕ → ℕ
unfolding next_backoff
backoff_after zero = 1
backoff_after (suc n) = next_backoff (backoff_after n)

-- Behind n refusals in a row the backoff is 2^n seconds, and 30 from the fifth on.
pub backoff_after_lem : (n : ℕ) → backoff_after n ≡ (if leb (2 ^ n) 30 then 2 ^ n else 30)
unfolding backoff_after next_backoff
backoff_after_lem zero = refl
backoff_after_lem (suc n) = ground (arith, backoff_after_lem n)

abbrev pub refusals : List ℕ → List Round
refusals [] = []
refusals (random ∷ randoms) = refused random ∷ refusals randoms

-- The delays as the comment of the source has them: exponential from one second up to a cap of 30.
abbrev pub capped_delays : ℕ → List ℕ → List ℕ
capped_delays n [] = []
capped_delays n (random ∷ randoms) =
    delay (if leb (2 ^ n) 30 then 2 ^ n else 30) random ∷ capped_delays (suc n) randoms

delays_after :
    (n : ℕ) (randoms : List ℕ) (fs : List Frame)
    → (client (backoff_after n) (refusals randoms) fs).delays ≡ capped_delays n randoms
unfolding client backoff_after
delays_after n [] fs = refl
delays_after n (random ∷ randoms) fs =
    ap₂ ◌∷◌ (ap (λ b. delay b random) (backoff_after_lem n)) (delays_after (suc n) randoms fs)

-- While connections are refused, the client backs off for 1, 2, 4, 8 and 16 seconds and then for 30
-- each time, with the jitter of each round on top.
client-delays :
    (randoms : List ℕ) (fs : List Frame)
    → (client 1 (refusals randoms) fs).delays ≡ capped_delays 0 randoms
unfolding backoff_after
client-delays randoms fs = delays_after 0 randoms fs
