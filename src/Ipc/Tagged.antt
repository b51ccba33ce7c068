-- ===== src/Ipc/Tagged.antt =====
-- The interface of serde at a small format: a tag, the numbers, and the text or bytes, each moved above
-- the line feed.
use tassh.Ipc.{IpcMessage, IsMessage, connect_to, disconnect_from, status, inject_frame, Json}
use tassh.Prelude.{
  ℕ, List, All, ◌++◌, ◌∷◌, ◌==◌, Option, ◌≡◌, ◌+◌, if◌then◌else◌, [], false, ◌-◌, arith, some, refl,
  none,
}

abbrev shift : List ℕ → List ℕ
shift [] = []
shift (c ∷ s) = (c + 11) ∷ shift s

unshift : List ℕ → List ℕ
unshift [] = []
unshift (c ∷ s) = let rest = unshift s in if c == 10 then [] else (c - 11) ∷ rest

unshift-shift : (s : List ℕ) → unshift (shift s ++ 10 ∷ []) ≡ s
unfolding unshift
unshift-shift [] = refl
unshift-shift (c ∷ s) = ground (arith, unshift-shift s)

shift_one_line : (s : List ℕ) → All (λ c. (c == 10) ≡ false) (shift s)
shift_one_line [] = tt
shift_one_line (c ∷ s) = (ground arith, shift_one_line s)

abbrev encode : IpcMessage → List ℕ
encode (connect_to h port pid) = 1 ∷ (port + 11) ∷ (pid + 11) ∷ shift h
encode (disconnect_from h pid) = 2 ∷ (pid + 11) ∷ shift h
encode status = 3 ∷ []
encode (inject_frame bytes) = 4 ∷ shift bytes

decode_connect : List ℕ → Option IpcMessage
unfolding unshift
decode_connect (port ∷ pid ∷ s) = some (connect_to (unshift s) (port - 11) (pid - 11))
decode_connect _ = none

decode_disconnect : List ℕ → Option IpcMessage
unfolding unshift
decode_disconnect (pid ∷ s) = some (disconnect_from (unshift s) (pid - 11))
decode_disconnect _ = none

decode : List ℕ → Option IpcMessage
unfolding unshift decode_connect decode_disconnect
decode [] = none
decode (tag ∷ s) =
    if tag == 1
    then decode_connect s
    else if tag == 2
    then decode_disconnect s
    else if tag == 3
    then some status
    else some (inject_frame (unshift s))

encode_one_line : (m : IpcMessage) → All (λ c. (c == 10) ≡ false) (encode m)
encode_one_line (connect_to h port pid) = (refl, (ground arith, (ground arith, shift_one_line h)))
encode_one_line (disconnect_from h pid) = (refl, (ground arith, shift_one_line h))
encode_one_line status = (refl, tt)
encode_one_line (inject_frame bytes) = (refl, shift_one_line bytes)

decode-encode : (m : IpcMessage) → IsMessage m → decode (encode m ++ 10 ∷ []) ≡ some m
unfolding decode decode_connect decode_disconnect
decode-encode (connect_to h port pid) _ = ground (arith, unshift-shift h)
decode-encode (disconnect_from h pid) _ = ground (arith, unshift-shift h)
decode-encode status _ = refl
decode-encode (inject_frame bytes) _ = ground (arith, unshift-shift bytes)

pub tagged : Json
tagged = record {
  to_vec = encode;
  from_str = decode;
  one_line = encode_one_line;
  reads_back = decode-encode;
}
