-- ===== src/Transport/Serve.antt =====
-- The loop over one accepted connection, in `server` of src/transport.rs and in `run_tcp_server` of
-- src/daemon.rs: each payload goes to the clipboard, and the first error ends the connection. A
-- failed clipboard write is logged and changes nothing here.
use tassh.Protocol.{Frame, to_bytes, FrameError}
use tassh.Transport.{Reader, unexpected_eof, TransportError, connection_closed, recv_frame}
use tassh.Transport.Stream.{recv_frame-to_bytes, recv_frame-take, recv_frame_shrinks}
use tassh.Prelude.{
  ℕ, refl, List, Result, Option, ◌≡◌, ◌∷◌, [], ok, none, ◌<◌, ◌>>=◌, ◌++◌, length, suc, take, err,
  some, zero, arith, append_assoc, ◌∙◌, ap, Result-cases, inl, inr,
}

-- The bytes of frames sent one after the other.
unfoldable pub encode_all : List Frame → Result FrameError (List ℕ)
encode_all [] = ok []
encode_all (f ∷ fs) = do bytes ← to_bytes f; rest ← encode_all fs; ok (bytes ++ rest)

unfoldable pub payloads : List Frame → List (List ℕ)
payloads [] = []
payloads (f ∷ fs) = f.payload ∷ payloads fs

pub encode_all-cons :
    (f : Frame) (fs : List Frame) (bytes : List ℕ)
    → encode_all (f ∷ fs) ≡ ok bytes
    → (b : List ℕ) × (rest : List ℕ) × (to_bytes f ≡ ok b)
      × (encode_all fs ≡ ok rest)
      × (bytes ≡ b ++ rest)
unfolding encode_all
encode_all-cons f fs bytes h = go (to_bytes f) (encode_all fs) refl refl h
  where
    go :
        (x y : Result FrameError (List ℕ))
        → to_bytes f ≡ x
        → encode_all fs ≡ y
        → (x >>= λ b. y >>= λ rest. ok (b ++ rest)) ≡ ok bytes
        → (b : List ℕ) × (rest : List ℕ) × (to_bytes f ≡ ok b)
          × (encode_all fs ≡ ok rest)
          × (bytes ≡ b ++ rest)
    go (ok b) (ok rest) p q e = (b, rest, p, q, ground arith)
    go (ok b) (err y) p q e = cc
    go (err x) y p q e = cc

module _ (R : Reader) where
  open R use {Half, read_exact, pending, ends, read_enough, read_short}

  -- The payloads written to the clipboard, and the error that ended the loop; `none` means that the
  -- fuel ran out.
  pub serve_connection : ℕ → Half → List (List ℕ) × Option TransportError
  serve_connection zero r = ([], none)
  serve_connection (suc fuel) r = elim (recv_frame R r).0 [
    | err e ↦ ([], some e)
    | ok f ↦ let (ps, e) = serve_connection fuel (recv_frame R r).1 in (f.payload ∷ ps, e)
  ]

  -- A stream of whole frames that ends inside a further frame, or at its start: all the whole
  -- frames reach the clipboard, in order, and the loop ends with a closed connection.
  pub serve_connection-encode_all :
      (fs : List Frame) (bytes : List ℕ) (g : Frame) (next : List ℕ) (n fuel : ℕ) (r : Half)
      → encode_all fs ≡ ok bytes
      → to_bytes g ≡ ok next
      → n < length next
      → pending r ≡ bytes ++ take n next
      → ends r ≡ unexpected_eof
      → length fs < fuel
      → serve_connection fuel r ≡ (payloads fs, some connection_closed)
  unfolding serve_connection encode_all payloads
  serve_connection-encode_all fs bytes g next n zero r hb hg hn hp he h = absurd (omega arith)
  serve_connection-encode_all [] bytes g next n (suc fuel) r hb hg hn hp he h =
      ground (arith, recv_frame-take R g next n r)
  serve_connection-encode_all (f ∷ fs) bytes g next n (suc fuel) r hb hg hn hp he h =
      let (b, rest, hf, hfs, split) = encode_all-cons f fs bytes hb in
      let whole =
        recv_frame-to_bytes R f b (rest ++ take n next) r hf (
          hp ∙ ap (λ (bs : List ℕ). bs ++ take n next) split ∙ append_assoc b rest (take n next)) in
      let more =
        serve_connection-encode_all fs rest g next n fuel (recv_frame R r).1 hfs hg hn whole.1
          (whole.2 ∙ he) (omega arith) in
      ground (arith, whole, more)

  -- Enough fuel is one more than the bytes that will arrive: then the loop ends by an error, on
  -- every stream, whatever it holds.
  pub serve_connection_ends :
      (fuel : ℕ) (r : Half)
      → length (pending r) < fuel
      → (e : TransportError) × ((serve_connection fuel r).1 ≡ some e)
  unfolding serve_connection
  serve_connection_ends zero r h = absurd (omega arith)
  serve_connection_ends (suc fuel) r h = elim (Result-cases (recv_frame R r).0) [
    | inl (f, e) ↦
        let (why, q) =
          serve_connection_ends fuel (recv_frame R r).1
            (omega (arith, recv_frame_shrinks R r f e)) in
        (why, rw (e, serve_connection) q)
    | inr (why, e) ↦ (why, rw (e, serve_connection))
  ]
