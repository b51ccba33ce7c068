-- ===== src/Transport/Branches.antt =====
-- `recv_frame` of src/transport.rs on every stream.
use native.Mathlib.Decide.{dec_le}
use tassh.Protocol.{from_bytes, header_len}
use tassh.Transport.{
  Reader, IoError, recv_frame, recv_header, recv_payload, read_error, payload_len, frame,
}
use tassh.Transport.Stream.{recv_header_lem}
use tassh.Prelude.{
  ℕ, zero, suc, List, Result, ok, err, [], ◌∷◌, ◌++◌, ◌≡◌, ◌+◌, ◌<◌, take, drop, length, ltb,
  map_err, if◌then◌else◌, arith, refl, ap, sym, ◌∙◌, take-append-drop, length-take_of_le,
  length-drop,
}

-- A piece and the next one.
take_add : (m n k : ℕ) (xs : List ℕ) → k ≡ m + n → take m xs ++ take n (drop m xs) ≡ take k xs
take_add zero n k xs e = let same : k ≡ n = omega (arith, e) in rw same
take_add (suc m) n zero xs e = absurd (omega arith)
take_add (suc m) zero (suc k) [] e = refl
take_add (suc m) (suc n) (suc k) [] e = refl
take_add (suc m) n (suc k) (x ∷ xs) e = ap (◌∷◌ x) (take_add m n k xs (omega arith))

module _ (R : Reader) where
  open R use {Half, read_exact, pending, ends, read_enough, read_short}

  recv_payload_err :
      (x : Result IoError (List ℕ) × Half) (header : List ℕ) (e : IoError)
      → x.0 ≡ err e
      → (recv_payload R header x).0 ≡ err (read_error e)
  unfolding recv_payload
  recv_payload_err (ok p, r) header e h = cc
  recv_payload_err (err e', r) header e h = ground arith

  recv_header_err_lem :
      (x : Result IoError (List ℕ) × Half) (e : IoError)
      → x.0 ≡ err e
      → (recv_header R x).0 ≡ err (read_error e)
  unfolding recv_header
  recv_header_err_lem (ok p, r) e h = cc
  recv_header_err_lem (err e', r) e h = ground arith

  recv_header_cut :
      (x : Result IoError (List ℕ) × Half) (header : List ℕ)
      → x.0 ≡ ok header
      → length (pending x.1) < payload_len header
      → (recv_header R x).0 ≡ err (read_error (ends x.1))
  unfolding recv_header
  recv_header_cut (err x, r) header e n = cc
  recv_header_cut (ok x, r) header e n = ground (
    arith,
    recv_payload_err (read_exact (payload_len x) r) x (ends r),
    read_short (payload_len x) r,
  )

  -- The result depends on nothing but the bytes that will arrive and how the stream ends: while they are
  -- fewer than the header and the length in it call for, the end of the stream is reported, also where
  -- the header is none of this protocol; otherwise exactly so many bytes are decoded.
  pub recv_frame_lem :
      (r : Half)
      → let bytes = pending r in
        let len = header_len + payload_len (take header_len bytes) in
        (recv_frame R r).0 ≡ (
          if ltb (length bytes) len
          then err (read_error (ends r))
          else map_err frame (from_bytes (take len bytes)))
  unfolding recv_frame
  recv_frame_lem r =
      let bytes = pending r in
      let n = payload_len (take header_len bytes) in
      elim (dec_le header_len (length bytes)) [
        | no h ↦ ground (
          arith,
          recv_header_err_lem (read_exact header_len r) (ends r),
          read_short header_len r,
          h,
        )
        | yes h ↦
            let (first, after, same) = read_enough header_len r h in
            elim (dec_le n (length (drop header_len bytes))) [
              | no short ↦ ground (
                arith,
                recv_header_cut (read_exact header_len r) (take header_len bytes) first,
                after,
                same,
                short,
                length-drop header_len bytes,
              )
              | yes enough ↦ ground (
                arith,
                recv_header_lem R (read_exact header_len r) (take header_len bytes)
                    (take n (drop header_len bytes)) (drop n (drop header_len bytes)) first
                    (sym (length-take_of_le n (drop header_len bytes) enough))
                    (after ∙ sym (take-append-drop n (drop header_len bytes))),
                take_add header_len n (header_len + n) bytes refl,
                length-drop header_len bytes,
                h,
                enough,
              )
            ]
      ]
