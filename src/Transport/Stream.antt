-- ===== src/Transport/Stream.antt =====
-- What `send_frame` writes, `recv_frame` reads: the two ends of src/transport.rs on one stream.
use native.Mathlib.Decide.{dec_le}
use tassh.Protocol.{Frame, to_bytes, from_bytes, from_be_bytes, header_len}
use tassh.Protocol.RoundTrip.{from_bytes-to_bytes}
use tassh.Protocol.Framing.{length-to_bytes}
use tassh.Transport.{
  Reader, IoError, unexpected_eof, connection_closed, recv_frame, recv_header, recv_payload,
  read_error, payload_len, frame,
}
use tassh.Prelude.{
  ℕ, List, Result, ◌≡◌, ok, length, drop, take, map_err, ◌++◌, arith, err, take-append,
  length-append, drop-append, take-append-drop, ◌<◌, take_inside, take-take, drop_inside,
  length-take_of_le, length-drop, ◌≢◌, ◌≤◌, ◌+◌, ap,
}

to_bytes_split :
    (f : Frame) (bytes : List ℕ)
    → to_bytes f ≡ ok bytes
    → (drop header_len bytes ≡ f.payload) × (payload_len (take header_len bytes) ≡ length f.payload)
unfolding to_bytes payload_len from_be_bytes
to_bytes_split f bytes h = ground arith

module _ (R : Reader) where
  open R use {Half, read_exact, pending, ends, read_enough, read_short}

  recv_payload_lem :
      (x : Result IoError (List ℕ) × Half) (header payload : List ℕ)
      → x.0 ≡ ok payload
      → (recv_payload R header x ≡ (map_err frame (from_bytes (header ++ payload)), x.1))
  unfolding recv_payload
  recv_payload_lem (ok p, r) header payload e = ground arith
  recv_payload_lem (err p, r) header payload e = cc

  pub recv_header_lem :
      (x : Result IoError (List ℕ) × Half) (header payload rest : List ℕ)
      → x.0 ≡ ok header
      → payload_len header ≡ length payload
      → pending x.1 ≡ payload ++ rest
      → ((recv_header R x).0 ≡ map_err frame (from_bytes (header ++ payload)))
        × (pending (recv_header R x).1 ≡ rest)
        × (ends (recv_header R x).1 ≡ ends x.1)
  unfolding recv_header
  recv_header_lem (err x, r) header payload rest e n p = cc
  recv_header_lem (ok x, r) header payload rest e n p = ground (
    arith,
    recv_payload_lem (read_exact (payload_len x) r) x payload,
    read_enough (payload_len x) r,
    take-append payload rest,
    drop-append payload rest,
    length-append payload rest,
  )

  -- One call of `recv_frame` on a stream that begins with an encoded frame returns that frame and
  -- takes exactly its bytes.
  pub recv_frame-to_bytes :
      (f : Frame) (bytes rest : List ℕ) (r : Half)
      → to_bytes f ≡ ok bytes
      → pending r ≡ bytes ++ rest
      → ((recv_frame R r).0 ≡ ok f)
        × (pending (recv_frame R r).1 ≡ rest)
        × (ends (recv_frame R r).1 ≡ ends r)
  unfolding recv_frame
  recv_frame-to_bytes f bytes rest r h p = ground (
    arith,
    recv_header_lem (read_exact header_len r) (take header_len bytes) f.payload rest,
    read_enough header_len r,
    take_inside header_len bytes rest,
    drop_inside header_len bytes rest,
    length-append bytes rest,
    length-to_bytes f bytes h,
    to_bytes_split f bytes h,
    take-append-drop header_len bytes,
    from_bytes-to_bytes f bytes h,
  )

  recv_payload_fails :
      (x : Result IoError (List ℕ) × Half) (header : List ℕ) {e : IoError} {f : Frame}
      → x.0 ≡ err e
      → (recv_payload R header x).0 ≢ ok f
  unfolding recv_payload
  recv_payload_fails (ok p, r) header e q = cc
  recv_payload_fails (err e', r) header e q = cc

  recv_payload_short :
      (x : Result IoError (List ℕ) × Half) (header : List ℕ)
      → x.0 ≡ err unexpected_eof
      → (recv_payload R header x).0 ≡ err connection_closed
  unfolding recv_payload read_error
  recv_payload_short (ok p, r) header e = cc
  recv_payload_short (err e', r) header e = ground arith

  recv_header_short :
      (x : Result IoError (List ℕ) × Half) (header : List ℕ)
      → x.0 ≡ ok header
      → length (pending x.1) < payload_len header
      → ends x.1 ≡ unexpected_eof
      → (recv_header R x).0 ≡ err connection_closed
  unfolding recv_header
  recv_header_short (err x, r) header e n p = cc
  recv_header_short (ok x, r) header e n p =
      ground
        (arith, recv_payload_short (read_exact (payload_len x) r) x, read_short (payload_len x) r)

  recv_payload_shrinks :
      (n : ℕ) (r : Half) (header : List ℕ) (f : Frame)
      → (recv_payload R header (read_exact n r)).0 ≡ ok f
      → length (pending (recv_payload R header (read_exact n r)).1) ≤ length (pending r)
  recv_payload_shrinks n r header f e = elim (dec_le n (length (pending r))) [
    | yes h ↦
        rw (recv_payload_lem (read_exact n r) header _ (read_enough n r h).0)
          (omega (arith, ap length (read_enough n r h).1, length-drop n (pending r)))
    | no h ↦ absurd (recv_payload_fails (read_exact n r) header (read_short n r (omega arith)) e)
  ]

  recv_header_fails :
      (x : Result IoError (List ℕ) × Half) {e : IoError} {f : Frame}
      → x.0 ≡ err e
      → (recv_header R x).0 ≢ ok f
  unfolding recv_header
  recv_header_fails (ok p, r) e q = cc
  recv_header_fails (err e', r) e q = cc

  recv_header_shrinks :
      (x : Result IoError (List ℕ) × Half) (header : List ℕ) (f : Frame)
      → x.0 ≡ ok header
      → (recv_header R x).0 ≡ ok f
      → length (pending (recv_header R x).1) ≤ length (pending x.1)
  unfolding recv_header
  recv_header_shrinks (ok p, r) header f h e = recv_payload_shrinks (payload_len p) r p f e
  recv_header_shrinks (err e', r) header f h e = cc

  recv_header_err :
      (x : Result IoError (List ℕ) × Half)
      → x.0 ≡ err unexpected_eof
      → (recv_header R x).0 ≡ err connection_closed
  unfolding recv_header read_error
  recv_header_err (ok p, r) e = cc
  recv_header_err (err e', r) e = ground arith

  -- A stream that ends, cleanly or inside an encoded frame, is reported as a closed connection.
  pub recv_frame-take :
      (f : Frame) (bytes : List ℕ) (n : ℕ) (r : Half)
      → to_bytes f ≡ ok bytes
      → n < length bytes
      → pending r ≡ take n bytes
      → ends r ≡ unexpected_eof
      → (recv_frame R r).0 ≡ err connection_closed
  unfolding recv_frame
  recv_frame-take f bytes n r h lt p e = ground (
    arith,
    recv_header_err (read_exact header_len r),
    recv_header_short (read_exact header_len r) (take header_len bytes),
    read_short header_len r,
    read_enough header_len r,
    take-take header_len n bytes,
    length-take_of_le n bytes,
    length-drop header_len (take n bytes),
    length-to_bytes f bytes h,
    to_bytes_split f bytes h,
  )

  -- A frame that was received took at least its header from the stream.
  pub recv_frame_shrinks :
      (r : Half) (f : Frame)
      → (recv_frame R r).0 ≡ ok f
      → length (pending (recv_frame R r).1) + header_len ≤ length (pending r)
  unfolding recv_frame
  recv_frame_shrinks r f e = elim (dec_le header_len (length (pending r))) [
    | yes h ↦ omega (
      arith,
      recv_header_shrinks (read_exact header_len r) _ f (read_enough header_len r h).0 e,
      ap length (read_enough header_len r h).1,
      length-drop header_len (pending r),
    )
    | no h ↦
        absurd
          (recv_header_fails (read_exact header_len r) (read_short header_len r (omega arith)) e)
  ]
