-- ===== src/Transport.antt =====
-- src/transport.rs: sending and receiving frames over a byte stream.
-- The socket belongs to tokio. Its read half is the interface `Reader`: the bytes that will still
-- arrive, and the error on which the stream ends, as tokio documents `read_exact`. The result of a
-- write under the timeout is an argument.
use tassh.Prelude.{
  Result, List, ℕ, ok, ◌≤◌, err, get_or, length, map_err, ◌≡◌, ◌++◌, take, drop, ◌<◌, ◌>>=◌,
}
pub mod Stream
pub mod Serve
pub mod Forward
pub mod Relay
pub mod Injected
pub mod Broadcast
pub mod Newest
pub mod Lagging
pub mod Server
pub mod Serial
pub mod Branches
mod Examples
use tassh.Protocol.{Frame, FrameError, to_bytes, from_bytes, from_be_bytes, header_len}

pub data IoError : Type 0 where
  unexpected_eof : IoError
  other : ℕ → IoError

pub data TransportError : Type 0 where
  io : IoError → TransportError
  write_timeout : TransportError
  connection_closed : TransportError
  frame : FrameError → TransportError

pub record Reader : Type 1 where
  pub Half : Type 0
  pub read_exact : ℕ → Half → Result IoError (List ℕ) × Half
  pub pending : Half → List ℕ
  pub ends : Half → IoError
  -- enough bytes arrive: the buffer is filled, and the rest stays for the next read
  pub read_enough :
      (n : ℕ) (r : Half)
      → n ≤ length (pending r)
      → ((read_exact n r).0 ≡ ok (take n (pending r)))
        × (pending (read_exact n r).1 ≡ drop n (pending r))
        × (ends (read_exact n r).1 ≡ ends r)
  -- the stream ends before the buffer is full
  pub read_short : (n : ℕ) (r : Half) → length (pending r) < n → (read_exact n r).0 ≡ err (ends r)

-- Both reads report the end of the stream as a closed connection.
pub read_error : IoError → TransportError
read_error unexpected_eof = connection_closed
read_error (other kind) = io (other kind)

-- The outcome of `timeout(10 s, writer.write_all(..))`.
pub data WriteOutcome : Type 0 where
  written elapsed : WriteOutcome
  failed : IoError → WriteOutcome

write_result : WriteOutcome → Result TransportError (Unit {0})
write_result written = ok tt
write_result elapsed = err write_timeout
write_result (failed e) = err (io e)

-- `write` is what the writer does with the bytes.
unfoldable pub send_frame : (List ℕ → WriteOutcome) → Frame → Result TransportError (Unit {0})
unfolding write_result
send_frame write f = do bytes ← map_err frame (to_bytes f); write_result (write bytes)

-- The length field of a header.
pub payload_len : List ℕ → ℕ
payload_len header =
    from_be_bytes (get_or header 4 0) (get_or header 5 0) (get_or header 6 0) (get_or header 7 0)

module _ (R : Reader) where
  open R use {Half, read_exact}

  -- The payload is read once the header is there, and the two are decoded together.
  recv_payload : List ℕ → Result IoError (List ℕ) × Half → Result TransportError Frame × Half
  unfolding read_error
  recv_payload header (err e, r) = (err (read_error e), r)
  recv_payload header (ok payload, r) = (map_err frame (from_bytes (header ++ payload)), r)

  pub recv_header : Result IoError (List ℕ) × Half → Result TransportError Frame × Half
  unfolding recv_payload payload_len
  recv_header (err e, r) = (err (read_error e), r)
  recv_header (ok header, r) = recv_payload header (read_exact (payload_len header) r)

  unfoldable pub recv_frame : Half → Result TransportError Frame × Half
  unfolding recv_header
  recv_frame r = recv_header (read_exact header_len r)
