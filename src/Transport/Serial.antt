-- ===== src/Transport/Serial.antt =====
-- What `server` of src/transport.rs writes to the clipboard when connection tasks send to it.
use tassh.Transport.{Reader, unexpected_eof, io, IoError}
use tassh.Transport.Serve.{encode_all, encode_all-cons, payloads}
use tassh.Transport.Forward.{
  Signal, IsCut, forward, delivered, forward-Framed, serve_connection-forward,
}
use tassh.Transport.Server.{Incoming, accepted, serve_all, server, resolve_address}
use tassh.Protocol.{Frame}
use tassh.Protocol.Framing.{length-to_bytes}
use tassh.Strings.Numbers.{to_string}
use tassh.Prelude.{
  append-nil, Text, Result, ok, codes, ◌++◌, Option, some, length-append, take, arith, ℕ, List, All,
  none, [], ◌∷◌, suc, length, ◌≡◌, ◌≤◌, refl,
}

length-encode_all :
    (fs : List Frame) (bytes : List ℕ) → encode_all fs ≡ ok bytes → length fs ≤ length bytes
length-encode_all [] bytes e = omega arith
length-encode_all (f ∷ fs) bytes e =
    let (b, rest, hf, hfs, split) = encode_all-cons f fs bytes e in
    rw split
      (omega (arith, length-append b rest, length-encode_all fs rest hfs, length-to_bytes f b hf))

length-delivered :
    (signals : List Signal)
    → All IsCut signals
    → length (delivered signals) ≤ length (forward signals)
length-delivered signals cuts =
    let (bytes, g, next, n, es, eg, below, split) = forward-Framed signals cuts in
    rw split (
      omega
        (arith, length-append bytes (take n next), length-encode_all (delivered signals) bytes es))

module _ (R : Reader) where
  open R use {Half, pending, ends}

  -- A connection with what its sender goes through.
  pub record Sender : Type 0 where
    pub signals : List Signal
    pub half : Half

  abbrev pub IsSender : Sender → Type 0
  IsSender s =
      All IsCut s.signals × (pending s.half ≡ forward s.signals) × (ends s.half ≡ unexpected_eof)

  abbrev pub arrivals : List Sender → List (Incoming R)
  arrivals [] = []
  arrivals (s ∷ senders) = accepted none s.half ∷ arrivals senders

  abbrev pub completed : List Sender → List (List (List ℕ))
  completed [] = []
  completed (s ∷ senders) = payloads (delivered s.signals) ∷ completed senders

  serve_all-senders :
      (senders : List Sender) (rest : List (Incoming R))
      → All IsSender senders
      → serve_all R (arrivals senders ++ rest)
        ≡ (completed senders ++ (serve_all R rest).0, (serve_all R rest).1)
  unfolding serve_all
  serve_all-senders [] rest h = refl
  serve_all-senders (s ∷ senders) rest ((cuts, p, e), h) =
      let one =
        serve_connection-forward R s.signals (suc (length (pending s.half))) s.half cuts p e
          (rw p (omega (arith, length-delivered s.signals cuts))) in
      cc (one, serve_all-senders senders rest h)

  -- A server that is bound writes, connection by connection, exactly the payloads of the frames whose
  -- write was completed, and waits for the next connection. The first stream on which keepalive cannot
  -- be set ends it, and no later connection is served.
  pub server-senders :
      (bind_addr : Text) (port : ℕ) (output : Result IoError Text) (bind : Text → Option IoError)
      (address : Text) (senders : List Sender) (e : IoError) (r : Half) (later : List (Incoming R))
      → resolve_address bind_addr output ≡ ok address
      → bind (address ++ codes ":" ++ to_string port) ≡ none
      → All IsSender senders
      → (server R bind_addr port output bind (arrivals senders) ≡ (completed senders, none))
        × (server R bind_addr port output bind (arrivals senders ++ accepted (some e) r ∷ later)
            ≡ (completed senders, some (io e)))
  unfolding server serve_all
  server-senders bind_addr port output bind address senders e r later found bound h = ground (
    arith,
    found,
    bound,
    serve_all-senders senders [] h,
    append-nil (arrivals senders),
    serve_all-senders senders (accepted (some e) r ∷ later) h,
    append-nil (completed senders),
  )
