-- ===== src/Transport/Server.antt =====
-- src/transport.rs: `server`, which serves one connection after the other. The outcomes of `bind`,
-- with `local_addr`, `accept` and `apply_keepalive` are arguments.
use tassh.Strings.{trim}
use tassh.Strings.Numbers.{to_string}
use tassh.Transport.{Reader, IoError, TransportError, io}
use tassh.Transport.Serve.{serve_connection}
use tassh.Prelude.{
  ℕ, Text, List, Option, Result, ok, err, some, none, [], ◌∷◌, ◌++◌, suc, length, ◌>>=◌, text_eq,
  codes, if◌then◌else◌, map_err,
}

abbrev printed : Result IoError Text → Result TransportError Text
printed output = do text ← map_err io output; ok (trim text)

-- `output` is what `tailscale ip -4` prints.
unfoldable pub resolve_address : Text → Result IoError Text → Result TransportError Text
unfolding trim
resolve_address bind_addr output =
    if text_eq bind_addr (codes "auto") then printed output else ok bind_addr

module _ (R : Reader) where
  open R use {Half, pending, ends}

  -- What `accept` returns: an error, or a stream, with the error of `apply_keepalive` if it fails.
  pub data Incoming : Type 0 where
    refused : IoError → Incoming
    accepted : Option IoError → Half → Incoming

  abbrev connection : Half → List (List ℕ)
  connection r = (serve_connection R (suc (length (pending r))) r).0

  -- The payloads that are written to the clipboard, connection by connection, and the error that ended
  -- the server, `none` while it waits for the next connection.
  unfoldable pub serve_all : List Incoming → List (List (List ℕ)) × Option TransportError
  serve_all [] = ([], none)
  serve_all (refused e ∷ rest) = ([], some (io e))
  serve_all (accepted (some e) r ∷ rest) = ([], some (io e))
  serve_all (accepted none r ∷ rest) = let (shown, e) = serve_all rest in (connection r ∷ shown, e)

  unfoldable pub server :
      Text
      → ℕ
      → Result IoError Text
      → (Text → Option IoError)
      → List Incoming
      → List (List (List ℕ)) × Option TransportError
  unfolding serve_all resolve_address to_string
  server bind_addr port output bind incoming = elim (resolve_address bind_addr output) [
    | err e ↦ ([], some e)
    | ok address ↦ elim (bind (address ++ codes ":" ++ to_string port)) [
      | some e ↦ ([], some (io e))
      | none ↦ serve_all incoming
    ]
  ]
