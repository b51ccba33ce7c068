-- ===== src/Client/Examples.antt =====
-- A client that is refused once, loses a connection at its second frame, and sends the rest.
use tassh.Protocol.{Frame, to_bytes}
use tassh.Transport.{written, elapsed}
use tassh.Client.{Round, refused, accepted, client}
use tassh.Client.Reconnect.{Sends, client-Sends}
use tassh.Prelude.{ℕ, ◌∷◌, List, [], ◌≡◌, refl}

abbrev png : ℕ → Frame
png n = record { frame_type = 1; payload = n ∷ [] }

abbrev three_rounds : List Round
three_rounds = refused 7 ∷ accepted (written ∷ elapsed ∷ []) 8 ∷ accepted (written ∷ []) 9 ∷ []

client_sent :
    (client 1 three_rounds (png 1 ∷ png 2 ∷ png 3 ∷ [])).sent ≡ (png 1 ∷ []) ∷ (png 3 ∷ []) ∷ []
unfolding client to_bytes
client_sent = refl

client-Sends_example :
    Sends
      (client 1 three_rounds (png 1 ∷ png 2 ∷ png 3 ∷ [])).sent
      (png 1 ∷ png 2 ∷ png 3 ∷ [])
      (client 1 three_rounds (png 1 ∷ png 2 ∷ png 3 ∷ [])).left
client-Sends_example = client-Sends 1 three_rounds (png 1 ∷ png 2 ∷ png 3 ∷ [])
