-- ===== src/Transport/Examples/Channel.antt =====
-- A broadcast channel, and a connection task that receives from it.
use tassh.Transport.Broadcast.{
  capacity, Received, value, missed, waits, Broadcast, ChannelEvent, broadcasts, receives,
  broadcasted, relay,
}
use tassh.Transport.Newest.{Thinned, lost}
use tassh.Transport.Lagging.{newest_arrives}
use tassh.Prelude.{
  ltb, drop, length, ◌-◌, if◌then◌else◌, ◌≤◌, ◌<◌, refl, List, ◌∷◌, ◌≡◌, ◌++◌, [], arith, some,
}
use tassh.Protocol.{Frame, new_png}
use tassh.Transport.{connection_closed}
use tassh.Transport.Serve.{serve_connection, payloads}
use tassh.Transport.Forward.{forward}
use tassh.Transport.Examples.{list_reader, whole}

-- The broadcast channel as the list of what was sent.
abbrev take_oldest : List Frame → Received × List Frame
take_oldest [] = (waits, [])
take_oldest (f ∷ fs) =
    let behind = length (f ∷ fs) - capacity in
    if ltb capacity (length (f ∷ fs)) then (missed behind, drop behind (f ∷ fs)) else (value f, fs)

take_oldest-empty :
    (q : List Frame) → q ≡ [] → ((take_oldest q).0 ≡ waits) × ((take_oldest q).1 ≡ [])
take_oldest-empty [] e = (refl, refl)
take_oldest-empty (f ∷ fs) e = absurd (cc e)

take_oldest-next :
    (q : List Frame) (f : Frame) (fs : List Frame)
    → q ≡ f ∷ fs
    → length q ≤ capacity
    → ((take_oldest q).0 ≡ value f) × ((take_oldest q).1 ≡ fs)
take_oldest-next [] f fs e h = absurd (cc e)
take_oldest-next (g ∷ gs) f fs e h = ground (arith, e, h)

take_oldest-behind :
    (q : List Frame)
    → capacity < length q
    → ((take_oldest q).0 ≡ missed (length q - capacity))
      × ((take_oldest q).1 ≡ drop (length q - capacity) q)
take_oldest-behind [] h = absurd (omega arith)
take_oldest-behind (g ∷ gs) h = ground (arith, h)

abbrev queue : Broadcast
queue = record {
  Receiver = List Frame;
  unread = λ q. q;
  send = λ f q. q ++ f ∷ [];
  recv = take_oldest;
  unread-send = λ f q. refl;
  recv_empty = take_oldest-empty;
  recv_next = take_oldest-next;
  recv_behind = take_oldest-behind;
}

-- Three images, of which the task receives one in between and the others at the end.
abbrev three_images : List ChannelEvent
three_images =
    broadcasts (new_png (1 ∷ []))
    ∷ receives whole
    ∷ broadcasts (new_png (2 ∷ []))
    ∷ broadcasts (new_png (3 ∷ []))
    ∷ receives whole
    ∷ receives whole
    ∷ receives whole
    ∷ []

three_received : (relay queue three_images []).1 ≡ []
unfolding relay
three_received = refl

newest_arrives_example :
    (fs : List Frame) × (serve_connection list_reader 4 (forward (relay queue three_images []).0)
      ≡ (payloads fs, some connection_closed))
    × Thinned fs (lost (relay queue three_images []).0) (broadcasted three_images)
unfolding new_png broadcasted
newest_arrives_example =
    newest_arrives queue list_reader three_images [] 4 (forward (relay queue three_images []).0)
      refl (omega arith, (refl, (omega arith, (omega arith, (refl, (refl, (refl, tt)))))))
      three_received refl refl (omega arith)
