-- ===== src/Transport/Broadcast.antt =====
-- The broadcast channel of src/peer.rs between the clipboard watcher and a connection task of
-- src/daemon.rs. The channel belongs to tokio: one receiver of it is the interface `Broadcast`, with what
-- tokio documents of a channel that overwrites the oldest values when a receiver falls behind.
use tassh.Protocol.{Frame}
use tassh.Transport.Forward.{Write, Signal, received, lagged}
use tassh.Prelude.{ℕ, List, [], ◌∷◌, ◌++◌, ◌≡◌, ◌≤◌, ◌<◌, ◌-◌, length, drop}

-- broadcast::channel::<Arc<Frame>>(16)
abbrev pub capacity : ℕ
capacity = 16

pub data Received : Type 0 where
  value : Frame → Received
  missed : ℕ → Received
  -- there is nothing to receive yet
  waits : Received

pub record Broadcast : Type 1 where
  pub Receiver : Type 0
  -- the values that were sent and not yet received or reported as missed, the oldest first
  pub unread : Receiver → List Frame
  pub send : Frame → Receiver → Receiver
  pub recv : Receiver → Received × Receiver
  pub unread-send : (f : Frame) (r : Receiver) → unread (send f r) ≡ unread r ++ f ∷ []
  pub recv_empty : (r : Receiver) → unread r ≡ [] → ((recv r).0 ≡ waits) × (unread (recv r).1 ≡ [])
  pub recv_next :
      (r : Receiver) (f : Frame) (fs : List Frame)
      → unread r ≡ f ∷ fs
      → length (unread r) ≤ capacity
      → ((recv r).0 ≡ value f) × (unread (recv r).1 ≡ fs)
  pub recv_behind :
      (r : Receiver)
      → capacity < length (unread r)
      → ((recv r).0 ≡ missed (length (unread r) - capacity))
        × (unread (recv r).1 ≡ drop (length (unread r) - capacity) (unread r))

-- What happens on the channel: the daemon broadcasts a frame, or the task receives and writes a frame that
-- it got.
pub data ChannelEvent : Type 0 where
  broadcasts : Frame → ChannelEvent
  receives : Write → ChannelEvent

abbrev pub report : Received → Write → List Signal → List Signal
report (value f) w rest = received f w ∷ rest
report (missed n) w rest = lagged n ∷ rest
report waits w rest = rest

unfoldable pub broadcasted : List ChannelEvent → List Frame
broadcasted [] = []
broadcasted (broadcasts f ∷ as') = f ∷ broadcasted as'
broadcasted (receives w ∷ as') = broadcasted as'

module _ (B : Broadcast) where
  open B use {Receiver, send, recv}

  -- What the task is reported, and the receiver behind it.
  unfoldable pub relay : List ChannelEvent → Receiver → List Signal × Receiver
  relay [] r = ([], r)
  relay (broadcasts f ∷ as') r = relay as' (send f r)
  relay (receives w ∷ as') r =
      let (signals, last) = relay as' (recv r).1 in (report (recv r).0 w signals, last)
