-- ===== src/Clipboard/Echo.antt =====
-- Two daemons with sessions to each other, each of which watches the clipboard that it writes to, as
-- `run_daemon` of src/daemon.rs has it on a machine without a desktop. A clipboard gives back the image
-- that was written to it.
pub mod Known
pub mod Turns
pub mod Swap
pub mod AnyOrder
pub mod Fair
use tassh.Protocol.{Frame}
use tassh.Clipboard.{image, watch_loop}
use tassh.Prelude.{ℕ, zero, suc, Text, List, Option, some, true, [], ◌∷◌}

pub record Side : Type 0 where
  pub clipboard : List ℕ
  pub last_hash : Option Text

-- The frames are written in order, the last one stays.
unfoldable pub show : List Frame → Side → Side
show [] s = s
show (f ∷ fs) s = show fs (record s { clipboard = f.payload })

module _ (content_hash : List ℕ → Text) where
  unfoldable pub sends : Side → List Frame
  sends s = watch_loop content_hash s.last_hash (image s.clipboard true ∷ [])

  -- Where the hash is the last one already, recording it changes nothing.
  unfoldable pub recorded : Side → Side
  recorded s = record s { last_hash = some (content_hash s.clipboard) }
