-- ===== src/Processor/Queue.antt =====
-- processor/queue.go: the queue in front of a processor. `push` is its two halves, the append
-- under the lock and the signal after it; `take` is one locked pass of `get`.
pub mod Contents
pub mod Drain
pub mod Wakeup
mod Examples
use voxigo.Prelude.{
  ℕ, Bool, true, false, Option, none, some, List, [], ◌∷◌, ◌++◌, if◌then◌else◌, keep_if, exists_in,
}
use voxigo.Frames.{Frame, Direction, is_start_frame, is_system_frame, is_uninterruptible_frame}

pub record Item : Type 0 where
  pub frame : Frame
  pub dir : Direction

-- `notify` is the channel of capacity one: whether a signal is in it.
pub record Queue : Type 0 where
  pub start : List Item
  pub system : List Item
  pub rest : List Item
  pub notify : Bool

abbrev pub new_queue : Queue
new_queue = record { start = []; system = []; rest = []; notify = false }

-- The tiers that `push` tells apart.
pub data Tier : Type 0 where
  start_tier system_tier other_tier : Tier

pub tier : Item → Tier
unfolding is_start_frame is_system_frame
tier it =
    if is_start_frame it.frame
    then start_tier
    else if is_system_frame it.frame
    then system_tier
    else other_tier

append_at : Tier → Item → Queue → Queue
append_at start_tier it q = record q { start = q.start ++ it ∷ [] }
append_at system_tier it q = record q { system = q.system ++ it ∷ [] }
append_at other_tier it q = record q { rest = q.rest ++ it ∷ [] }

pub append : Item → Queue → Queue
append it q = append_at (tier it) it q

-- The send with a default case: a signal already there is left.
pub signal : Queue → Queue
signal q = record q { notify = true }

pub push : Item → Queue → Queue
push it q = signal (append it q)

-- The locked switch of `get`, over the three lists.
take_from : List Item → List Item → List Item → Queue → Option (Item × Queue)
take_from (it ∷ s) y o q = some (it, record q { start = s })
take_from [] (it ∷ y) o q = some (it, record q { system = y })
take_from [] [] (it ∷ o) q = some (it, record q { rest = o })
take_from [] [] [] q = none

pub take : Queue → Option (Item × Queue)
take q = take_from q.start q.system q.rest q

pub has_frame : (Frame → Bool) → Queue → Bool
has_frame match q = exists_in (λ it. match it.frame) q.rest

pub reset : Queue → Queue
reset q = record q { rest = keep_if (λ it. is_uninterruptible_frame it.frame) q.rest }
