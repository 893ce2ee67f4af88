-- ===== src/Transport/FrameQueue.antt =====
-- transport/framequeue.go: the frames a sender has yet to pace out. `notify` is whether the wake-up
-- of the channel is pending.
pub mod Calls
mod Examples
use voxigo.Prelude.{
  ℕ, suc, ◌+◌, ◌-◌, Bool, true, false, Option, none, some, List, [], ◌∷◌, ◌++◌, if◌then◌else◌,
  length, keep_if, ltb,
}
use voxigo.Frames.{Frame, is_uninterruptible_frame}

pub record FrameQueue : Type 0 where
  pub items : List Frame
  pub uninterruptible : ℕ
  pub notify : Bool

unfoldable pub new_frame_queue : FrameQueue
new_frame_queue = record { items = []; uninterruptible = 0; notify = false }

unfoldable pub push : Frame → FrameQueue → FrameQueue
push f q = record {
  items = q.items ++ f ∷ [];
  uninterruptible = if is_uninterruptible_frame f then suc q.uninterruptible else q.uninterruptible;
  notify = true;
}

-- The front of the queue, with what the count of a frame leaves.
unfoldable pub take_from : List Frame → FrameQueue → FrameQueue × Option Frame
take_from [] q = (q, none)
take_from (f ∷ fs) q = (
  record q {
    items = fs;
    uninterruptible =
        if is_uninterruptible_frame f then q.uninterruptible - 1 else q.uninterruptible;
  },
  some f,
)

unfoldable pub try_get : FrameQueue → FrameQueue × Option Frame
unfolding take_from
try_get q = take_from q.items q

unfoldable pub has_uninterruptible : FrameQueue → Bool
has_uninterruptible q = ltb 0 q.uninterruptible

unfoldable pub reset : FrameQueue → FrameQueue
reset q =
    let kept = keep_if is_uninterruptible_frame q.items in
    record q { items = kept; uninterruptible = length kept }
