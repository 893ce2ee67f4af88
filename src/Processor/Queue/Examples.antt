-- ===== src/Processor/Queue/Examples.antt =====
-- processor/queue.go at concrete frames: tests, and the theorems at inputs that exercise them.
use voxigo.Prelude.{ℕ, ◌≡◌, refl, true, List, [], ◌∷◌, bytes}
use voxigo.Frames.{
  Body, downstream, start_frame, end_frame, bot_started_speaking, transcription,
  is_uninterruptible_frame,
}
use voxigo.Processor.Queue.{
  Item, Queue, tier, push, take, take_from, reset, append, append_at, signal, new_queue, has_frame,
}
use voxigo.Processor.Queue.Contents.{
  contents, insert_by_tier, contents-push, Takes, take-Takes, new_queue-IsTiered, push-IsTiered,
}
use voxigo.Processor.Queue.Drain.{push_all, drain, by_tier, drain-reset}
use voxigo.Processor.Queue.Wakeup.{State, waiting}

abbrev item : ℕ → Body → Item
item i b = record { frame = record { id = i; body = b }; dir = downstream }

abbrev hello : Item
hello = item 1 (transcription (bytes "hello") true)

abbrev ending : Item
ending = item 2 end_frame

abbrev bot : Item
bot = item 3 bot_started_speaking

abbrev start : Item
start = item 4 start_frame

abbrev arrivals : List Item
arrivals = hello ∷ ending ∷ bot ∷ start ∷ []

tiers : by_tier arrivals ≡ start ∷ bot ∷ hello ∷ ending ∷ []
unfolding tier
tiers = refl

drained : drain 4 (push_all arrivals new_queue) ≡ start ∷ bot ∷ hello ∷ ending ∷ []
unfolding drain push_all push append append_at signal take take_from tier
drained = refl

contents-push_example :
    contents (push start (push hello new_queue))
    ≡ insert_by_tier start (contents (push hello new_queue))
contents-push_example =
    contents-push start (push hello new_queue) (push-IsTiered hello new_queue new_queue-IsTiered)

take-Takes_example : Takes (push hello new_queue) (take (push hello new_queue))
take-Takes_example = take-Takes (push hello new_queue)

abbrev full : Queue
full = record { start = []; system = bot ∷ []; rest = hello ∷ ending ∷ []; notify = true }

drain-reset_example : drain 2 (reset full) ≡ bot ∷ ending ∷ []
unfolding is_uninterruptible_frame
drain-reset_example = drain-reset full

finds_queued : has_frame (λ f. is_uninterruptible_frame f) full ≡ true
unfolding has_frame is_uninterruptible_frame
finds_queued = refl

-- The consumer went to wait, and a producer pushed.
abbrev stalled : State
stalled = record { queue = signal (append hello new_queue); pending = 0; consumer = waiting }
