-- ===== src/Transport/FrameQueue/Examples.antt =====
-- transport/framequeue.go on a short playout.
use voxigo.Prelude.{◌≡◌, refl, true, false, some, [], ◌∷◌}
use voxigo.Frames.{Frame, end_frame, bot_speaking, is_uninterruptible_frame}
use voxigo.Transport.FrameQueue.{new_frame_queue, push, try_get, has_uninterruptible, reset}
use voxigo.Transport.FrameQueue.Calls.{
  pushes, gets, asks, resets, got, holds, answers, list_answers, queue_answers_as_list,
}

abbrev speaks : Frame
speaks = record { id = 1; body = bot_speaking }

abbrev ends : Frame
ends = record { id = 2; body = end_frame }

-- An interruption drops the speech and keeps the end.
interrupted :
    answers (pushes speaks ∷ pushes ends ∷ resets ∷ asks ∷ gets ∷ asks ∷ []) new_frame_queue
    ≡ holds true ∷ got (some ends) ∷ holds false ∷ []
unfolding answers new_frame_queue push try_get has_uninterruptible reset is_uninterruptible_frame
interrupted = refl

queue_answers_as_list_example :
    answers (pushes ends ∷ asks ∷ []) new_frame_queue ≡ list_answers (pushes ends ∷ asks ∷ []) []
queue_answers_as_list_example = queue_answers_as_list (pushes ends ∷ asks ∷ [])
