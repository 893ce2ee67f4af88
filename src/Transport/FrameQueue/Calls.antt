-- ===== src/Transport/FrameQueue/Calls.antt =====
-- transport/framequeue.go against a plain list of frames.
use voxigo.Prelude.{
  ℕ, suc, ◌≡◌, refl, ap, Bool, true, false, Option, none, some, List, [], ◌∷◌, ◌++◌, if◌then◌else◌,
  length, keep_if, exists_in, ltb, arith,
}
use voxigo.Frames.{Frame, is_uninterruptible_frame}
use voxigo.Transport.FrameQueue.{
  FrameQueue, new_frame_queue, push, try_get, has_uninterruptible, reset,
}

pub data Call : Type 0 where
  pushes : Frame → Call
  gets asks resets : Call

pub data Answer : Type 0 where
  got : Option Frame → Answer
  holds : Bool → Answer

-- The answers of the queue to the calls.
unfoldable pub answers : List Call → FrameQueue → List Answer
answers [] q = []
answers (pushes f ∷ cs) q = answers cs (push f q)
answers (gets ∷ cs) q = let r = try_get q in got r.1 ∷ answers cs r.0
answers (asks ∷ cs) q = holds (has_uninterruptible q) ∷ answers cs q
answers (resets ∷ cs) q = answers cs (reset q)

abbrev pub front : List Frame → Option Frame
front [] = none
front (f ∷ fs) = some f

abbrev pub behind : List Frame → List Frame
behind [] = []
behind (f ∷ fs) = fs

-- The answers of a list of frames that is searched at every question.
unfoldable pub list_answers : List Call → List Frame → List Answer
list_answers [] fs = []
list_answers (pushes f ∷ cs) fs = list_answers cs (fs ++ f ∷ [])
list_answers (gets ∷ cs) fs = got (front fs) ∷ list_answers cs (behind fs)
list_answers (asks ∷ cs) fs = holds (exists_in is_uninterruptible_frame fs) ∷ list_answers cs fs
list_answers (resets ∷ cs) fs = list_answers cs (keep_if is_uninterruptible_frame fs)

abbrev count : List Frame → ℕ
count fs = length (keep_if is_uninterruptible_frame fs)

abbrev IsCounted : FrameQueue → Type 0
IsCounted q = q.uninterruptible ≡ count q.items

count-push :
    (f : Frame) (fs : List Frame)
    → count (fs ++ f ∷ []) ≡ (if is_uninterruptible_frame f then suc (count fs) else count fs)
count-push f [] = ground arith
count-push f (g ∷ fs) = ground (arith, count-push f fs)

count-exists : (fs : List Frame) → ltb 0 (count fs) ≡ exists_in is_uninterruptible_frame fs
count-exists [] = refl
count-exists (f ∷ fs) = ground (arith, count-exists fs)

keep_if-twice : (fs : List Frame) → count (keep_if is_uninterruptible_frame fs) ≡ count fs
keep_if-twice [] = refl
keep_if-twice (f ∷ fs) = ground (arith, keep_if-twice fs)

answers-eq :
    (cs : List Call) (fs : List Frame) (n : ℕ) (w : Bool)
    → n ≡ count fs
    → answers cs (record { items = fs; uninterruptible = n; notify = w }) ≡ list_answers cs fs
unfolding answers list_answers push try_get has_uninterruptible reset
answers-eq [] fs n w h = refl
answers-eq (pushes f ∷ cs) fs n w h =
    answers-eq cs (fs ++ f ∷ []) _ true (ground (arith, count-push f fs))
answers-eq (gets ∷ cs) [] n w h = ap (λ rest. got none ∷ rest) (answers-eq cs [] n w h)
answers-eq (gets ∷ cs) (f ∷ fs) n w h =
    ap (λ rest. got (some f) ∷ rest) (answers-eq cs fs _ w (ground arith))
answers-eq (asks ∷ cs) fs n w h = ground (arith, answers-eq cs fs n w h, count-exists fs)
answers-eq (resets ∷ cs) fs n w h = answers-eq cs _ _ w (ground (arith, keep_if-twice fs))

-- The count is never wrong: whatever calls are made on a new queue, it answers as the list of its
-- frames would, which is searched for an uninterruptible frame at every question; frames come out
-- in the order they were pushed, and a reset keeps the uninterruptible ones, in order.
pub queue_answers_as_list : (cs : List Call) → answers cs new_frame_queue ≡ list_answers cs []
unfolding new_frame_queue
queue_answers_as_list cs = answers-eq cs [] 0 false refl
