-- ===== src/Pipeline/Parallel.antt =====
-- pipeline/parallel.go: what leaves a parallel pipeline. The branches are goroutines: each call of
-- a branch's source or sink is a thread, a list of what it has left to do, and each task is one
-- pass of the lock or one push.
pub mod Once
pub mod Release
pub mod Calm
pub mod StartFirst
mod Examples
use voxigo.Prelude.{
  ℕ, zero, suc, ◌-◌, ◌≡◌, Bool, true, false, not, List, [], ◌∷◌, ◌++◌, if◌then◌else◌, exists_in,
  ◌==◌, ltb,
}
use voxigo.Frames.{Frame, Body, Direction, start_frame, end_frame, cancel_frame, is_start_frame}

pub record Sent : Type 0 where
  pub frame : Frame
  pub dir : Direction

pub data Task : Type 0 where
  -- the locked half of `emit`, of `sinkPush`, of `emitSynchronized`, and a round of `flushBuffered`
  emits sinks syncs : Sent → Task
  flushes : Task
  pushes : Sent → Task
  resumes : Task

-- `out` is what was pushed, the last frame first; `queued` the frames fanned out to the branches.
pub record Parallel : Type 0 where
  pub branches : ℕ
  pub seen : List ℕ
  pub counter : ℕ → ℕ
  pub syncing : Bool
  pub buffered : List Sent
  pub paused : Bool
  pub out : List Sent
  pub queued : List Sent
  pub threads : List (List Task)

unfoldable pub new_parallel : ℕ → Parallel
new_parallel n = record {
  branches = n;
  seen = [];
  counter = λ i. 0;
  syncing = false;
  buffered = [];
  paused = false;
  out = [];
  queued = [];
  threads = [];
}

abbrev is_lifecycle_body : Body → Bool
is_lifecycle_body start_frame = true
is_lifecycle_body end_frame = true
is_lifecycle_body cancel_frame = true
is_lifecycle_body _ = false

unfoldable pub is_lifecycle : Frame → Bool
is_lifecycle f = is_lifecycle_body f.body

abbrev pub is_seen : ℕ → List ℕ → Bool
is_seen id ids = exists_in (λ i. i == id) ids

abbrev pub set : ℕ → ℕ → (ℕ → ℕ) → ℕ → ℕ
set id n counter = λ i. if i == id then n else counter i

-- `ProcessFrame`.
unfoldable pub process_frame : Sent → Parallel → Parallel
unfolding is_lifecycle
process_frame x p =
    let armed =
      if is_lifecycle x.frame
      then record p { counter = set x.frame.id p.branches p.counter; syncing = true; paused = true }
      else p in
    record armed { queued = x ∷ armed.queued }

unfoldable pub exec_emit : Sent → Parallel → Parallel × List Task
exec_emit x p =
    let marked = record p { seen = x.frame.id ∷ p.seen } in
    if is_seen x.frame.id p.seen
    then (p, [])
    else if p.syncing
    then (record marked { buffered = p.buffered ++ x ∷ [] }, [])
    else (marked, pushes x ∷ [])

-- What the last branch in goes on to do.
unfoldable pub release : Sent → List Task
unfolding is_start_frame
release x =
    if is_start_frame x.frame
    then syncs x ∷ flushes ∷ resumes ∷ []
    else flushes ∷ syncs x ∷ resumes ∷ []

-- A branch reports a lifecycle frame: `counter[id]` less one, unless it is 0 already.
unfoldable pub exec_report : Sent → Parallel → Parallel × List Task
unfolding release
exec_report x p =
    let n = p.counter x.frame.id - 1 in
    if ltb 0 n
    then (record p { counter = set x.frame.id n p.counter }, [])
    else (record p { counter = set x.frame.id 0 p.counter }, release x)

unfoldable pub exec_sink : Sent → Parallel → Parallel × List Task
unfolding is_lifecycle exec_report
exec_sink x p = if not (is_lifecycle x.frame) then (p, emits x ∷ []) else exec_report x p

unfoldable pub exec_sync : Sent → Parallel → Parallel × List Task
exec_sync x p =
    if is_seen x.frame.id p.seen
    then (p, [])
    else (record p { seen = x.frame.id ∷ p.seen }, pushes x ∷ [])

abbrev pub flush_round : List Sent → Parallel → Parallel × List Task
flush_round [] p = (record p { syncing = false }, [])
flush_round (x ∷ xs) p = (record p { buffered = xs }, pushes x ∷ flushes ∷ [])

unfoldable pub exec : Task → Parallel → Parallel × List Task
unfolding exec_emit exec_sink exec_sync
exec (emits x) p = exec_emit x p
exec (sinks x) p = exec_sink x p
exec (syncs x) p = exec_sync x p
exec flushes p = flush_round p.buffered p
exec (pushes x) p = (record p { out = x ∷ p.out }, [])
exec resumes p = (record p { paused = false }, [])

-- A frame enters; a branch pushes one at its source or its sink; a thread goes on.
pub data Step (p : Parallel) : Parallel → Type 0 where
  enters : (x : Sent) → Step p (process_frame x p)
  source_emits : (x : Sent) → Step p (record p { threads = (emits x ∷ []) ∷ p.threads })
  sink_gets : (x : Sent) → Step p (record p { threads = (sinks x ∷ []) ∷ p.threads })
  runs :
      (before behind : List (List Task)) (t : Task) (rest : List Task)
      → p.threads ≡ before ++ (t ∷ rest) ∷ behind
      → Step p (record ((exec t p).0) { threads = before ++ ((exec t p).1 ++ rest) ∷ behind })
