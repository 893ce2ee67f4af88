-- ===== src/Pipeline/Parallel/StartFirst.antt =====
-- pipeline/parallel.go: a StartFrame that is released, and the frames that wait behind it.
use voxigo.Prelude.{◌≡◌, ◌⊎◌, true, false, List, [], ◌∷◌, ◌++◌}
use voxigo.Pipeline.Parallel.{
  Sent, Task, emits, sinks, flushes, pushes, resumes, Parallel, is_seen, release, Step, enters,
  source_emits, sink_gets, runs,
}
use voxigo.Pipeline.Parallel.Calm.{OneOf, IsCalmTask, IsCalm}

-- A task pushes at most one frame.
abbrev Grows : List Sent → List Sent → Type 0
Grows old out = (out ≡ old) ⊎ ((z : Sent) × (out ≡ z ∷ old))

module _ (x : Sent) (old : List Sent) where
  -- The rest of the release, after the frame is pushed and before.
  abbrev IsPushing : List Task → Type 0
  IsPushing k = k ≡ pushes x ∷ flushes ∷ resumes ∷ []

  abbrev pub IsReleasing : List Task → Type 0
  IsReleasing k = k ≡ release x

  -- The frame is out, and whatever came out since came after it; or nothing came out yet.
  abbrev IsPast : Parallel → Type 0
  IsPast p = (news : List Sent) × (p.out ≡ news ++ x ∷ old)

  data Waits (p : Parallel) : Type 0 where
    before_mark :
        is_seen x.frame.id p.seen ≡ false
        → OneOf IsReleasing (IsCalm x.frame.id) p.threads
        → Waits p
    after_mark : OneOf IsPushing (IsCalm x.frame.id) p.threads → Waits p

  abbrev Ordered : Parallel → Type 0
  Ordered p = IsPast p ⊎ ((p.out ≡ old) × (p.syncing ≡ true) × Waits p)

  -- The branches push other frames, none of them a lifecycle frame at a sink.
  abbrev pub IsCalmStep : {p q : Parallel} → Step p q → Type 0
  IsCalmStep (enters y) = Unit
  IsCalmStep (source_emits y) = IsCalmTask x.frame.id (emits y)
  IsCalmStep (sink_gets y) = IsCalmTask x.frame.id (sinks y)
  IsCalmStep (runs before behind t rest e) = Unit

  pub data CalmReach (p : Parallel) : Parallel → Type 0 where
    at_release : CalmReach p p
    and_then : {q r : Parallel} → CalmReach p q → (st : Step q r) → IsCalmStep st → CalmReach p r
