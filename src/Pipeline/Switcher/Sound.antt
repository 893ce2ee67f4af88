-- ===== src/Pipeline/Switcher/Sound.antt =====
-- pipeline/switcher.go: what holds of a switcher whatever happens to it.
use voxigo.Prelude.{ℕ, ◌≡◌, Bool, true, Option}
use voxigo.Pipeline.Strategy.{Strategy, is_in}
use voxigo.Pipeline.Switcher.{
  Outgoing, Incoming, Switcher, is_usable, set_service_usable, push_frame, process_frame,
}

-- What holds of a switcher at all times: the active service is one of its services, and what was
-- last announced is what it reports.
record IsSound (s : Switcher) : Type 0 where
  member : is_in s.strategy.active s.strategy.services ≡ true
  announced : s.announced_usable ≡ is_usable s

-- A strategy's answer: the services stay, and the active one is among them.
abbrev Keeps : Strategy → Strategy × Option ℕ → Type 0
Keeps m r = (r.0.services ≡ m.services) × (is_in r.0.active r.0.services ≡ true)

-- All that happens to a switcher.
pub data Step (s : Switcher) : Switcher → Type 0 where
  processes : (i : Incoming) → Step s (process_frame i s)
  escapes : (o : Outgoing) → Step s (push_frame o s)
  moves : (p : ℕ) (v : Bool) → Step s (set_service_usable p v s)
