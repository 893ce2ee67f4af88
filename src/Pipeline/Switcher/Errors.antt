-- ===== src/Pipeline/Switcher/Errors.antt =====
-- pipeline/switcher.go: what becomes of the errors of the services, and what holds of a switcher
-- whatever happens to it.
use voxigo.Prelude.{
  ℕ, ◌≡◌, refl, ap, inl, inr, Option-cases, Bool, true, false, not, ◌&&◌, Option, none, some, arith,
  ◌==◌, if◌then◌else◌, Bool-cases,
}
use voxigo.Pipeline.Strategy.{Strategy, ErrorInfo, is_in, failover, handle_error}
use voxigo.Pipeline.Switcher.{
  Switcher, answered, unanswered_error, or_unanswered, member_error, handle_service_error,
}

-- The errors that stop at the switcher: the non-fatal ones that a service held in reserve reports,
-- and those of the active service that leave it unable to work.
abbrev pub absorbs : ErrorInfo → Switcher → Bool
absorbs ef s = elim ef.source [
  | none ↦ false
  | some p ↦
      not ef.fatal
      && (if p == s.strategy.active then not (s.usable p) else is_in p s.strategy.services)
]

-- A service that can still work is no reason to switch.
handle_error-usable :
    (p : ℕ) (ef : ErrorInfo) (usable : ℕ → Bool) (m : Strategy)
    → ef.source ≡ some p
    → usable p ≡ true
    → handle_error usable ef m ≡ (m, none)
unfolding handle_error failover
handle_error-usable p ef usable m e u = ground arith

or_unanswered-usable :
    (p : ℕ) (ef : ErrorInfo) (s : Switcher) (r : Strategy × Option ℕ)
    → r.1 ≡ none
    → s.usable p ≡ true
    → (or_unanswered p ef (answered s r)).1 ≡ false
unfolding or_unanswered answered unanswered_error
or_unanswered-usable p ef s (m, none) e u = ground arith
or_unanswered-usable p ef s (m, some t) e u = ground arith

or_unanswered-failed :
    (p : ℕ) (ef : ErrorInfo) (s : Switcher) (r : Strategy × Option ℕ)
    → s.usable p ≡ false
    → (or_unanswered p ef (answered s r)).1 ≡ true
unfolding or_unanswered answered unanswered_error
or_unanswered-failed p ef s (m, none) u = ground arith
or_unanswered-failed p ef s (m, some t) u = refl

member_error-absorbs :
    (p : ℕ) (ef : ErrorInfo) (s : Switcher)
    → ef.source ≡ some p
    → (member_error (some p) ef s).1
      ≡ (if p == s.strategy.active then not (s.usable p) else is_in p s.strategy.services)
unfolding member_error
member_error-absorbs p ef s e = elim (Bool-cases (s.usable p)) [
  | inl u ↦
      let kept =
        or_unanswered-usable p ef s (handle_error s.usable ef s.strategy)
          (ap (λ r. r.1) (handle_error-usable p ef s.usable s.strategy e u)) u in
      ground arith
  | inr u ↦
      let gone = or_unanswered-failed p ef s (handle_error s.usable ef s.strategy) u in ground arith
]

-- Which errors of the services stop at the switcher, under either strategy: the non-fatal ones of
-- the members it is not using, and those of the active service that leave it unable to work. Fatal
-- errors, errors from elsewhere, and those the active service can carry on from travel on.
pub service_errors_stop :
    (ef : ErrorInfo) (s : Switcher) → (handle_service_error ef s).1 ≡ absorbs ef s
unfolding handle_service_error member_error
service_errors_stop ef s = elim (Option-cases ef.source) [
  | inl none_given ↦ ground arith
  | inr (p, e) ↦ let member = member_error-absorbs p ef s e in ground arith
]
