-- ===== src/Processor/Event/Release.antt =====
-- processor/pause.go: whom a set releases.
use voxigo.Prelude.{
  ℕ, suc, ◌<◌, ◌≤◌, ◌≡◌, refl, sym, ap, ◌∙◌, Bool, true, false, some, List, [], ◌∷◌, arith,
  exists_in, if◌then◌else◌, ==_iff, Bool-cases, inl, inr,
}
use voxigo.Processor.Event.{
  Event, new_event, set_event, clear_event, wait_on, is_closed, Act, sets, clears, act, acts,
}

abbrev pub is_sets : Act → Bool
is_sets sets = true
is_sets clears = false

abbrev pub any_set : List Act → Bool
any_set more = exists_in is_sets more

-- The channel in use is closed exactly when the event is set, and no later channel is closed.
record IsEvent (e : Event) : Type 0 where
  made : e.ch < e.fresh
  current : is_closed e.ch e ≡ e.is_set
  unmade : (c : ℕ) → e.fresh ≤ c → is_closed c e ≡ false

set_event-IsEvent : (e : Event) → IsEvent e → IsEvent (set_event e)
unfolding set_event
set_event-IsEvent e h = record {
  made = ground (arith, h.made);
  current = ground (arith, h.current, h.made, ==_iff e.ch e.ch);
  unmade = λ c l. ground (arith, h.unmade c, h.made);
}

clear_event-IsEvent : (e : Event) → IsEvent e → IsEvent (clear_event e)
unfolding clear_event
clear_event-IsEvent e h = record {
  made = ground (arith, h.made);
  current = ground (arith, h.current, h.unmade e.fresh);
  unmade = λ c l. ground (arith, h.unmade c, h.made);
}

act-IsEvent : (a : Act) (e : Event) → IsEvent e → IsEvent (act a e)
unfolding act
act-IsEvent sets e h = set_event-IsEvent e h
act-IsEvent clears e h = clear_event-IsEvent e h

acts-IsEvent : (more : List Act) (e : Event) → IsEvent e → IsEvent (acts more e)
unfolding acts
acts-IsEvent [] e h = h
acts-IsEvent (a ∷ more) e h = acts-IsEvent more (act a e) (act-IsEvent a e h)

-- A channel that is closed stays closed.
act-closed : (a : Act) (c : ℕ) (e : Event) → is_closed c e ≡ true → is_closed c (act a e) ≡ true
unfolding act set_event clear_event
act-closed sets c e h = ground arith
act-closed clears c e h = ground arith

acts-closed :
    (more : List Act) (c : ℕ) (e : Event) → is_closed c e ≡ true → is_closed c (acts more e) ≡ true
unfolding acts
acts-closed [] c e h = h
acts-closed (a ∷ more) c e h = acts-closed more c (act a e) (act-closed a c e h)

set_event-closed : (e : Event) → e.is_set ≡ false → is_closed e.ch (set_event e) ≡ true
unfolding set_event
set_event-closed e u = ground (arith, ==_iff e.ch e.ch)

clear_event-unset : (e : Event) → e.is_set ≡ false → clear_event e ≡ e
unfolding clear_event
clear_event-unset e u =
    ap (λ b. if b then record e { is_set = false; ch = e.fresh; fresh = suc e.fresh } else e) u

acts-unset :
    (more : List Act) (e : Event)
    → IsEvent e
    → e.is_set ≡ false
    → is_closed e.ch (acts more e) ≡ any_set more
unfolding acts act
acts-unset [] e h u = h.current ∙ u
acts-unset (sets ∷ more) e h u = acts-closed more e.ch (set_event e) (set_event-closed e u)
acts-unset (clears ∷ more) e h u =
    ap (λ d. is_closed e.ch (acts more d)) (clear_event-unset e u) ∙ acts-unset more e h u

new_event-IsEvent : IsEvent new_event
unfolding new_event
new_event-IsEvent = record { made = omega arith; current = refl; unmade = λ c l. refl }

-- A set releases everyone who waits, and nothing else does: whatever has happened to an event,
-- the channel that a wait takes from it is closed, after whatever happens next, exactly when a set
-- is among it, even one that a clear follows at once.
pub set_releases :
    (before more : List Act) (ch : ℕ)
    → wait_on (acts before new_event) ≡ some ch
    → is_closed ch (acts more (acts before new_event)) ≡ any_set more
unfolding wait_on
set_releases before more ch w =
    let e = acts before new_event in
    let sound = acts-IsEvent before new_event new_event-IsEvent in
    elim (Bool-cases e.is_set) [
      | inl b ↦ absurd (ground arith)
      | inr b ↦
          let same : e.ch ≡ ch = ground arith in
          ap (λ c. is_closed c (acts more e)) (sym same) ∙ acts-unset more e sound b
    ]
