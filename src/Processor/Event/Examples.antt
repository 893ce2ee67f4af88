-- ===== src/Processor/Event/Examples.antt =====
-- processor/pause.go: a set that a clear follows at once still releases who waited.
use voxigo.Prelude.{◌≡◌, refl, true, [], ◌∷◌}
use voxigo.Processor.Event.{
  new_event, set_event, clear_event, wait_on, is_closed, sets, clears, act, acts,
}
use voxigo.Processor.Event.Release.{any_set, set_releases}

pulse : is_closed 1 (acts (sets ∷ clears ∷ []) (acts (sets ∷ clears ∷ []) new_event)) ≡ true
unfolding acts act set_event clear_event new_event
pulse = refl

set_releases_example :
    is_closed 1 (acts (sets ∷ clears ∷ []) (acts (sets ∷ clears ∷ []) new_event))
    ≡ any_set (sets ∷ clears ∷ [])
unfolding acts act set_event clear_event new_event wait_on
set_releases_example = set_releases (sets ∷ clears ∷ []) (sets ∷ clears ∷ []) 1 refl
