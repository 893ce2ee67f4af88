-- ===== src/Processor/Event.antt =====
-- processor/pause.go: the manual-reset event behind the pauses of a processor. A channel is its
-- number, and a wait that finds the event unset holds the channel it read under the lock.
pub mod Release
mod Examples
use voxigo.Prelude.{
  ℕ, suc, Bool, true, false, Option, none, some, List, [], ◌∷◌, exists_in, if◌then◌else◌, ◌==◌,
}

-- `closed` are the channels closed so far; channels from `fresh` on are not made yet.
pub record Event : Type 0 where
  pub ch : ℕ
  pub is_set : Bool
  pub closed : List ℕ
  pub fresh : ℕ

unfoldable pub new_event : Event
new_event = record { ch = 0; is_set = false; closed = []; fresh = 1 }

unfoldable pub set_event : Event → Event
set_event e = if e.is_set then e else record e { is_set = true; closed = e.ch ∷ e.closed }

unfoldable pub clear_event : Event → Event
clear_event e =
    if e.is_set then record e { is_set = false; ch = e.fresh; fresh = suc e.fresh } else e

-- The locked half of `Wait`: the channel to wait on, if it has to wait.
unfoldable pub wait_on : Event → Option ℕ
wait_on e = if e.is_set then none else some e.ch

abbrev pub is_closed : ℕ → Event → Bool
is_closed ch e = exists_in (λ c. c == ch) e.closed

pub data Act : Type 0 where
  sets clears : Act

unfoldable pub act : Act → Event → Event
unfolding set_event clear_event
act sets e = set_event e
act clears e = clear_event e

unfoldable pub acts : List Act → Event → Event
unfolding act
acts [] e = e
acts (a ∷ more) e = acts more (act a e)
