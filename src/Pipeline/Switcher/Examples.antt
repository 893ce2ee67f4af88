-- ===== src/Pipeline/Switcher/Examples.antt =====
-- pipeline/switcher.go over three services.
use voxigo.Prelude.{
  ℕ, ◌≡◌, refl, ◌≤◌, Bool, true, false, not, some, [], ◌∷◌, ◌++◌, bytes, arith, length, ◌==◌,
}
use voxigo.Pipeline.Strategy.{
  failover_policy, Strategy, ErrorInfo, candidate_from, index_from, activate, failover,
  handle_error, set_active_if_available,
}
use voxigo.Pipeline.Switcher.{
  Switcher, handle_service_error, remember_inactive_update, consume_inactive_update,
}
use voxigo.Pipeline.Strategy.Failover.{first_usable, moved_to, failover_rotates}
use voxigo.Pipeline.Switcher.Updates.{remembers, consumes, acts, copies_are_consumed}
use voxigo.Pipeline.Switcher.Errors.{absorbs, service_errors_stop}

abbrev three : Strategy
three = record { policy = failover_policy; services = 1 ∷ 2 ∷ 3 ∷ []; active = 2; switched = [] }

-- The second of the three cannot work.
abbrev but_two : ℕ → Bool
but_two s = not (s == 2)

abbrev lost : ErrorInfo
lost = record { message = bytes "invalid key"; fatal = false; source = some 2 }

next_is_three : handle_error but_two lost three ≡ moved_to (some 3) three
unfolding handle_error failover candidate_from index_from activate set_active_if_available
next_is_three = refl

failover_rotates_example :
    handle_error but_two lost three ≡ moved_to (first_usable but_two ((3 ∷ []) ++ 1 ∷ [])) three
failover_rotates_example = failover_rotates but_two lost (1 ∷ []) (3 ∷ []) three refl refl refl refl

copies_are_consumed_example :
    (length (acts (remembers 8 ∷ consumes 8 ∷ []) (remember_inactive_update 7 [])) ≤ 64)
    × ((consume_inactive_update 7
          (acts (remembers 8 ∷ consumes 8 ∷ []) (remember_inactive_update 7 []))).1
        ≡ true)
copies_are_consumed_example =
    copies_are_consumed 7 [] (remembers 8 ∷ consumes 8 ∷ []) (omega arith) (omega arith) (refl, tt)

abbrev sample : Switcher
sample = record {
  strategy = three;
  usable = but_two;
  inactive_updates = [];
  announced_usable = true;
  next_id = 0;
  effects = [];
}

service_errors_stop_example : (handle_service_error lost sample).1 ≡ absorbs lost sample
service_errors_stop_example = service_errors_stop lost sample
