-- ===== src/Pipeline/Switcher.antt =====
-- pipeline/switcher.go: one of several services in use at a time. A processor is its identity;
-- `usable` is the reading of each one's `Usable`, and the frame that goes out through `PushFrame`
-- is told by the cases of its switch.
pub mod Updates
pub mod Errors
pub mod Sound
mod Examples
use voxigo.Prelude.{
  ℕ, zero, suc, ◌+◌, ◌%◌, ◌-◌, Bool, true, false, not, Option, none, some, List, [], ◌∷◌, ◌++◌,
  if◌then◌else◌, exists_in, keep_if, length, get_elem?, drop, ◌==◌, Text, ltb,
}
use voxigo.Pipeline.Strategy.{
  Policy, Strategy, ErrorInfo, new_strategy, is_in, set_active_if_available, handle_error,
}

pub record Update : Type 0 where
  pub id : ℕ
  pub service : Option ℕ
  pub reach_inactive_services : Bool

-- What `PushFrame` tells apart: a metadata request with its target, metadata with the service that
-- sent it, an update, an error, and the rest.
pub data Outgoing : Type 0 where
  metadata_request metadata : ℕ → Outgoing
  settings_update : Update → Outgoing
  error_report : ErrorInfo → Outgoing
  plain : ℕ → Outgoing

-- What `ProcessFrame` tells apart: a request to switch by hand, an update, and the rest.
pub data Incoming : Type 0 where
  switch_request : ℕ → Incoming
  incoming_update : Update → Incoming
  incoming_other : ℕ → Incoming

-- What the switcher does to the rest: a frame handed to the parallel pipeline, a metadata request or a copy of an update queued on a
-- service, a frame pushed to its neighbour, an error reported as its own, a usability announced.
pub data Effect : Type 0 where
  requests_metadata : ℕ → Effect
  queues_update : ℕ → Update → Effect
  pushes : Outgoing → Effect
  fans_out : Incoming → Effect
  reports : ErrorInfo → Effect
  announces : Bool → Effect

pub record Switcher : Type 0 where
  pub strategy : Strategy
  pub usable : ℕ → Bool
  pub inactive_updates : List ℕ
  pub announced_usable : Bool
  pub next_id : ℕ
  pub effects : List Effect

abbrev pub inactive_update_ring : ℕ
inactive_update_ring = 64

unfoldable pub emit : Effect → Switcher → Switcher
emit e s = record s { effects = e ∷ s.effects }

unfoldable pub is_usable : Switcher → Bool
is_usable s = exists_in s.usable s.strategy.services

unfoldable pub new_switcher : Policy → ℕ → List ℕ → (ℕ → Bool) → Switcher
unfolding new_strategy
new_switcher p first others usable = record {
  strategy = new_strategy p first others;
  usable = usable;
  inactive_updates = [];
  announced_usable = exists_in usable (first ∷ others);
  next_id = 0;
  effects = [];
}

unfoldable pub announce_usable : Switcher → Switcher
unfolding is_usable emit
announce_usable s =
    if is_usable s
    then (if s.announced_usable
        then s
        else emit (announces true) (record s { announced_usable = true }))
    else (if s.announced_usable
        then emit (announces false) (record s { announced_usable = false })
        else s)

abbrev is_same : Bool → Bool → Bool
is_same true b = b
is_same false b = not b

-- `SetUsable` of a service: the switcher hears of it when the reading moved.
unfoldable pub set_service_usable : ℕ → Bool → Switcher → Switcher
unfolding announce_usable
set_service_usable p v s =
    let moved = record s { usable = λ q. if q == p then v else s.usable q } in
    if is_same v (s.usable p)
    then s
    else if is_in p s.strategy.services
    then announce_usable moved
    else moved

-- After an answer of the strategy: the new service is asked for its metadata.
abbrev pub answered : Switcher → Strategy × Option ℕ → Switcher × Bool
unfolding emit
answered s (m, none) = (record s { strategy = m }, false)
answered s (m, some t) = (emit (requests_metadata t) (record s { strategy = m }), true)

unfoldable pub switch_to : ℕ → Switcher → Switcher × Bool
unfolding set_active_if_available
switch_to t s = answered s (set_active_if_available s.usable t s.strategy)

unfoldable pub remember_inactive_update : ℕ → List ℕ → List ℕ
remember_inactive_update id ids =
    if length ids == inactive_update_ring then drop 1 ids ++ id ∷ [] else ids ++ id ∷ []

unfoldable pub consume_inactive_update : ℕ → List ℕ → List ℕ × Bool
consume_inactive_update id [] = ([], false)
consume_inactive_update id (i ∷ ids) =
    let rest = consume_inactive_update id ids in
    if i == id then (ids, true) else (i ∷ rest.0, rest.1)

abbrev addressed : Option ℕ → Bool → List ℕ → List ℕ
addressed (some t) reach inactive = if is_in t inactive then t ∷ [] else []
addressed none reach inactive = if reach then inactive else []

unfoldable pub inactive_update_targets : Update → Strategy → List ℕ
inactive_update_targets u m =
    addressed u.service u.reach_inactive_services (keep_if (λ s. not (s == m.active)) m.services)

unfoldable pub hand_copies : List ℕ → Update → Switcher → Switcher
unfolding remember_inactive_update emit
hand_copies [] u s = s
hand_copies (t ∷ ts) u s = hand_copies ts u (
    emit (queues_update t (record u { id = s.next_id })) (record s {
      inactive_updates = remember_inactive_update s.next_id s.inactive_updates;
      next_id = suc s.next_id;
    }))

unfoldable pub update_inactive_services : Update → Switcher → Switcher
unfolding hand_copies inactive_update_targets
update_inactive_services u s = hand_copies (inactive_update_targets u s.strategy) u s

-- The last part of `handleServiceError`, after the strategy declined.
unfoldable pub unanswered_error : ℕ → ErrorInfo → Switcher → Switcher × Bool
unfolding emit
unanswered_error failed ef s = if s.usable failed then (s, false) else (emit (reports ef) s, true)

abbrev pub or_unanswered : ℕ → ErrorInfo → Switcher × Bool → Switcher × Bool
unfolding unanswered_error
or_unanswered failed ef (s, true) = (s, true)
or_unanswered failed ef (s, false) = unanswered_error failed ef s

abbrev pub member_error : Option ℕ → ErrorInfo → Switcher → Switcher × Bool
unfolding handle_error
member_error none ef s = (s, false)
member_error (some failed) ef s =
    if failed == s.strategy.active
    then or_unanswered failed ef (answered s (handle_error s.usable ef s.strategy))
    else (s, is_in failed s.strategy.services)

unfoldable pub handle_service_error : ErrorInfo → Switcher → Switcher × Bool
handle_service_error ef s = if ef.fatal then (s, false) else member_error ef.source ef s

abbrev pub unless_handled : Outgoing → Switcher × Bool → Switcher
unfolding emit
unless_handled o (s, true) = s
unless_handled o (s, false) = emit (pushes o) s

unfoldable pub push_frame : Outgoing → Switcher → Switcher
unfolding consume_inactive_update handle_service_error
push_frame (metadata_request t) s = unless_handled (metadata_request t) (s, t == s.strategy.active)
push_frame (metadata t) s = unless_handled (metadata t) (s, not (t == s.strategy.active))
push_frame (settings_update u) s =
    let consumed = consume_inactive_update u.id s.inactive_updates in
    unless_handled (settings_update u) (record s { inactive_updates = consumed.0 }, consumed.1)
push_frame (error_report ef) s = unless_handled (error_report ef) (handle_service_error ef s)
push_frame (plain f) s = unless_handled (plain f) (s, false)

abbrev pub unless_switched : ℕ → Switcher × Bool → Switcher
unfolding emit
unless_switched t (s, true) = s
unless_switched t (s, false) = emit (fans_out (switch_request t)) s

unfoldable pub process_frame : Incoming → Switcher → Switcher
unfolding switch_to update_inactive_services
process_frame (switch_request t) s = unless_switched t (switch_to t s)
process_frame (incoming_update u) s =
    update_inactive_services u (emit (fans_out (incoming_update u)) s)
process_frame (incoming_other f) s = emit (fans_out (incoming_other f)) s
