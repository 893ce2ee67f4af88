-- ===== src/Pipeline/Strategy.antt =====
-- pipeline/switcher.go: the strategies, which know the services and which of them is active.
-- `usable` is the reading of each service's `Usable`.
pub mod Failover
use voxigo.Prelude.{
  ℕ, zero, suc, ◌+◌, ◌%◌, ◌-◌, Bool, true, false, not, Option, none, some, List, [], ◌∷◌, Text,
  if◌then◌else◌, exists_in, keep_if, length, get_elem?, ◌==◌,
}

pub data Policy : Type 0 where
  manual_policy failover_policy : Policy

-- `manualStrategy`, and `failoverStrategy`, which embeds it. `switched` are the calls of
-- `onSwitch`, the last one first.
pub record Strategy : Type 0 where
  pub policy : Policy
  pub services : List ℕ
  pub active : ℕ
  pub switched : List ℕ

pub record ErrorInfo : Type 0 where
  pub message : Text
  pub fatal : Bool
  pub source : Option ℕ

-- A strategy over services of which the first starts active.
unfoldable pub new_strategy : Policy → ℕ → List ℕ → Strategy
new_strategy p s ss = record { policy = p; services = s ∷ ss; active = s; switched = [] }

abbrev pub is_in : ℕ → List ℕ → Bool
is_in s ss = exists_in (λ t. t == s) ss

unfoldable pub usable_services : (ℕ → Bool) → Strategy → List ℕ
usable_services usable m = keep_if usable m.services

unfoldable pub set_active_if_available : (ℕ → Bool) → ℕ → Strategy → Strategy × Option ℕ
set_active_if_available usable target m =
    if not (is_in target m.services)
    then (m, none)
    else if not (usable target)
    then (m, none)
    else (record m { active = target; switched = target ∷ m.switched }, some target)

-- The search for the active service's index, 0 when it is not found.
unfoldable pub index_from : ℕ → ℕ → List ℕ → ℕ
index_from i active [] = 0
index_from i active (s ∷ ss) =
    let rest = index_from (suc i) active ss in if s == active then i else rest

-- The walk over the `k` offsets from `offset` on.
unfoldable pub candidate_from : (ℕ → Bool) → List ℕ → ℕ → ℕ → ℕ → Option ℕ
candidate_from usable services i offset zero = none
candidate_from usable services i offset (suc k) =
    let rest = candidate_from usable services i (suc offset) k in
    elim (get_elem? services ((i + offset) % length services)) [
      | none ↦ none
      | some s ↦ if usable s then some s else rest
    ]

unfoldable pub activate : (ℕ → Bool) → Option ℕ → Strategy → Strategy × Option ℕ
unfolding set_active_if_available
activate usable none m = (m, none)
activate usable (some s) m = set_active_if_available usable s m

abbrev pub or_active : Option ℕ → ℕ → ℕ
or_active none active = active
or_active (some s) active = s

unfoldable pub failover : (ℕ → Bool) → ErrorInfo → Strategy → Strategy × Option ℕ
unfolding index_from candidate_from activate
failover usable ef m =
    if usable (or_active ef.source m.active)
    then (m, none)
    else activate usable
        (candidate_from usable m.services (index_from 0 m.active m.services) 1
          (length m.services - 1))
        m

unfoldable pub handle_error : (ℕ → Bool) → ErrorInfo → Strategy → Strategy × Option ℕ
unfolding failover
handle_error usable ef m = elim m.policy [
  | manual_policy ↦ (m, none)
  | failover_policy ↦ failover usable ef m
]
