-- ===== src/Context/Sequencer/Fuel.antt =====
-- utils/context/sequencer.go: processing a word ends. A word that runs over is tried again only
-- after it completed a slot, so the slots still to complete bound the recursion.
use voxigo.Prelude.{
  ℕ, zero, suc, ◌+◌, ◌≤◌, ◌<◌, ◌≡◌, refl, ◌⊎◌, inl, inr, Bool, true, false, Option, none, some,
  List, [], ◌∷◌, ◌++◌, Text, arith, Bool-cases, Option-cases,
}
use voxigo.Context.Sequencer.Types.{Tracking, Assembling, is_empty, Slot, Sequencer, Run, is_some}
use voxigo.Context.Sequencer.Flush.{flush_slots, flush}
use voxigo.Context.Sequencer.Words.{
  slot_matches, active_slot, update_active, recorded, take_word, take_active, route_word, is_stale,
  process_step, process_from, process_word, open_slots, unless_routed, Step,
}

module _ (tr : Tracking) (sa : Assembling) where
  open tr use {Tracker, add_word}

  pub flush_slots-open :
      (p : ℕ) (slots : List (Slot tr sa))
      → open_slots tr sa (flush_slots tr sa p slots).0 ≤ open_slots tr sa slots
  unfolding flush_slots
  flush_slots-open p [] = omega arith
  flush_slots-open p (s ∷ rest) = ground (arith, flush_slots-open p rest)

  -- Completing the active slot leaves one fewer.
  update_active-open :
      (ctx : Text) (t : Slot tr sa) (slots : List (Slot tr sa))
      → t.complete ≡ true
      → is_some tr sa (active_slot tr sa ctx slots) ≡ true
      → open_slots tr sa (update_active tr sa ctx t slots) + 1 ≡ open_slots tr sa slots
  unfolding update_active active_slot slot_matches
  update_active-open ctx t [] c h = ground arith
  update_active-open ctx t (s ∷ rest) c h = ground (arith, update_active-open ctx t rest c)

  -- A word runs over only where it completed a slot.
  take_word-open :
      (s : Slot tr sa) (t : Option Tracker) (word : Text) (pts : ℕ) (ctx : Text) (inter : Bool)
      (q : Sequencer tr sa)
      → is_some tr sa (active_slot tr sa ctx q.slots) ≡ true
      → let r = take_word tr sa s t word pts ctx inter q in
        (is_empty r.2 ≡ true) ⊎ (open_slots tr sa r.0.slots < open_slots tr sa q.slots)
  unfolding take_word flush recorded
  take_word-open s none word pts ctx inter q h = inl refl
  take_word-open s (some t) word pts ctx inter q h =
      let (t', done) = add_word word t in
      let s' = recorded tr sa s (some t') true inter in
      elim (Bool-cases done) [
        | inr e ↦ rw e (inl refl)
        | inl e ↦ rw e (
            inr (
              omega (
                arith,
                update_active-open ctx s' q.slots refl h,
                flush_slots-open pts (update_active tr sa ctx s' q.slots),
              )))
      ]

  take_active-open :
      (a : Option (Slot tr sa)) (word : Text) (pts : ℕ) (ctx : Text) (inter : Bool)
      (q : Sequencer tr sa)
      → active_slot tr sa ctx q.slots ≡ a
      → let r = take_active tr sa a word pts ctx inter q in
        (is_empty r.2 ≡ true) ⊎ (open_slots tr sa r.0.slots < open_slots tr sa q.slots)
  unfolding take_active
  take_active-open none word pts ctx inter q e = inl refl
  take_active-open (some s) word pts ctx inter q e =
      take_word-open s s.tracker word pts ctx inter q (rw e)

  unless_routed-open :
      (r : Option (Run tr sa)) (st : Step tr sa) (n : ℕ)
      → (is_empty st.2 ≡ true) ⊎ (open_slots tr sa st.0.slots < n)
      → (is_empty (unless_routed tr sa r st).2 ≡ true)
        ⊎ (open_slots tr sa (unless_routed tr sa r st).0.slots < n)
  unless_routed-open none st n h = h
  unless_routed-open (some r) st n h = inl refl

  process_step-open :
      (word : Text) (pts : ℕ) (ctx : Text) (inter : Bool) (q : Sequencer tr sa)
      → let r = process_step tr sa word pts ctx inter q in
        (is_empty r.2 ≡ true) ⊎ (open_slots tr sa r.0.slots < open_slots tr sa q.slots)
  unfolding process_step
  process_step-open word pts ctx inter q =
      let a = active_slot tr sa ctx q.slots in
      let h =
        unless_routed-open (route_word tr sa a word pts ctx inter q)
          (take_active tr sa a word pts ctx inter q) (open_slots tr sa q.slots)
          (take_active-open a word pts ctx inter q refl) in
      elim (Bool-cases (is_stale tr sa ctx q)) [ inl e ↦ rw e (inl refl) | inr e ↦ rw e h ]

  process_from-total :
      (fuel : ℕ) (word : Text) (pts : ℕ) (ctx : Text) (inter : Bool) (q : Sequencer tr sa)
      → open_slots tr sa q.slots < fuel
      → (r : Run tr sa) × (process_from tr sa fuel word pts ctx inter q ≡ some r)
  unfolding process_from
  process_from-total zero word pts ctx inter q h = elim h [ ]
  process_from-total (suc fuel) word pts ctx inter q h =
      let (q', out, over) = process_step tr sa word pts ctx inter q in
      elim (Bool-cases (is_empty over)) [
        | inl e ↦ ((q', out), rw e)
        | inr e ↦ elim (process_step-open word pts ctx inter q) [
          | inl none_over ↦ cc
          | inr fewer ↦
              let (r, eq) = process_from-total fuel over pts ctx false q' (omega arith) in
              ((r.0, out ++ r.1), rw (e, eq))
        ]
      ]

  -- More fuel changes nothing.
  process_from-fuel :
      (f g : ℕ) (word : Text) (pts : ℕ) (ctx : Text) (inter : Bool) (q : Sequencer tr sa)
      {r : Run tr sa}
      → f ≤ g
      → process_from tr sa f word pts ctx inter q ≡ some r
      → process_from tr sa g word pts ctx inter q ≡ some r
  unfolding process_from
  process_from-fuel zero g word pts ctx inter q le h = cc
  process_from-fuel (suc f) zero word pts ctx inter q le h = absurd (omega arith)
  process_from-fuel (suc f) (suc g) word pts ctx inter q le h =
      let (q', out, over) = process_step tr sa word pts ctx inter q in
      elim (Bool-cases (is_empty over)) [
        | inl e ↦ rw e (rw e at h)
        | inr e ↦ elim (Option-cases (process_from tr sa f over pts ctx false q')) [
          | inl stuck ↦ absurd (cc (rw (e, stuck) at h))
          | inr (r', eq) ↦
              rw (e, process_from-fuel f g over pts ctx false q' (omega arith) eq) (rw (e, eq) at h)
        ]
      ]

  -- Processing a word always returns, after at most one round for each spoken slot still to
  -- complete and one more: any such number of rounds gives the result.
  pub process_word-total :
      (fuel : ℕ) (word : Text) (pts : ℕ) (ctx : Text) (inter : Bool) (q : Sequencer tr sa)
      → open_slots tr sa q.slots < fuel
      → process_from tr sa fuel word pts ctx inter q
        ≡ some (process_word tr sa word pts ctx inter q)
  unfolding process_word
  process_word-total fuel word pts ctx inter q h =
      let n = suc (open_slots tr sa q.slots) in
      let (r, eq) = process_from-total n word pts ctx inter q (omega arith) in
      rw eq (process_from-fuel n fuel word pts ctx inter q (omega arith) eq)
