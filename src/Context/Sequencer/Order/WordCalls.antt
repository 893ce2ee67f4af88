-- ===== src/Context/Sequencer/Order/WordCalls.antt =====
-- utils/context/sequencer.go: a word keeps the skipped frames in order.
use mathlib.Core.Path.{subst}
use voxigo.Prelude.{
  ℕ, zero, suc, ◌≡◌, refl, inl, inr, Bool, true, false, Option, none, some, List, [], ◌∷◌, ◌++◌,
  Text, arith, Bool-cases, Option-cases, some-inj, All,
}
use voxigo.Context.Sequencer.Types.{Tracking, Assembling, Out, is_empty, Slot, Sequencer, Run}
use voxigo.Context.Sequencer.Flush.{flush}
use voxigo.Context.Sequencer.Words.{
  slot_matches, active_slot, update_active, recorded, take_word, take_active, route_word, is_stale,
  process_step, process_from, process_word, open_slots, unless_routed, Step, emit_word, bare_word,
}
use voxigo.Context.Sequencer.Fuel.{process_word-total}
use voxigo.Context.Sequencer.Order.{
  released_ids, released_ids-append, skipped_ids, HeadWaits, IsFresh, Steps, stay-Steps,
  flush-Steps,
}
use voxigo.Context.Sequencer.Order.Calls.{chain-Steps}

module _ (tr : Tracking) (sa : Assembling) where
  open tr use {Tracker, add_word}

  -- The active slot is spoken and open, and so is what takes its place.
  update_active-keeps :
      (ctx : Text) (t : Slot tr sa) (slots : List (Slot tr sa))
      → t.spoken ≡ true
      → (skipped_ids tr sa (update_active tr sa ctx t slots) ≡ skipped_ids tr sa slots)
        × (All (IsFresh tr sa) slots → All (IsFresh tr sa) (update_active tr sa ctx t slots))
  unfolding update_active slot_matches
  update_active-keeps ctx t [] h = (refl, λ f. tt)
  update_active-keeps ctx t (s ∷ rest) h =
      let (a, b) = update_active-keeps ctx t rest h in
      (ground (arith, a), λ f. ground (arith, b f.1, f.0))

  update_active-waits :
      (ctx : Text) (t : Slot tr sa) (slots : List (Slot tr sa))
      → t.spoken ≡ true
      → t.complete ≡ false
      → HeadWaits tr sa slots
      → HeadWaits tr sa (update_active tr sa ctx t slots)
  unfolding update_active
  update_active-waits ctx t [] h c w = tt
  update_active-waits ctx t (s ∷ rest) h c w = ground arith

  active_slot-spoken :
      (ctx : Text) (slots : List (Slot tr sa)) (s : Slot tr sa)
      → active_slot tr sa ctx slots ≡ some s
      → s.spoken ≡ true
  unfolding active_slot slot_matches
  active_slot-spoken ctx [] s h = cc
  active_slot-spoken ctx (x ∷ rest) s h = ground (arith, active_slot-spoken ctx rest s)

  bare_word-ids :
      (m : List (Text × Bool)) (word : Text) (p : ℕ) (ctx : Text) (inter : Bool)
      → released_ids (bare_word tr sa m word p ctx inter) ≡ []
  bare_word-ids m word p ctx inter = ground arith

  emit_word-ids :
      (m : List (Text × Bool)) (s : Slot tr sa) (t : Tracker) (p : ℕ)
      → released_ids (emit_word tr sa m s t p) ≡ []
  unfolding emit_word
  emit_word-ids m s t p = ground arith

  -- Frames that are no skipped ones, put before those of a call.
  prefix-Steps :
      {q : Sequencer tr sa} (out : List Out) (r : Run tr sa)
      → released_ids out ≡ []
      → Steps tr sa q r
      → Steps tr sa q (r.0, out ++ r.1)
  prefix-Steps out (q', more) e st = record {
    ids = rw (released_ids-append out more, e) st.ids;
    inv = st.inv;
  }

  take_word-Steps :
      (s : Slot tr sa) (t : Option Tracker) (word : Text) (p : ℕ) (ctx : Text) (inter : Bool)
      (q : Sequencer tr sa)
      → s.spoken ≡ true
      → let r = take_word tr sa s t word p ctx inter q in Steps tr sa q (r.0, r.1)
  unfolding take_word recorded
  take_word-Steps s none word p ctx inter q h =
      let s' = recorded tr sa s none false inter in
      let (a, b) = update_active-keeps ctx s' q.slots h in
      record {
        ids = rw (bare_word-ids q.context_append word p s.context_id s'.includes_inter_frame) a;
        inv = λ v. record {
          fresh = b v.fresh;
          waits = update_active-waits ctx s' q.slots h refl v.waits;
        };
      }
  take_word-Steps s (some t) word p ctx inter q h = elim (Bool-cases (add_word word t).1) [
    | inl e ↦
        let t' = (add_word word t).0 in
        let s' = recorded tr sa s (some t') true inter in
        let (a, b) = update_active-keeps ctx s' q.slots h in
        let q' : Sequencer tr sa = record q { slots = update_active tr sa ctx s' q.slots } in
        rw e (
          prefix-Steps (emit_word tr sa q.context_append s' t' p) (flush tr sa p q')
            (emit_word-ids q.context_append s' t' p) (flush-Steps tr sa p q q' a (λ v. b v.fresh)))
    | inr e ↦
        let t' = (add_word word t).0 in
        let s' = recorded tr sa s (some t') false inter in
        let (a, b) = update_active-keeps ctx s' q.slots h in
        rw e (record {
          ids = rw (emit_word-ids q.context_append s' t' p) a;
          inv = λ v. record {
            fresh = b v.fresh;
            waits = update_active-waits ctx s' q.slots h refl v.waits;
          };
        })
  ]

  take_active-Steps :
      (a : Option (Slot tr sa)) (word : Text) (p : ℕ) (ctx : Text) (inter : Bool)
      (q : Sequencer tr sa)
      → active_slot tr sa ctx q.slots ≡ a
      → let r = take_active tr sa a word p ctx inter q in Steps tr sa q (r.0, r.1)
  unfolding take_active
  take_active-Steps none word p ctx inter q e = record {
    ids = rw (bare_word-ids q.context_append word p ctx inter);
    inv = λ v. v;
  }
  take_active-Steps (some s) word p ctx inter q e =
      take_word-Steps s s.tracker word p ctx inter q (active_slot-spoken ctx q.slots s e)

  route_word-keeps :
      (a : Option (Slot tr sa)) (word : Text) (p : ℕ) (ctx : Text) (inter : Bool)
      (q : Sequencer tr sa) (r : Run tr sa)
      → route_word tr sa a word p ctx inter q ≡ some r
      → (r.0.slots ≡ q.slots) × (released_ids r.1 ≡ [])
  unfolding route_word
  route_word-keeps none word p ctx inter q r e = ground arith
  route_word-keeps (some s) word p ctx inter q r e = ground arith

  same-Steps :
      {q : Sequencer tr sa} (r : Run tr sa)
      → r.0.slots ≡ q.slots
      → released_ids r.1 ≡ []
      → Steps tr sa q r
  same-Steps (q', out) e f = record {
    ids = rw (f, e);
    inv = λ v. record { fresh = rw e v.fresh; waits = rw e v.waits };
  }

  unless_routed-Steps :
      (o : Option (Run tr sa)) (q : Sequencer tr sa) (st : Step tr sa)
      → ((r : Run tr sa) → o ≡ some r → (r.0.slots ≡ q.slots) × (released_ids r.1 ≡ []))
      → Steps tr sa q (st.0, st.1)
      → let r = unless_routed tr sa o st in Steps tr sa q (r.0, r.1)
  unless_routed-Steps none q st k h = h
  unless_routed-Steps (some r) q st k h = let (e, f) = k r refl in same-Steps r e f

  process_step-Steps :
      (word : Text) (p : ℕ) (ctx : Text) (inter : Bool) (q : Sequencer tr sa)
      → let r = process_step tr sa word p ctx inter q in Steps tr sa q (r.0, r.1)
  unfolding process_step
  process_step-Steps word p ctx inter q =
      let a = active_slot tr sa ctx q.slots in
      elim (Bool-cases (is_stale tr sa ctx q)) [
        | inl e ↦ rw e (stay-Steps tr sa q)
        | inr e ↦ rw e (
            unless_routed-Steps (route_word tr sa a word p ctx inter q) q
              (take_active tr sa a word p ctx inter q) (route_word-keeps a word p ctx inter q)
              (take_active-Steps a word p ctx inter q refl))
      ]

  process_from-Steps :
      (fuel : ℕ) (word : Text) (p : ℕ) (ctx : Text) (inter : Bool) (q : Sequencer tr sa)
      (r : Run tr sa)
      → process_from tr sa fuel word p ctx inter q ≡ some r
      → Steps tr sa q r
  unfolding process_from
  process_from-Steps zero word p ctx inter q r h = cc
  process_from-Steps (suc fuel) word p ctx inter q r h =
      let (q', out, over) = process_step tr sa word p ctx inter q in
      let st = process_step-Steps word p ctx inter q in
      elim (Bool-cases (is_empty over)) [
        | inl e ↦ subst (λ t. Steps tr sa q t) (some-inj (rw e at h)) st
        | inr e ↦ elim (Option-cases (process_from tr sa fuel over p ctx false q')) [
          | inl stuck ↦ absurd (cc (rw (e, stuck) at h))
          | inr (r', eq) ↦
              subst (λ t. Steps tr sa q t) (some-inj (rw (e, eq) at h))
                (chain-Steps tr sa out r' st (process_from-Steps fuel over p ctx false q' r' eq))
        ]
      ]

  pub process_word-Steps :
      (word : Text) (p : ℕ) (ctx : Text) (inter : Bool) (q : Sequencer tr sa)
      → Steps tr sa q (process_word tr sa word p ctx inter q)
  process_word-Steps word p ctx inter q =
      let n = suc (open_slots tr sa q.slots) in
      process_from-Steps n word p ctx inter q (process_word tr sa word p ctx inter q)
        (process_word-total tr sa n word p ctx inter q (omega arith))
