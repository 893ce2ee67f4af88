-- ===== src/Pipeline/Strategy/Failover.antt =====
-- pipeline/switcher.go: which service is active after a request or a failure.
use native.Mathlib.Nat.{mod-eq_of_lt, add-mod_right}
use mathlib.Core.List.{append_assoc}
use voxigo.Prelude.{
  ℕ, zero, suc, ◌+◌, ◌-◌, ◌%◌, ◌<◌, ◌≤◌, ◌≡◌, refl, sym, ap, ◌∙◌, inl, inr, Bool, true, false,
  Option, none, some, List, [], ◌∷◌, ◌++◌, arith, length, length-append, get_elem?, drop, take,
  Bool-cases, ltb, ltb→lt, ◌||◌, if◌then◌else◌,
}
use voxigo.Pipeline.Strategy.{
  Strategy, ErrorInfo, is_in, set_active_if_available, index_from, candidate_from, failover,
  handle_error, or_active, failover_policy, activate,
}

-- The first of the services that can be given work.
abbrev pub first_usable : (ℕ → Bool) → List ℕ → Option ℕ
first_usable usable [] = none
first_usable usable (s ∷ ss) =
    let rest = first_usable usable ss in if usable s then some s else rest

get_elem?-append :
    (i : ℕ) (xs ys : List ℕ) → i < length xs → get_elem? (xs ++ ys) i ≡ get_elem? xs i
get_elem?-append i [] ys h = ground arith
get_elem?-append zero (x ∷ xs) ys h = refl
get_elem?-append (suc i) (x ∷ xs) ys h = get_elem?-append i xs ys (omega arith)

get_elem?-behind : (i : ℕ) (xs ys : List ℕ) → get_elem? (xs ++ ys) (i + length xs) ≡ get_elem? ys i
get_elem?-behind i [] ys = ap (get_elem? ys) (omega arith)
get_elem?-behind i (x ∷ xs) ys =
    let e : i + suc (length xs) ≡ suc (i + length xs) = omega arith in
    ap (get_elem? (x ∷ xs ++ ys)) e ∙ get_elem?-behind i xs ys

get_elem?-some : (i : ℕ) (xs : List ℕ) → i < length xs → (x : ℕ) × (get_elem? xs i ≡ some x)
get_elem?-some i [] h = absurd (omega arith)
get_elem?-some zero (x ∷ xs) h = (x, refl)
get_elem?-some (suc i) (x ∷ xs) h = get_elem?-some i xs (omega arith)

take-drop :
    (k i x : ℕ) (xs : List ℕ)
    → get_elem? xs i ≡ some x
    → take (suc k) (drop i xs) ≡ x ∷ take k (drop (suc i) xs)
take-drop k i x [] h = ground arith
take-drop k zero x (y ∷ xs) h = ground arith
take-drop k (suc i) x (y ∷ xs) h = take-drop k i x xs h

-- The list read in a circle.
at_cycle :
    (j : ℕ) (ss : List ℕ)
    → j < length ss + length ss
    → get_elem? ss (j % length ss) ≡ get_elem? (ss ++ ss) j
at_cycle j ss h = elim (Bool-cases (ltb j (length ss))) [
  | inl lt ↦
      let below : j < length ss = ltb→lt j (length ss) lt in
      ap (get_elem? ss) (mod-eq_of_lt below) ∙ sym (get_elem?-append j ss ss below)
  | inr ge ↦
      let low : j - length ss < length ss = ground arith in
      let split : j ≡ j - length ss + length ss = ground arith in
      ap (λ i. get_elem? ss (i % length ss)) split
      ∙ ap (get_elem? ss) (add-mod_right (j - length ss) (length ss) ∙ mod-eq_of_lt low)
      ∙ sym (get_elem?-behind (j - length ss) ss ss)
      ∙ sym (ap (get_elem? (ss ++ ss)) split)
]

candidate_from-first :
    (usable : ℕ → Bool) (ss : List ℕ) (i offset k : ℕ)
    → i + offset + k ≤ length ss + length ss
    → candidate_from usable ss i offset k
      ≡ first_usable usable (take k (drop (i + offset) (ss ++ ss)))
unfolding candidate_from
candidate_from-first usable ss i offset zero h = refl
candidate_from-first usable ss i offset (suc k) h =
    let (c, e) = get_elem?-some (i + offset) (ss ++ ss) (omega (arith, length-append ss ss)) in
    let read = at_cycle (i + offset) ss (omega arith) ∙ e in
    let next : i + suc offset ≡ suc (i + offset) = omega arith in
    let rest =
      candidate_from-first usable ss i (suc offset) k (omega arith)
      ∙ ap (λ j. first_usable usable (take k (drop j (ss ++ ss)))) next in
    let split = take-drop k (i + offset) c (ss ++ ss) e in ground arith

index_from-split :
    (i a : ℕ) (before behind : List ℕ)
    → is_in a before ≡ false
    → index_from i a (before ++ a ∷ behind) ≡ i + length before
unfolding index_from
index_from-split i a [] behind h = ground arith
index_from-split i a (s ∷ before) behind h =
    let rest = index_from-split (suc i) a before behind (ground arith) in ground arith

drop-behind :
    (a : ℕ) (before behind : List ℕ) → drop (suc (length before)) (before ++ a ∷ behind) ≡ behind
drop-behind a [] behind = refl
drop-behind a (s ∷ before) behind = drop-behind a before behind

take-whole : (xs ys : List ℕ) → take (length xs) (xs ++ ys) ≡ xs
take-whole [] ys = refl
take-whole (x ∷ xs) ys = rw (take-whole xs ys)

first_usable_sound :
    (usable : ℕ → Bool) (s : ℕ) (ss : List ℕ)
    → first_usable usable ss ≡ some s
    → (usable s ≡ true) × (is_in s ss ≡ true)
first_usable_sound usable s [] h = ground arith
first_usable_sound usable s (t ∷ ss) h = ground (arith, first_usable_sound usable s ss)

is_in-append : (s : ℕ) (xs ys : List ℕ) → is_in s (xs ++ ys) ≡ (is_in s xs || is_in s ys)
is_in-append s [] ys = refl
is_in-append s (x ∷ xs) ys = ground (arith, is_in-append s xs ys)

-- Behind the first occurrence of `a`, the circle is what follows it and then what precedes it.
rotation :
    (a : ℕ) (before behind : List ℕ)
    → take
        (length (before ++ a ∷ behind) - 1)
        (drop (suc (length before)) ((before ++ a ∷ behind) ++ (before ++ a ∷ behind)))
      ≡ behind ++ before
rotation a before behind =
    let ss = before ++ a ∷ behind in
    let size : length ss - 1 ≡ length (behind ++ before) =
      omega (arith, length-append before (a ∷ behind), length-append behind before) in
    let k = length ss - 1 in
    ap (λ l. take k (drop (suc (length before)) l)) (append_assoc before (a ∷ behind) ss)
    ∙ ap (take k) (drop-behind a before (behind ++ ss))
    ∙ ap (take k) (sym (append_assoc behind before (a ∷ behind)))
    ∙ ap (λ n. take n ((behind ++ before) ++ a ∷ behind)) size
    ∙ take-whole (behind ++ before) (a ∷ behind)

candidate_from-rotation :
    (usable : ℕ → Bool) (a : ℕ) (before behind : List ℕ) (ss : List ℕ)
    → ss ≡ before ++ a ∷ behind
    → is_in a before ≡ false
    → candidate_from usable ss (index_from 0 a ss) 1 (length ss - 1)
      ≡ first_usable usable (behind ++ before)
candidate_from-rotation usable a before behind ss order first =
    let whole = before ++ a ∷ behind in
    let at : index_from 0 a whole ≡ length before =
      index_from-split 0 a before behind first ∙ omega arith in
    let next : length before + 1 ≡ suc (length before) = omega arith in
    let bound : length before + 1 + (length whole - 1) ≤ length whole + length whole =
      omega (arith, length-append before (a ∷ behind)) in
    ap (λ l. candidate_from usable l (index_from 0 a l) 1 (length l - 1)) order
    ∙ ap (λ i. candidate_from usable whole i 1 (length whole - 1)) at
    ∙ candidate_from-first usable whole (length before) 1 (length whole - 1) bound
    ∙ ap (λ i. first_usable usable (take (length whole - 1) (drop i (whole ++ whole)))) next
    ∙ ap (first_usable usable) (rotation a before behind)

-- What a switch to a service changes.
abbrev pub moved_to : Option ℕ → Strategy → Strategy × Option ℕ
moved_to none m = (m, none)
moved_to (some s) m = (record m { active = s; switched = s ∷ m.switched }, some s)

set_active-available :
    (usable : ℕ → Bool) (s : ℕ) (m : Strategy)
    → usable s ≡ true
    → is_in s m.services ≡ true
    → set_active_if_available usable s m ≡ moved_to (some s) m
unfolding set_active_if_available
set_active-available usable s m u i = ground arith

module _ (usable : ℕ → Bool) (ef : ErrorInfo) (before behind : List ℕ) (m : Strategy)
    (order : m.services ≡ before ++ m.active ∷ behind) (first : is_in m.active before ≡ false) where
  activate-first :
      (o : Option ℕ)
      → o ≡ first_usable usable (behind ++ before)
      → activate usable o m ≡ moved_to o m
  unfolding activate
  activate-first none e = refl
  activate-first (some s) e =
      let found = first_usable_sound usable s (behind ++ before) (sym e) in
      set_active-available usable s m (found.0) (
        ap (is_in s) order
        ∙ ground (arith, is_in-append s behind before, is_in-append s before (m.active ∷ behind)))

  -- A failover goes to the next usable service: when the failed one cannot work any more, the
  -- switch is to the first usable of the services behind the active one and then those before it,
  -- in order, and when there is none nothing changes; the active service is taken where it stands
  -- first.
  pub failover_rotates :
      m.policy ≡ failover_policy
      → usable (or_active ef.source m.active) ≡ false
      → handle_error usable ef m ≡ moved_to (first_usable usable (behind ++ before)) m
  unfolding handle_error failover
  failover_rotates p failed =
      let found = candidate_from-rotation usable m.active before behind m.services order first in
      let moved = activate-first _ found in ground (arith, found, moved)
