-- ===== src/Context/Matcher/Order.antt =====
-- utils/context/sequencematcher.go: blocks that lie apart, sorted, follow one another in both
-- sequences.
use mathlib.Core.List.{reverse, reverse-cons}
use voxigo.Prelude.{
  ◌<◌, ◌≡◌, inl, inr, true, false, List, [], ◌∷◌, ◌++◌, Text, arith, Bool-cases, All, All-append,
}
use voxigo.Context.Matcher.{Match, Span, is_greater, sink, sort_from, sort_matches}
use voxigo.Context.Matcher.Parts.{box, boxes, Precedes, Apart, AllApart, Apart-flip, IsFound}

-- Sorted so far: from the end, no block is greater than one before it in the list.
abbrev IsFalling : List Match → Type 0
IsFalling [] = Unit
IsFalling (x ∷ xs) = All (λ y. is_greater y x ≡ false) xs × IsFalling xs

is_greater_trans :
    (x y z : Match) → is_greater x y ≡ false → is_greater y z ≡ false → is_greater x z ≡ false
unfolding is_greater
is_greater_trans x y z h k = ground arith

is_greater-flip : (x y : Match) → is_greater x y ≡ true → is_greater y x ≡ false
unfolding is_greater
is_greater-flip x y h = ground arith

All-sink : (P : Match → Type 0) (v : Match) (ms : List Match) → P v → All P ms → All P (sink v ms)
unfolding sink
All-sink P v [] p h = (p, tt)
All-sink P v (m ∷ ms) p h = elim (Bool-cases (is_greater m v)) [
  | inl e ↦ rw e (h.0, All-sink P v ms p h.1)
  | inr e ↦ rw e (p, h)
]

below-all :
    (v m : Match) (ms : List Match)
    → is_greater m v ≡ false
    → All (λ y. is_greater y m ≡ false) ms
    → All (λ y. is_greater y v ≡ false) ms
below-all v m [] e h = tt
below-all v m (y ∷ ms) e h = (is_greater_trans y m v h.0 e, below-all v m ms e h.1)

sink-IsFalling : (v : Match) (ms : List Match) → IsFalling ms → IsFalling (sink v ms)
unfolding sink
sink-IsFalling v [] h = (tt, tt)
sink-IsFalling v (m ∷ ms) h = elim (Bool-cases (is_greater m v)) [
  | inl e ↦ rw e (
    All-sink (λ y. is_greater y m ≡ false) v ms (is_greater-flip m v e) h.0,
    sink-IsFalling v ms h.1,
  )
  | inr e ↦ rw e ((e, below-all v m ms e h.0), h)
]

Apart-sink :
    (x : Span) (v : Match) (ms : List Match)
    → Apart x (box v)
    → All (Apart x) (boxes ms)
    → All (Apart x) (boxes (sink v ms))
unfolding sink
Apart-sink x v [] p h = (p, tt)
Apart-sink x v (m ∷ ms) p h = elim (Bool-cases (is_greater m v)) [
  | inl e ↦ rw e (h.0, Apart-sink x v ms p h.1)
  | inr e ↦ rw e (p, h)
]

sink-AllApart :
    (v : Match) (ms : List Match)
    → AllApart (boxes ms)
    → All (Apart (box v)) (boxes ms)
    → AllApart (boxes (sink v ms))
unfolding sink
sink-AllApart v [] h p = (tt, tt)
sink-AllApart v (m ∷ ms) h p = elim (Bool-cases (is_greater m v)) [
  | inl e ↦
      rw e
        (Apart-sink (box m) v ms (Apart-flip (box v) (box m) p.0) h.0, sink-AllApart v ms h.1 p.1)
  | inr e ↦ rw e (p, h)
]

-- The blocks of a list that is sorted from its end: each follows the later ones of the list.
abbrev pub Follows : List Match → Type 0
Follows [] = Unit
Follows (x ∷ xs) = All (λ y. Precedes (box y) (box x)) xs × Follows xs

-- And of a list sorted from its front.
abbrev pub Rises : List Match → Type 0
Rises [] = Unit
Rises (x ∷ xs) = All (λ y. Precedes (box x) (box y)) xs × Rises xs

falling-Precedes :
    (x y : Match)
    → 0 < x.size
    → is_greater y x ≡ false
    → Apart (box x) (box y)
    → Precedes (box y) (box x)
unfolding is_greater
falling-Precedes x y p e (inl q) = ground arith
falling-Precedes x y p e (inr q) = q

falling-Follows-all :
    (x : Match) (ys : List Match)
    → 0 < x.size
    → All (λ y. is_greater y x ≡ false) ys
    → All (Apart (box x)) (boxes ys)
    → All (λ y. Precedes (box y) (box x)) ys
falling-Follows-all x [] p e q = tt
falling-Follows-all x (y ∷ ys) p e q =
    (falling-Precedes x y p e.0 q.0, falling-Follows-all x ys p e.1 q.1)

falling-Follows :
    (ms : List Match) → All (λ m. 0 < m.size) ms → IsFalling ms → AllApart (boxes ms) → Follows ms
falling-Follows [] p f q = tt
falling-Follows (m ∷ ms) p f q =
    (falling-Follows-all m ms p.0 f.0 q.0, falling-Follows ms p.1 f.1 q.1)

Rises-append :
    (xs : List Match) (x : Match)
    → Rises xs
    → All (λ y. Precedes (box y) (box x)) xs
    → Rises (xs ++ x ∷ [])
Rises-append [] x h p = (tt, tt)
Rises-append (y ∷ ys) x h p = (
  All-append (λ z. Precedes (box y) (box z)) ys (x ∷ []) h.0 (p.0, tt),
  Rises-append ys x h.1 p.1,
)

All-reverse : (P : Match → Type 0) (xs : List Match) → All P xs → All P (reverse xs)
All-reverse P [] h = tt
All-reverse P (x ∷ xs) h =
    rw (reverse-cons x xs) (All-append P (reverse xs) (x ∷ []) (All-reverse P xs h.1) (h.0, tt))

reverse-Rises : (xs : List Match) → Follows xs → Rises (reverse xs)
reverse-Rises [] h = tt
reverse-Rises (x ∷ xs) h = rw (reverse-cons x xs) (
    Rises-append (reverse xs) x (reverse-Rises xs h.1)
      (All-reverse (λ y. Precedes (box y) (box x)) xs h.0))

sizes :
    (a b : List Text) (whole : Span) (ms : List Match)
    → All (IsFound a b whole) ms
    → All (λ m. 0 < m.size) ms
sizes a b whole [] h = tt
sizes a b whole (m ∷ ms) h = (h.0.1, sizes a b whole ms h.1)

Apart-all :
    (v : Match) (sorted vs : List Match)
    → All (Apart (box v)) (boxes vs)
    → All (λ u. All (Apart (box u)) (boxes sorted)) vs
    → All (λ u. All (Apart (box u)) (boxes (sink v sorted))) vs
Apart-all v sorted [] h k = tt
Apart-all v sorted (u ∷ vs) h k = (
  Apart-sink (box u) v sorted (Apart-flip (box v) (box u) h.0) k.0,
  Apart-all v sorted vs h.1 k.1,
)

nothing : (vs : List Match) → All (λ v. All (Apart (box v)) (boxes [])) vs
nothing [] = tt
nothing (v ∷ vs) = (tt, nothing vs)

sort_from-Rises :
    (a b : List Text) (whole : Span) (sorted vs : List Match)
    → All (IsFound a b whole) sorted
    → IsFalling sorted
    → AllApart (boxes sorted)
    → All (IsFound a b whole) vs
    → AllApart (boxes vs)
    → All (λ v. All (Apart (box v)) (boxes sorted)) vs
    → Rises (sort_from sorted vs) × All (IsFound a b whole) (sort_from sorted vs)
unfolding sort_from
sort_from-Rises a b whole sorted [] found falls apart rest rest_apart both = (
  reverse-Rises sorted (falling-Follows sorted (sizes a b whole sorted found) falls apart),
  All-reverse (IsFound a b whole) sorted found,
)
sort_from-Rises a b whole sorted (v ∷ vs) found falls apart rest rest_apart both =
    sort_from-Rises a b whole (sink v sorted) vs
      (All-sink (IsFound a b whole) v sorted rest.0 found) (sink-IsFalling v sorted falls)
      (sink-AllApart v sorted apart both.0) rest.1 rest_apart.1
      (Apart-all v sorted vs rest_apart.0 both.1)

-- The blocks found, sorted, rise in both sequences.
pub sort_matches-Rises :
    (a b : List Text) (whole : Span) (ms : List Match)
    → All (IsFound a b whole) ms
    → AllApart (boxes ms)
    → Rises (sort_matches ms) × All (IsFound a b whole) (sort_matches ms)
unfolding sort_matches
sort_matches-Rises a b whole ms found apart =
    sort_from-Rises a b whole [] ms tt tt tt found apart (nothing ms)
