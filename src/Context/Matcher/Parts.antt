-- ===== src/Context/Matcher/Parts.antt =====
-- utils/context/sequencematcher.go: where spans and blocks lie, and what the loop over them keeps.
use voxigo.Prelude.{
  ℕ, suc, ◌+◌, ◌-◌, ◌≤◌, ◌<◌, ◌⊎◌, inl, inr, List, [], ◌∷◌, ◌++◌, map, Text, arith, All, All-append,
}
use voxigo.Context.Matcher.{Match, Span}
use voxigo.Context.Matcher.Longest.{IsBlock}

abbrev pub box : Match → Span
box m = record { alo = m.a; ahi = m.a + m.size; blo = m.b; bhi = m.b + m.size }

-- One part of the table lies wholly before another, in both sequences; and two lie apart.
abbrev pub Precedes : Span → Span → Type 0
Precedes x y = (x.ahi ≤ y.alo) × (x.bhi ≤ y.blo)

abbrev pub Apart : Span → Span → Type 0
Apart x y = Precedes x y ⊎ Precedes y x

abbrev pub AllApart : List Span → Type 0
AllApart [] = Unit
AllApart (x ∷ xs) = All (Apart x) xs × AllApart xs

abbrev pub Within : Span → Span → Type 0
Within x s = (s.alo ≤ x.alo) × (x.ahi ≤ s.ahi) × (s.blo ≤ x.blo) × (x.bhi ≤ s.bhi)

pub Apart-Within : (x s y : Span) → Within x s → Apart s y → Apart x y
Apart-Within x s y w (inl p) = inl (omega arith, omega arith)
Apart-Within x s y w (inr p) = inr (omega arith, omega arith)

pub Within-trans : (x s t : Span) → Within x s → Within s t → Within x t
Within-trans x s t w v = (omega arith, omega arith, omega arith, omega arith)

pub Apart-flip : (x y : Span) → Apart x y → Apart y x
Apart-flip x y (inl p) = inr p
Apart-flip x y (inr p) = inl p

pub All-Within : (x s : Span) (ys : List Span) → Within x s → All (Apart s) ys → All (Apart x) ys
All-Within x s [] w h = tt
All-Within x s (y ∷ ys) w h = (Apart-Within x s y w h.0, All-Within x s ys w h.1)

abbrev pub boxes : List Match → List Span
boxes ms = map box ms

pub AllApart-append :
    (xs : List Span) (x : Span) → AllApart xs → All (Apart x) xs → AllApart (xs ++ x ∷ [])
AllApart-append [] x h p = (tt, tt)
AllApart-append (y ∷ ys) x h p =
    (All-append (Apart y) ys (x ∷ []) h.0 (Apart-flip x y p.0, tt), AllApart-append ys x h.1 p.1)

-- A span on the stack is not empty in either sequence, up to the first one.
abbrev pub IsProper : Span → Type 0
IsProper s = (s.alo ≤ s.ahi) × (s.blo ≤ s.bhi)

abbrev pub IsFound : List Text → List Text → Span → Match → Type 0
IsFound a b whole m = IsBlock a b whole m × (0 < m.size)

-- What the loop keeps: the spans on the stack and the blocks found lie apart.
pub record Keeps (a b : List Text) (whole : Span) (queue : List Span) (matches : List Match)
    : Type 0 where
  pub proper : All IsProper queue
  pub inside : All (λ s. Within s whole) queue
  pub queue_apart : AllApart queue
  pub found : All (IsFound a b whole) matches
  pub matches_apart : AllApart (boxes matches)
  pub both_apart : All (λ s. All (Apart s) (boxes matches)) queue

-- The work left: a span costs twice its width and one more.
abbrev pub cost : List Span → ℕ
cost [] = 0
cost (s ∷ queue) = suc ((s.ahi - s.alo) + (s.ahi - s.alo)) + cost queue
