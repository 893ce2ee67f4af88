-- ===== src/Context/Matcher/Opcodes.antt =====
-- utils/context/sequencematcher.go: the opcodes cut both sequences without gap or overlap.
use native.Mathlib.Decide.{dec_lt}
use mathlib.Core.List.{append-nil}
use voxigo.Prelude.{
  ◌&&◌, ℕ, suc, ◌+◌, ◌-◌, ◌≤◌, ◌≡◌, inl, inr, ap, ◌∙◌, some, List, [], ◌∷◌, ◌++◌, Text, arith,
  Bool-cases, All, length, ltb, ◌==◌, ==_iff, and-parts,
}
use voxigo.Context.Matcher.{
  Match, Span, word_at, collapse, block_if, sort_matches, matching_blocks, blocks_of, index_from,
  gap,
}
use voxigo.Context.Matcher.Longest.{IsEqual, whole-IsIndex}
use voxigo.Context.Matcher.Parts.{IsFound, Keeps}
use voxigo.Context.Matcher.Blocks.{find_matches-ends}
use voxigo.Context.Matcher.Order.{Rises, sort_matches-Rises}

module _ (a b : List Text) where
  -- Blocks of equal words, one behind the other, from `i` and from `j` on.
  abbrev pub Steps : ℕ → ℕ → List Match → Type 0
  Steps i j [] = (i ≤ length a) × (j ≤ length b)
  Steps i j (m ∷ ms) =
      (i ≤ m.a) × (j ≤ m.b) × IsEqual a b m.a m.b m.size × Steps (m.a + m.size) (m.b + m.size) ms

  abbrev whole : Span
  whole = record { alo = 0; ahi = length a; blo = 0; bhi = length b }

  rising-Steps :
      (i j : ℕ) (ms : List Match)
      → i ≤ length a
      → j ≤ length b
      → All (λ m. (i ≤ m.a) × (j ≤ m.b)) ms
      → Rises ms
      → All (IsFound a b whole) ms
      → Steps i j ms
  rising-Steps i j [] l h p r f = (l, h)
  rising-Steps i j (m ∷ ms) l h p r ((v, n), fs) =
      (p.0.0, p.0.1, v.same, rising-Steps (m.a + m.size) (m.b + m.size) ms v.to_a v.to_b r.0 r.1 fs)

  from_start : (ms : List Match) → All (λ m. (0 ≤ m.a) × (0 ≤ m.b)) ms
  from_start [] = tt
  from_start (m ∷ ms) = ((omega arith, omega arith), from_start ms)

  Steps-weaken : (i j i' j' : ℕ) (ms : List Match) → i ≤ i' → j ≤ j' → Steps i' j' ms → Steps i j ms
  Steps-weaken i j i' j' [] l h s = (omega arith, omega arith)
  Steps-weaken i j i' j' (m ∷ ms) l h (p, q, e, s) = (omega arith, omega arith, e, s)

  block_if-Steps :
      (i j : ℕ) (run : Match) (ms : List Match)
      → i ≤ run.a
      → j ≤ run.b
      → IsEqual a b run.a run.b run.size
      → Steps (run.a + run.size) (run.b + run.size) ms
      → Steps i j (block_if run ++ ms)
  block_if-Steps i j run ms l h e s = elim (Bool-cases (ltb 0 run.size)) [
    | inl some_size ↦ rw some_size (l, h, e, s)
    | inr no_size ↦
        rw no_size
          (Steps-weaken i j (run.a + run.size) (run.b + run.size) ms (omega arith) (omega arith) s)
  ]

  -- Two adjacent blocks of equal words are one.
  IsEqual-joined :
      (run m : Match)
      → run.a + run.size ≡ m.a
      → run.b + run.size ≡ m.b
      → IsEqual a b run.a run.b run.size
      → IsEqual a b m.a m.b m.size
      → IsEqual a b run.a run.b (run.size + m.size)
  IsEqual-joined run m p q e f t n = elim (dec_lt t run.size) [
    | yes l ↦ e t l
    | no l ↦
        ap (word_at a) (omega arith) ∙ f (t - run.size) (omega arith) ∙ ap (word_at b) (omega arith)
  ]

  collapse-Steps :
      (i j : ℕ) (run : Match) (ms : List Match)
      → i ≤ run.a
      → j ≤ run.b
      → IsEqual a b run.a run.b run.size
      → Steps (run.a + run.size) (run.b + run.size) ms
      → Steps i j (collapse run ms)
  unfolding collapse
  collapse-Steps i j run [] l h e s =
      rw (← append-nil (block_if run)) (block_if-Steps i j run [] l h e s)
  collapse-Steps i j run (m ∷ ms) l h e (p, q, f, s) =
      elim (Bool-cases (run.a + run.size == m.a && run.b + run.size == m.b)) [
        | inl adjacent ↦
            let (x, y) = and-parts (run.a + run.size == m.a) (run.b + run.size == m.b) adjacent in
            let at_a = (==_iff (run.a + run.size) m.a).0 x in
            let at_b = (==_iff (run.b + run.size) m.b).0 y in
            rw adjacent (
              collapse-Steps i j (record run { size = run.size + m.size }) ms l h
                (IsEqual-joined run m at_a at_b e f)
                (Steps-weaken _ _ (m.a + m.size) (m.b + m.size) ms (omega arith) (omega arith) s))
        | inr gap ↦ rw gap (
            block_if-Steps i j run (collapse m ms) l h e
              (collapse-Steps (run.a + run.size) (run.b + run.size) m ms p q f s))
      ]

  abbrev pub end : Match
  end = record { a = length a; b = length b; size = 0 }

  ended-Steps : (i j : ℕ) (ms : List Match) → Steps i j ms → Steps i j (ms ++ end ∷ [])
  ended-Steps i j [] (l, h) = (l, h, (λ t n. absurd (omega arith)), (omega arith, omega arith))
  ended-Steps i j (m ∷ ms) (l, h, e, s) = (l, h, e, ended-Steps (m.a + m.size) (m.b + m.size) ms s)

  start-Keeps : Keeps a b whole (whole ∷ []) []
  start-Keeps = record {
    proper = ((omega arith, omega arith), tt);
    inside = ((omega arith, omega arith, omega arith, omega arith), tt);
    queue_apart = (tt, tt);
    found = tt;
    matches_apart = tt;
    both_apart = (tt, tt);
  }

  -- The matching blocks are found, and follow one another up to the ends.
  pub matching_blocks-Steps :
      (ms : List Match) × (matching_blocks a b ≡ some (ms ++ end ∷ [])) × Steps 0 0 (ms ++ end ∷ [])
  unfolding matching_blocks blocks_of
  matching_blocks-Steps =
      let (found, runs, all_found, apart) =
        find_matches-ends a b whole (index_from 0 b []) (suc (length a + length a)) (whole ∷ []) []
          (whole-IsIndex b) (omega arith) start-Keeps in
      let (rises, sorted_found) = sort_matches-Rises a b whole found all_found apart in
      let start : Match = record { a = 0; b = 0; size = 0 } in
      let ms = collapse start (sort_matches found) in
      (
        ms,
        ap (blocks_of a b) runs,
        ended-Steps 0 0 ms (
            collapse-Steps 0 0 start (sort_matches found) (omega arith) (omega arith)
              (λ t n. absurd (omega arith))
              (rising-Steps 0 0 (sort_matches found) (omega arith) (omega arith)
                (from_start (sort_matches found)) rises sorted_found)),
      )
