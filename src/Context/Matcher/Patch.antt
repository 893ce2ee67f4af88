-- ===== src/Context/Matcher/Patch.antt =====
-- utils/context/sequencematcher.go: the opcodes cut both sequences without gap or overlap, and turn
-- the first one into the second.
use mathlib.Core.Path.{subst}
use native.Mathlib.Nat.{zero-add, suc-add}
use voxigo.Prelude.{
  take-append-drop, ℕ, zero, suc, ◌+◌, ◌-◌, ◌≤◌, ◌<◌, ◌≡◌, inl, inr, refl, sym, ap, ◌∙◌, some, List,
  [], ◌∷◌, ◌++◌, Text, arith, Bool-cases, length, ltb, ltb→lt, take, drop,
}
use voxigo.Context.Matcher.{
  Tag, equal, replace, delete, insertion, Opcode, Match, word_at, gap, equals, opcodes_from,
  codes_of, get_opcodes,
}
use voxigo.Context.Matcher.Longest.{IsEqual}
use voxigo.Context.Matcher.Opcodes.{Steps, end, matching_blocks-Steps}

abbrev pub slice : List Text → ℕ → ℕ → List Text
slice ws i j = take (j - i) (drop i ws)

-- What an opcode writes: the words of `a` where both are equal, nothing where words of `a` are
-- deleted, and the words of `b` where they replace words or are inserted.
abbrev pub written : List Text → List Text → Tag → Opcode → List Text
written a b equal o = slice a o.i1 o.i2
written a b replace o = slice b o.j1 o.j2
written a b delete o = []
written a b insertion o = slice b o.j1 o.j2

abbrev pub patched : List Text → List Text → List Opcode → List Text
patched a b [] = []
patched a b (o ∷ ops) = written a b o.tag o ++ patched a b ops

-- The words of the first sequence that the opcodes cover.
abbrev pub covered : List Text → List Opcode → List Text
covered a [] = []
covered a (o ∷ ops) = slice a o.i1 o.i2 ++ covered a ops

drop-nil : (n : ℕ) → drop {A = Text} n [] ≡ []
drop-nil zero = refl
drop-nil (suc n) = refl

take-nil : (n : ℕ) → take {A = Text} n [] ≡ []
take-nil zero = refl
take-nil (suc n) = refl

take-append-drop_from :
    (ws : List Text) (i n : ℕ) → take n (drop i ws) ++ drop (i + n) ws ≡ drop i ws
take-append-drop_from [] i n = rw (drop-nil i, drop-nil (i + n), take-nil n) refl
take-append-drop_from (w ∷ ws) zero n = rw (zero-add n) (take-append-drop n (w ∷ ws))
take-append-drop_from (w ∷ ws) (suc i) n = rw (suc-add i n) (take-append-drop_from ws i n)

drop-word : (ws : List Text) (i : ℕ) → i < length ws → drop i ws ≡ word_at ws i ∷ drop (suc i) ws
drop-word [] i l = absurd (omega arith)
drop-word (w ∷ ws) zero l = refl
drop-word (w ∷ ws) (suc i) l = drop-word ws i (omega arith)

module _ (a b : List Text) where
  equal-slices :
      (n i j : ℕ)
      → i + n ≤ length a
      → j + n ≤ length b
      → IsEqual a b i j n
      → take n (drop i a) ≡ take n (drop j b)
  equal-slices zero i j l h e = refl
  equal-slices (suc n) i j l h e =
      let first : word_at a i ≡ word_at b j =
        ap (word_at a) (omega arith) ∙ e 0 (omega arith) ∙ ap (word_at b) (omega arith) in
      let rest = equal-slices n (suc i) (suc j) (omega arith) (omega arith) (λ t k.
        ap (word_at a) (omega arith) ∙ e (suc t) (omega arith) ∙ ap (word_at b) (omega arith)) in
      rw (drop-word a i (omega arith), drop-word b j (omega arith), first, rest) refl

  -- What a tag says of its opcode.
  abbrev pub Fits : Tag → Opcode → Type 0
  Fits equal o =
      (o.i1 < o.i2) × (o.i2 - o.i1 ≡ o.j2 - o.j1) × (slice a o.i1 o.i2 ≡ slice b o.j1 o.j2)
  Fits replace o = (o.i1 < o.i2) × (o.j1 < o.j2)
  Fits delete o = (o.i1 < o.i2) × (o.j1 ≡ o.j2)
  Fits insertion o = (o.i1 ≡ o.i2) × (o.j1 < o.j2)

  -- From `i` and `j` on, each opcode begins where the one before it ends, up to the ends of both.
  abbrev pub Tiles : ℕ → ℕ → List Opcode → Type 0
  Tiles i j [] = (i ≡ length a) × (j ≡ length b)
  Tiles i j (o ∷ ops) =
      (o.i1 ≡ i) × (o.j1 ≡ j) × (o.i1 ≤ o.i2) × (o.j1 ≤ o.j2) × Fits o.tag o × Tiles o.i2 o.j2 ops

  gap-Tiles :
      (i j : ℕ) (m : Match) (ops : List Opcode)
      → i ≤ m.a
      → j ≤ m.b
      → Tiles m.a m.b ops
      → Tiles i j (gap i j m ++ ops)
  unfolding gap
  gap-Tiles i j m ops l h t = elim (Bool-cases (ltb i m.a)) [
    | inl p ↦ elim (Bool-cases (ltb j m.b)) [
      | inl q ↦ rw (p, q) (refl, refl, l, h, (ltb→lt i m.a p, ltb→lt j m.b q), t)
      | inr q ↦ rw (p, q) (refl, refl, l, h, (ltb→lt i m.a p, ground arith), t)
    ]
    | inr p ↦ elim (Bool-cases (ltb j m.b)) [
      | inl q ↦ rw (p, q) (refl, refl, l, h, (ground arith, ltb→lt j m.b q), t)
      | inr q ↦
          let at_a : i ≡ m.a = ground arith in
          let at_b : j ≡ m.b = ground arith in rw (p, q) (rw (at_a, at_b) t)
    ]
  ]

  equals-Tiles :
      (m : Match) (ops : List Opcode)
      → m.a + m.size ≤ length a
      → m.b + m.size ≤ length b
      → IsEqual a b m.a m.b m.size
      → Tiles (m.a + m.size) (m.b + m.size) ops
      → Tiles m.a m.b (equals m ++ ops)
  unfolding equals
  equals-Tiles m ops l h e t = elim (Bool-cases (ltb 0 m.size)) [
    | inl p ↦
        let width_a : m.a + m.size - m.a ≡ m.size = omega arith in
        let width_b : m.b + m.size - m.b ≡ m.size = omega arith in
        let size = ltb→lt 0 m.size p in
        rw p (
          refl,
          refl,
          omega arith,
          omega arith,
          (
            omega arith,
            width_a ∙ sym width_b,
            rw (width_a, width_b) (equal-slices m.size m.a m.b l h e),
          ),
          t,
        )
    | inr p ↦
        let at_a : m.a ≡ m.a + m.size = ground arith in
        let at_b : m.b ≡ m.b + m.size = ground arith in
        rw p (
          subst (λ i. Tiles i m.b ops) (sym at_a)
            (subst (λ j. Tiles (m.a + m.size) j ops) (sym at_b) t))
  ]

  Steps-fits : (i j : ℕ) (ms : List Match) → Steps a b i j ms → (i ≤ length a) × (j ≤ length b)
  Steps-fits i j [] s = s
  Steps-fits i j (m ∷ ms) (p, q, e, s) =
      let (l, h) = Steps-fits (m.a + m.size) (m.b + m.size) ms s in (omega arith, omega arith)

  opcodes_from-Tiles :
      (i j : ℕ) (ms : List Match)
      → Steps a b i j (ms ++ end a b ∷ [])
      → Tiles i j (opcodes_from i j (ms ++ end a b ∷ []))
  unfolding opcodes_from
  opcodes_from-Tiles i j [] (p, q, e, s) =
      gap-Tiles i j (end a b) _ p q
        (equals-Tiles (end a b) [] (omega arith) (omega arith) e (omega arith, omega arith))
  opcodes_from-Tiles i j (m ∷ ms) (p, q, e, s) =
      let (l, h) = Steps-fits (m.a + m.size) (m.b + m.size) (ms ++ end a b ∷ []) s in
      gap-Tiles i j m _ p q
        (equals-Tiles m _ l h e (opcodes_from-Tiles (m.a + m.size) (m.b + m.size) ms s))

  -- The opcodes cut both sequences from front to end without gap or overlap: for any two sequences
  -- the diff ends, its first opcode begins at 0 in both, each begins where the one before it ends,
  -- and the last one ends where both do. An `equal` spans the same words in both, a `replace` some
  -- in each, a `delete` some of the first only, an insertion some of the second only.
  pub opcodes_tile : (ops : List Opcode) × (get_opcodes a b ≡ some ops) × Tiles 0 0 ops
  unfolding get_opcodes codes_of
  opcodes_tile =
      let (ms, found, steps) = matching_blocks-Steps a b in
      (opcodes_from 0 0 (ms ++ end a b ∷ []), ap codes_of found, opcodes_from-Tiles 0 0 ms steps)

  slice-drop :
      (ws : List Text) (i j : ℕ) (rest : List Text)
      → i ≤ j
      → rest ≡ drop j ws
      → slice ws i j ++ rest ≡ drop i ws
  slice-drop ws i j rest l e =
      let split : i + (j - i) ≡ j = omega arith in
      ap (λ r. slice ws i j ++ r) (e ∙ ap (λ n. drop n ws) (sym split))
      ∙ take-append-drop_from ws i (j - i)

  drop-all : (ws : List Text) (i : ℕ) → i ≡ length ws → drop i ws ≡ []
  drop-all [] zero e = refl
  drop-all [] (suc i) e = refl
  drop-all (w ∷ ws) zero e = absurd (omega arith)
  drop-all (w ∷ ws) (suc i) e = drop-all ws i (omega arith)

  written-drop :
      (tag : Tag) (o : Opcode) (rest : List Text)
      → o.j1 ≤ o.j2
      → Fits tag o
      → rest ≡ drop o.j2 b
      → written a b tag o ++ rest ≡ drop o.j1 b
  written-drop equal o rest l (p, w, e) h = ap (λ s. s ++ rest) e ∙ slice-drop b o.j1 o.j2 rest l h
  written-drop replace o rest l f h = slice-drop b o.j1 o.j2 rest l h
  written-drop delete o rest l (p, e) h = h ∙ ap (λ n. drop n b) (sym e)
  written-drop insertion o rest l f h = slice-drop b o.j1 o.j2 rest l h

  patched-drop : (i j : ℕ) (ops : List Opcode) → Tiles i j ops → patched a b ops ≡ drop j b
  patched-drop i j [] (p, q) = sym (drop-all b j q)
  patched-drop i j (o ∷ ops) (p, q, l, h, f, t) =
      written-drop o.tag o (patched a b ops) h f (patched-drop o.i2 o.j2 ops t)
      ∙ ap (λ n. drop n b) q

  covered-drop : (i j : ℕ) (ops : List Opcode) → Tiles i j ops → covered a ops ≡ drop i a
  covered-drop i j [] (p, q) = sym (drop-all a i p)
  covered-drop i j (o ∷ ops) (p, q, l, h, f, t) =
      slice-drop a o.i1 o.i2 (covered a ops) l (covered-drop o.i2 o.j2 ops t) ∙ ap (λ n. drop n a) p

  -- Applying the diff gives the second sequence: for any two sequences the diff ends, and keeping
  -- the words of the first that are equal, dropping those that are deleted, and writing the words
  -- of the second that replace words or are inserted, gives the second sequence back; and the
  -- opcodes cover the first sequence, each word once and in order.
  pub opcodes_patch :
      (ops : List Opcode) × (get_opcodes a b ≡ some ops)
      × (patched a b ops ≡ b)
      × (covered a ops ≡ a)
  opcodes_patch =
      let (ops, codes, tiles) = opcodes_tile in
      (ops, codes, patched-drop 0 0 ops tiles, covered-drop 0 0 ops tiles)
