-- ===== src/Context/Matcher/Longest.antt =====
-- utils/context/sequencematcher.go: what `findLongestMatch` finds is a block of equal words inside
-- the windows.
use native.Mathlib.Decide.{dec_lt}
use voxigo.Prelude.{
  ltb→lt, if-cases, and-parts, ℕ, zero, suc, ◌+◌, ◌-◌, ◌≤◌, ◌<◌, ◌≡◌, inl, inr, sym, ap, ◌∙◌, List,
  [], ◌∷◌, Text, text_eq, text_eq_iff, arith, ltb, ◌==◌, ==_iff, Bool-cases, length, lookup, insert,
  All, All-append,
}
use voxigo.Context.Matcher.{
  Match, Span, Index, Lengths, word_at, places, index_from, length_at, length_before, row, rows,
  extend_back, extend_forth, find_longest_match,
}

-- `size` words from `i` on and from `j` on are the same.
abbrev pub IsEqual : List Text → List Text → ℕ → ℕ → ℕ → Type 0
IsEqual a b i j size = (t : ℕ) → t < size → word_at a (i + t) ≡ word_at b (j + t)

-- A block of equal words inside a span.
pub record IsBlock (a b : List Text) (s : Span) (m : Match) : Type 0 where
  pub from_a : s.alo ≤ m.a
  pub to_a : m.a + m.size ≤ s.ahi
  pub from_b : s.blo ≤ m.b
  pub to_b : m.b + m.size ≤ s.bhi
  pub same : IsEqual a b m.a m.b m.size

-- A place of a word in `b`.
abbrev Places : List Text → Text → List ℕ → Type 0
Places b s js = All (λ j. word_at b j ≡ s) js

abbrev pub IsIndex : List Text → Index → Type 0
IsIndex b m = All (λ (e : Text × List ℕ). Places b e.0 e.1) m

lookup-Places :
    (b : List Text) (s : Text) (m : Index) → IsIndex b m → Places b s (places (lookup s m))
lookup-Places b s [] h = tt
lookup-Places b s ((t, js) ∷ m) h = elim (Bool-cases (text_eq t s)) [
  | inl e ↦ rw e (rw (← (text_eq_iff t s).0 e) (h.0))
  | inr e ↦ rw e (lookup-Places b s m h.1)
]

insert-IsIndex :
    (b : List Text) (s : Text) (js : List ℕ) (m : Index)
    → IsIndex b m
    → Places b s js
    → IsIndex b (insert s js m)
insert-IsIndex b s js [] h p = (p, tt)
insert-IsIndex b s js ((t, ks) ∷ m) h p = elim (Bool-cases (text_eq t s)) [
  | inl e ↦ rw e (rw ((text_eq_iff t s).0 e) p, h.1)
  | inr e ↦ rw e (h.0, insert-IsIndex b s js m h.1 p)
]

index_from-IsIndex :
    (b : List Text) (j : ℕ) (ws : List Text) (m : Index)
    → ((t : ℕ) → t < length ws → word_at b (j + t) ≡ word_at ws t)
    → IsIndex b m
    → IsIndex b (index_from j ws m)
unfolding index_from
index_from-IsIndex b j [] m f h = h
index_from-IsIndex b j (s ∷ ws) m f h =
    let here_at : word_at b j ≡ s = ap (word_at b) (omega arith) ∙ f 0 (omega arith) in
    index_from-IsIndex b (suc j) ws _
      (λ t l. ap (word_at b) (omega arith) ∙ f (suc t) (omega arith))
      (insert-IsIndex b s _ m h
        (All-append _ (places (lookup s m)) (j ∷ []) (lookup-Places b s m h) (here_at, tt)))

pub whole-IsIndex : (b : List Text) → IsIndex b (index_from 0 b [])
whole-IsIndex b = index_from-IsIndex b 0 b [] (λ t l. ap (word_at b) (omega arith)) tt

module _ (a b : List Text) (s : Span) where
  -- A block of equal words that ends before `i` and before `j`.
  abbrev Ends : ℕ → ℕ → ℕ → Type 0
  Ends i j k = (s.alo + k ≤ i) × (s.blo + k ≤ j) × IsEqual a b (i - k) (j - k) k

  abbrev AllEnd : ℕ → Lengths → Type 0
  AllEnd i m = All (λ (e : ℕ × ℕ). Ends i (suc e.0) e.1) m

  none-Ends : (i j : ℕ) → s.alo ≤ i → s.blo ≤ j → Ends i j 0
  none-Ends i j l h = (omega arith, omega arith, λ t n. absurd (omega arith))

  length_at-Ends :
      (i j : ℕ) (m : Lengths)
      → s.alo ≤ i
      → s.blo ≤ suc j
      → AllEnd i m
      → Ends i (suc j) (length_at j m)
  unfolding length_at
  length_at-Ends i j [] l h e = none-Ends i (suc j) l h
  length_at-Ends i j ((n, k) ∷ m) l h e = elim (Bool-cases (n == j)) [
    | inl q ↦ rw q (rw (← (==_iff n j).0 q) (e.0))
    | inr q ↦ rw q (length_at-Ends i j m l h e.1)
  ]

  length_before-Ends :
      (i j : ℕ) (m : Lengths) → s.alo ≤ i → s.blo ≤ j → AllEnd i m → Ends i j (length_before j m)
  unfolding length_before
  length_before-Ends i zero m l h e = none-Ends i 0 l h
  length_before-Ends i (suc j) m l h e = length_at-Ends i j m l h e

  longer-Ends : (i j k : ℕ) → Ends i j k → word_at a i ≡ word_at b j → Ends (suc i) (suc j) (suc k)
  longer-Ends i j k (l, h, same) q = (
    omega arith,
    omega arith,
    λ t n. elim (dec_lt t k) [
      | yes p ↦ ap (word_at a) (omega arith) ∙ same t p ∙ ap (word_at b) (omega arith)
      | no p ↦ ap (word_at a) (omega arith) ∙ q ∙ ap (word_at b) (omega arith)
    ],
  )

  ended-IsBlock :
      (i j k : ℕ)
      → Ends i j k
      → i ≤ s.ahi
      → j ≤ s.bhi
      → IsBlock a b s (record { a = i - k; b = j - k; size = k })
  ended-IsBlock i j k (l, h, same) p q = record {
    from_a = omega arith;
    to_a = omega arith;
    from_b = omega arith;
    to_b = omega arith;
    same = same;
  }

  row-holds :
      (i : ℕ) (before : Lengths) (js : List ℕ) (new : Lengths) (best : Match)
      → s.alo ≤ i
      → i < s.ahi
      → AllEnd i before
      → All (λ j. word_at b j ≡ word_at a i) js
      → AllEnd (suc i) new
      → IsBlock a b s best
      → let r = row s.blo s.bhi i before js new best in AllEnd (suc i) r.0 × IsBlock a b s r.1
  unfolding row
  row-holds i before [] new best l h e js n v = (n, v)
  row-holds i before (j ∷ js) new best l h e (q, qs) n v = elim (Bool-cases (ltb j s.blo)) [
    | inl low ↦ rw low (row-holds i before js new best l h e qs n v)
    | inr high ↦ elim (Bool-cases (ltb j s.bhi)) [
      | inr past ↦ rw (high, past) (n, v)
      | inl within ↦
          let k = length_before j before in
          let ends = longer-Ends i j k (length_before-Ends i j before l (ground arith) e) (sym q) in
          let fits : suc j ≤ s.bhi = ltb→lt j s.bhi within in
          rw (high, within)
            (row-holds i before js ((j, suc k) ∷ new) _ l h e qs (ends, n)
              (if-cases (IsBlock a b s) (ltb best.size (suc k))
                (λ longer. ended-IsBlock (suc i) (suc j) (suc k) ends h fits) (λ other. v)))
    ]
  ]

  rows-IsBlock :
      (b2j : Index) (n i : ℕ) (before : Lengths) (best : Match)
      → IsIndex b b2j
      → s.alo ≤ i
      → i + n ≤ s.ahi
      → AllEnd i before
      → IsBlock a b s best
      → IsBlock a b s (rows a b2j s.blo s.bhi n i before best)
  unfolding rows
  rows-IsBlock b2j zero i before best index l h e v = v
  rows-IsBlock b2j (suc n) i before best index l h e v =
      let (e', v') =
        row-holds i before (places (lookup (word_at a i) b2j)) [] best l (omega arith) e
          (lookup-Places b (word_at a i) b2j index) tt v in
      rows-IsBlock b2j n (suc i) _ _ index (omega arith) (omega arith) e' v'

  back-IsBlock :
      (m : Match)
      → s.alo < m.a
      → s.blo < m.b
      → word_at a (m.a - 1) ≡ word_at b (m.b - 1)
      → IsBlock a b s m
      → IsBlock a b s (record { a = m.a - 1; b = m.b - 1; size = suc m.size })
  back-IsBlock m l h q v = record {
    from_a = omega arith;
    to_a = omega (arith, v.to_a);
    from_b = omega arith;
    to_b = omega (arith, v.to_b);
    same = λ t n. elim (dec_lt 0 t) [
      | yes p ↦
          ap (word_at a) (omega arith) ∙ v.same (t - 1) (omega arith) ∙ ap (word_at b) (omega arith)
      | no p ↦ ap (word_at a) (omega arith) ∙ q ∙ ap (word_at b) (omega arith)
    ];
  }

  extend_back-IsBlock :
      (n : ℕ) (m : Match) → IsBlock a b s m → IsBlock a b s (extend_back a b s.alo s.blo n m)
  unfolding extend_back
  extend_back-IsBlock zero m v = v
  extend_back-IsBlock (suc n) m v =
      if-cases (IsBlock a b s) _
        (λ more.
          let (front, q) = and-parts _ _ more in
          let (l, h) = and-parts _ _ front in
          extend_back-IsBlock n _
            (back-IsBlock m (ltb→lt _ _ l) (ltb→lt _ _ h) ((text_eq_iff _ _).0 q) v))
        (λ stop. v)

  forth-IsBlock :
      (m : Match)
      → m.a + m.size < s.ahi
      → m.b + m.size < s.bhi
      → word_at a (m.a + m.size) ≡ word_at b (m.b + m.size)
      → IsBlock a b s m
      → IsBlock a b s (record m { size = suc m.size })
  forth-IsBlock m l h q v = record {
    from_a = v.from_a;
    to_a = omega arith;
    from_b = v.from_b;
    to_b = omega arith;
    same = λ t n. elim (dec_lt t m.size) [
      | yes p ↦ v.same t p
      | no p ↦ ap (word_at a) (omega arith) ∙ q ∙ ap (word_at b) (omega arith)
    ];
  }

  extend_forth-IsBlock :
      (n : ℕ) (m : Match) → IsBlock a b s m → IsBlock a b s (extend_forth a b s.ahi s.bhi n m)
  unfolding extend_forth
  extend_forth-IsBlock zero m v = v
  extend_forth-IsBlock (suc n) m v =
      if-cases (IsBlock a b s) _
        (λ more.
          let (front, q) = and-parts _ _ more in
          let (l, h) = and-parts _ _ front in
          extend_forth-IsBlock n _
            (forth-IsBlock m (ltb→lt _ _ l) (ltb→lt _ _ h) ((text_eq_iff _ _).0 q) v))
        (λ stop. v)

  empty-IsBlock :
      s.alo ≤ s.ahi → s.blo ≤ s.bhi → IsBlock a b s (record { a = s.alo; b = s.blo; size = 0 })
  empty-IsBlock l h = record {
    from_a = omega arith;
    to_a = omega arith;
    from_b = omega arith;
    to_b = omega arith;
    same = λ t n. absurd (omega arith);
  }

  pub find_longest_match-IsBlock :
      (b2j : Index)
      → IsIndex b b2j
      → s.alo ≤ s.ahi
      → s.blo ≤ s.bhi
      → IsBlock a b s (find_longest_match a b b2j s)
  unfolding find_longest_match
  find_longest_match-IsBlock b2j index l h = extend_forth-IsBlock _ _ (
      extend_back-IsBlock _ _ (
        rows-IsBlock b2j (s.ahi - s.alo) s.alo [] _ index (omega arith) (omega arith) tt
          (empty-IsBlock l h)))
