-- ===== src/Texts/Tags/Trailing.antt =====
-- utils/text/tags.go: the text held back is the longest that may begin a delimiter.
use voxigo.Prelude.{
  ℕ, zero, suc, ◌-◌, ◌≤◌, ◌<◌, ◌≡◌, ◌⊎◌, inl, inr, refl, false, List, [], ◌∷◌, some, get_elem?,
  some-inj, Text, text_eq, text_eq_iff, arith, ltb, leb, sym, ◌∙◌, Bool-cases, length, take, drop,
}
use mathlib.Core.Path.{subst}
use native.Mathlib.Nat.{le_trans}
use Prim.Native.Nat.{min}
use voxigo.Texts.Tags.{longest_from, longest_of, longest_trailing_partial_match}

-- The last `n` characters of the text begin the candidate and do not end it.
abbrev pub IsPartial : Text → Text → ℕ → Type 0
IsPartial text c n =
    (0 < n) × (n < length c) × (n ≤ length text) × (drop (length text - n) text ≡ take n c)

-- The same of some candidate.
abbrev pub IsPartialOfOne : Text → List Text → ℕ → Type 0
IsPartialOfOne text cs n = (i : ℕ) × (c : Text) × (get_elem? cs i ≡ some c) × IsPartial text c n

IsPartial-fits : (text c : Text) (n : ℕ) → IsPartial text c n → n ≤ min (length c - 1) (length text)
IsPartial-fits text c n (l, fits, within, e) = omega arith

-- A match that the loop does not find at `suc n` is no longer than `n`.
IsPartial-other :
    (text c : Text) (n k : ℕ)
    → text_eq (drop (length text - suc n) text) (take (suc n) c) ≡ false
    → k ≤ suc n
    → IsPartial text c k
    → k ≤ n
IsPartial-other text c n k other small (some_left, fits, within, e) = elim (Bool-cases (leb k n)) [
  | inl less ↦ ground arith
  | inr more ↦
      let same : k ≡ suc n = ground arith in
      let at : drop (length text - suc n) text ≡ take (suc n) c =
        subst (λ m. drop (length text - m) text ≡ take m c) same e in
      let found = (text_eq_iff (drop (length text - suc n) text) (take (suc n) c)).1 at in
      absurd (ground arith)
]

-- The loop over lengths gives a partial match or what it began with, and no match is longer.
longest_from-best :
    (text c : Text) (longest n : ℕ)
    → n ≤ min (length c - 1) (length text)
    → ((longest_from text c longest n ≡ longest) ⊎ IsPartial text c (longest_from text c longest n))
      × (longest ≤ longest_from text c longest n)
      × ((k : ℕ) → k ≤ n → IsPartial text c k → k ≤ longest_from text c longest n)
unfolding longest_from
longest_from-best text c longest zero l =
    (inl refl, omega arith, λ k small (some_left, fits, within, e). omega arith)
longest_from-best text c longest (suc n) l =
    let (found, above, best) = longest_from-best text c longest n (omega arith) in
    elim (Bool-cases (ltb longest (suc n))) [
      | inl more ↦ elim (Bool-cases (text_eq (drop (length text - suc n) text) (take (suc n) c))) [
        | inl same ↦
            rw (more, same)
              (
                inr (
                  omega arith,
                  omega arith,
                  omega arith,
                  (text_eq_iff (drop (length text - suc n) text) (take (suc n) c)).0 same,
                ),
                ground arith,
                λ k small part. small,
              )
        | inr other ↦
            rw (more, other)
              (
                found,
                above,
                λ k small part. best k (IsPartial-other text c n k other small part) part,
              )
      ]
      | inr less ↦ rw less (inl refl, omega arith, λ k small part. ground arith)
    ]

found-of :
    (text d : Text) (ds : List Text) (longest u m : ℕ)
    → (u ≡ longest) ⊎ IsPartial text d u
    → (m ≡ u) ⊎ IsPartialOfOne text ds m
    → (m ≡ longest) ⊎ IsPartialOfOne text (d ∷ ds) m
found-of text d ds longest u m one (inr (i, c, at, part)) = inr (suc i, c, at, part)
found-of text d ds longest u m (inl e) (inl same) = inl (same ∙ e)
found-of text d ds longest u m (inr part) (inl same) =
    inr (0, d, refl, subst (IsPartial text d) (sym same) part)

-- The first candidate's matches are no longer than the loop over it gives, the others' no longer
-- than the rest gives.
best-of :
    (text d : Text) (ds : List Text) (u m : ℕ)
    → u ≤ m
    → ((k : ℕ) → k ≤ min (length d - 1) (length text) → IsPartial text d k → k ≤ u)
    → ((i : ℕ) (c : Text) (k : ℕ) → get_elem? ds i ≡ some c → IsPartial text c k → k ≤ m)
    → (i : ℕ) (c : Text) (k : ℕ) → get_elem? (d ∷ ds) i ≡ some c
    → IsPartial text c k
    → k ≤ m
best-of text d ds u m above best rest zero c k at part =
    let own : IsPartial text d k = subst (λ t. IsPartial text t k) (sym (some-inj at)) part in
    le_trans (best k (IsPartial-fits text d k own) own) above
best-of text d ds u m above best rest (suc i) c k at part = rest i c k at part

longest_of-best :
    (text : Text) (longest : ℕ) (cs : List Text)
    → ((longest_of text longest cs ≡ longest) ⊎ IsPartialOfOne text cs (longest_of text longest cs))
      × (longest ≤ longest_of text longest cs)
      × ((i : ℕ) (c : Text) (k : ℕ)
          → get_elem? cs i ≡ some c
          → IsPartial text c k
          → k ≤ longest_of text longest cs)
unfolding longest_of
longest_of-best text longest [] = (inl refl, omega arith, λ i c k at part. absurd (ground arith))
longest_of-best text longest (d ∷ ds) =
    let n = min (length d - 1) (length text) in
    let (one, above, best) = longest_from-best text d longest n (omega arith) in
    let (all, higher, rest) = longest_of-best text (longest_from text d longest n) ds in
    let u = longest_from text d longest n in
    (
      found-of text d ds longest u (longest_of text u ds) one all,
      le_trans above higher,
      best-of text d ds u (longest_of text u ds) higher best rest,
    )

-- The text that is held back is the longest that may begin a delimiter: the length that is returned
-- is 0 or that of an end of the text which begins one of the candidates without being all of it,
-- and no such end of any candidate is longer.
pub held_back_is_longest :
    (text : Text) (candidates : List Text)
    → let n = longest_trailing_partial_match text candidates in
      ((n ≡ 0) ⊎ IsPartialOfOne text candidates n)
      × ((i : ℕ) (c : Text) (k : ℕ) → get_elem? candidates i ≡ some c → IsPartial text c k → k ≤ n)
unfolding longest_trailing_partial_match
held_back_is_longest text candidates =
    let (found, above, best) = longest_of-best text 0 candidates in (found, best)
