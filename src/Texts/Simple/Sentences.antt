-- ===== src/Texts/Simple/Sentences.antt =====
-- utils/text/aggregator.go: what comes in by sentence leaves as it came, but for spaces.
use mathlib.Core.List.{append_assoc, append-nil, reverse, reverse_aux, reverse-reverse}
use voxigo.Prelude.{
  ℕ, ◌≤◌, ◌==◌, ◌≡◌, inl, inr, refl, sym, ap, ◌∙◌, Bool, true, false, not, Option, some, List, [],
  ◌∷◌, ◌++◌, Text, arith, leb, keep_if, Bool-cases, length, take, drop, take-append-drop,
}
use voxigo.Texts.Simple.{
  SimpleAggregator, Aggregation, sentence_of, trim_left, trim, append_to, cut_sentence, is_space,
  is_sentence_ending, check_when, check_sentence_with_lookahead, aggregate_sentences, aggregate,
  is_by_token,
}

-- The text that left.
abbrev pub spoken : List Aggregation → Text
spoken [] = []
spoken (a ∷ out) = a.text ++ spoken out

pub spoken-append : (xs ys : List Aggregation) → spoken (xs ++ ys) ≡ spoken xs ++ spoken ys
spoken-append [] ys = refl
spoken-append (x ∷ xs) ys =
    ap (λ t. x.text ++ t) (spoken-append xs ys) ∙ sym (append_assoc x.text (spoken xs) (spoken ys))

-- A text without its spaces.
abbrev pub unspaced : Text → Text
unspaced t = keep_if (λ c. not (c == 32)) t

unspaced-append : (s t : Text) → unspaced (s ++ t) ≡ unspaced s ++ unspaced t
unspaced-append [] t = refl
unspaced-append (c ∷ s) t = elim (Bool-cases (c == 32)) [
  | inl e ↦ rw e (unspaced-append s t)
  | inr e ↦ rw e (ap (λ r. c ∷ r) (unspaced-append s t))
]

unspaced-reverse_aux :
    (s t : Text) → unspaced (reverse_aux s t) ≡ reverse_aux (unspaced s) (unspaced t)
unspaced-reverse_aux [] t = refl
unspaced-reverse_aux (c ∷ s) t = elim (Bool-cases (c == 32)) [
  | inl e ↦ unspaced-reverse_aux s (c ∷ t) ∙ rw e refl
  | inr e ↦ unspaced-reverse_aux s (c ∷ t) ∙ rw e refl
]

unspaced-trim_left : (s : Text) → unspaced (trim_left s) ≡ unspaced s
unspaced-trim_left [] = refl
unspaced-trim_left (c ∷ s) = elim (Bool-cases (c == 32)) [
  | inl e ↦ rw e (unspaced-trim_left s)
  | inr e ↦ let same : trim_left (c ∷ s) ≡ c ∷ s = rw e refl in ap unspaced same
]

unspaced-trim : (s : Text) → unspaced (trim s) ≡ unspaced s
unfolding trim
unspaced-trim s =
    unspaced-reverse_aux (trim_left (reverse (trim_left s))) []
    ∙ ap reverse (unspaced-trim_left (reverse (trim_left s)))
    ∙ ap reverse (unspaced-reverse_aux (trim_left s) [])
    ∙ reverse-reverse (unspaced (trim_left s))
    ∙ unspaced-trim_left s

-- What a step leaves, where `text` has to be spoken or stay.
abbrev Kept : Text → Option (SimpleAggregator × List Aggregation) → Type 0
Kept text o =
    (b : SimpleAggregator) × (out : List Aggregation) × (o ≡ some (b, out))
    × (unspaced (spoken out ++ b.text) ≡ unspaced text)

cut_sentence-Kept :
    (end : ℕ) (a : SimpleAggregator) → end ≤ length a.text → Kept a.text (cut_sentence end a)
unfolding cut_sentence
cut_sentence-Kept end a fits = elim (Bool-cases (end == 0)) [
  | inl e ↦ (a, [], rw e refl, refl)
  | inr e ↦
      let within : leb end (length a.text) ≡ true = ground arith in
      let head = take end a.text in
      let tail = drop end a.text in
      let said = sentence_of (trim head) ∷ [] in
      (
        record a { text = tail },
        said,
        rw (e, within) refl,
        ap (λ t. unspaced (t ++ tail)) (append-nil (trim head))
            ∙ unspaced-append (trim head) tail
            ∙ ap (λ t. t ++ unspaced tail) (unspaced-trim head)
            ∙ sym (unspaced-append head tail)
            ∙ ap unspaced (take-append-drop end a.text),
      )
]

module _ (match_end_of_sentence : Text → ℕ)
    (ends_inside : (t : Text) → match_end_of_sentence t ≤ length t) where
  check_when-Kept :
      (waiting : Bool) (c : ℕ) (a : SimpleAggregator)
      → Kept a.text (check_when match_end_of_sentence waiting c a)
  unfolding check_when
  check_when-Kept false c a = elim (Bool-cases (is_sentence_ending c)) [
    | inl ends ↦ (record a { needs_lookahead = true }, [], rw ends refl, refl)
    | inr other ↦ (a, [], rw other refl, refl)
  ]
  check_when-Kept true c a = elim (Bool-cases (is_space c)) [
    | inl space ↦ (a, [], rw space refl, refl)
    | inr other ↦
        let (b, out, f, kept) =
          cut_sentence-Kept (match_end_of_sentence a.text) (record a { needs_lookahead = false })
            (ends_inside a.text) in
        (b, out, rw other f, kept)
  ]

  aggregate_sentences-Kept :
      (text : Text) (a : SimpleAggregator)
      → Kept (a.text ++ text) (aggregate_sentences match_end_of_sentence text a)
  unfolding aggregate_sentences check_sentence_with_lookahead
  aggregate_sentences-Kept [] a = (a, [], refl, ap unspaced (sym (append-nil a.text)))
  aggregate_sentences-Kept (c ∷ text) a =
      let (b, out, e, kept) = check_when-Kept (append_to a c).needs_lookahead c (append_to a c) in
      let (d, more, f, rest) = aggregate_sentences-Kept text b in
      (
        d,
        out ++ more,
        rw (e, f) refl,
        ap (λ t. unspaced (t ++ d.text)) (spoken-append out more)
            ∙ ap unspaced (append_assoc (spoken out) (spoken more) d.text)
            ∙ unspaced-append (spoken out) (spoken more ++ d.text)
            ∙ ap (λ t. unspaced (spoken out) ++ t) rest
            ∙ sym (unspaced-append (spoken out) (b.text ++ text))
            ∙ ap unspaced (sym (append_assoc (spoken out) b.text text))
            ∙ unspaced-append (spoken out ++ b.text) text
            ∙ ap (λ t. t ++ unspaced text) kept
            ∙ sym (unspaced-append (a.text ++ c ∷ []) text)
            ∙ ap unspaced (append_assoc a.text (c ∷ []) text),
      )

  -- Nothing is lost by sentence: with a tokenizer that ends a sentence inside the text it is given,
  -- a call never panics, and the sentences it hands over, followed by what stays in the buffer, are
  -- what was buffered and the text that came in, but for spaces.
  pub sentences_are_kept :
      (text : Text) (a : SimpleAggregator)
      → is_by_token a.aggregation_type ≡ false
      → (b : SimpleAggregator) × (out : List Aggregation) × (aggregate match_end_of_sentence text a
          ≡ some (b, out))
        × (unspaced (spoken out ++ b.text) ≡ unspaced (a.text ++ text))
  unfolding aggregate
  sentences_are_kept text a by = rw by (aggregate_sentences-Kept text a)
