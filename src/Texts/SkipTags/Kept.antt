-- ===== src/Texts/SkipTags/Kept.antt =====
-- utils/text/skiptags.go: what passes by token leaves as it came.
use mathlib.Core.List.{append_assoc, append-nil}
use voxigo.Prelude.{
  ℕ, ◌≤◌, ◌==◌, ◌≡◌, inl, inr, refl, sym, ap, ◌∙◌, true, Option, none, some, List, [], ◌∷◌, ◌++◌,
  Text, arith, leb, Bool-cases, length, length-append, take, drop, take-append-drop, contains,
}
use voxigo.Texts.Tags.{StartEndTags, find_tag, parse_start_end_tags}
use voxigo.Texts.Simple
use voxigo.Texts.Simple.{Aggregation, token, is_by_token, and_then, new_simple_aggregator}
use voxigo.Texts.Simple.Sentences.{spoken, spoken-append}
use voxigo.Texts.SkipTags.{
  SkipTagsAggregator, new_skip_tags_aggregator, scan_character, scan_text, release_if, release,
  hand_over, aggregate, reset, flush_token, flush,
}

abbrev pub spoken_of : Option Aggregation → Text
spoken_of none = []
spoken_of (some a) = a.text

abbrev pub flat : List Text → Text
flat [] = []
flat (t ∷ ts) = t ++ flat ts

-- By token a flush gives all of the buffer.
flush_token-spoken :
    (text : Text) (a : SkipTagsAggregator)
    → a.simple.text ≡ text
    → (spoken_of (flush_token text a).1 ≡ text) × ((flush_token text a).0.simple.text ≡ [])
unfolding flush_token reset Simple.reset
flush_token-spoken [] a e = (refl, e)
flush_token-spoken (c ∷ s) a e = (refl, refl)

flush-spoken :
    (a : SkipTagsAggregator)
    → is_by_token a.simple.aggregation_type ≡ true
    → (spoken_of (flush a).1 ≡ a.simple.text) × ((flush a).0.simple.text ≡ [])
unfolding flush
flush-spoken a by = rw by (flush_token-spoken a.simple.text a refl)

-- The scan goes on from a place inside the buffer.
abbrev pub Fits : SkipTagsAggregator → Type 0
Fits a = a.current_tag_index ≤ length a.simple.text

find_tag-fits :
    (rest : Text) (index len : ℕ) (tags : List StartEndTags)
    → index ≤ len
    → (find_tag rest index len tags).1 ≤ len
unfolding find_tag
find_tag-fits rest index len [] l = l
find_tag-fits rest index len (tag ∷ tags) l = ground (arith, find_tag-fits rest index len tags l)

parse-fits :
    (text : Text) (tags : List StartEndTags) (current : Option StartEndTags) (index : ℕ)
    → index ≤ length text
    → (tag : Option StartEndTags) × (i : ℕ) × (parse_start_end_tags text tags current index
        ≡ some (tag, i))
      × (i ≤ length text)
unfolding parse_start_end_tags
parse-fits text tags (some current) index l =
    let e : leb index (length text) ≡ true = ground arith in
    elim (Bool-cases (contains (drop index text) current.end)) [
      | inl closed ↦ (none, length text, rw (e, closed) refl, omega arith)
      | inr more ↦ (some current, index, rw (e, more) refl, l)
    ]
parse-fits text [] none index l = (none, index, refl, l)
parse-fits text (tag ∷ tags) none index l =
    let e : leb index (length text) ≡ true = ground arith in
    let rest = drop index text in
    let found = find_tag rest index (length text) (tag ∷ tags) in
    (found.0, found.1, rw e refl, find_tag-fits rest index (length text) (tag ∷ tags) l)

-- What a scan leaves of the aggregator, where the buffer grows by `text`.
abbrev Grown : Text → SkipTagsAggregator → Option SkipTagsAggregator → Type 0
Grown text a o =
    (b : SkipTagsAggregator) × (o ≡ some b)
    × Fits b
    × (b.simple.text ≡ a.simple.text ++ text)
    × (b.simple.aggregation_type ≡ a.simple.aggregation_type)

scan_character-Grown :
    (c : ℕ) (a : SkipTagsAggregator) → Fits a → Grown (c ∷ []) a (scan_character c a)
unfolding scan_character
scan_character-Grown c a fits =
    let longer = length-append a.simple.text (c ∷ []) in
    let (tag, i, e, within) =
      parse-fits (a.simple.text ++ c ∷ []) a.tags a.current_tag a.current_tag_index (omega arith) in
    let b = record a {
      simple = record (a.simple) { text = a.simple.text ++ c ∷ [] };
      current_tag = tag;
      current_tag_index = i;
    } in
    (b, rw e refl, within, refl, refl)

scan_text-Grown : (text : Text) (a : SkipTagsAggregator) → Fits a → Grown text a (scan_text text a)
unfolding scan_text
scan_text-Grown [] a fits = (a, refl, fits, sym (append-nil a.simple.text), refl)
scan_text-Grown (c ∷ text) a fits =
    let (b, e, within, grown, same) = scan_character-Grown c a fits in
    let (d, f, inside, all, still) = scan_text-Grown text b within in
    (
      d,
      rw e f,
      inside,
      all ∙ ap (λ t. t ++ text) grown ∙ append_assoc a.simple.text (c ∷ []) text,
      still ∙ same,
    )

-- What a call by token leaves, where `text` has to come out or stay.
abbrev Passed : Text → SkipTagsAggregator → SkipTagsAggregator × List Aggregation → Type 0
Passed text a (b, out) =
    Fits b
    × (spoken out ++ b.simple.text ≡ text)
    × (b.simple.aggregation_type ≡ a.simple.aggregation_type)

hand_over-Passed :
    (size : ℕ) (a : SkipTagsAggregator) → Fits a → Passed a.simple.text a (hand_over size a)
unfolding hand_over
hand_over-Passed size a fits = elim (Bool-cases (size == 0)) [
  | inl e ↦ rw e (fits, refl, refl)
  | inr e ↦ rw e (
    omega arith,
    ap (λ t. t ++ drop size a.simple.text) (append-nil (take size a.simple.text))
        ∙ take-append-drop size a.simple.text,
    refl,
  )
]

release_if-Passed :
    (tag : Option StartEndTags) (a : SkipTagsAggregator)
    → Fits a
    → Passed a.simple.text a (release_if tag a)
unfolding release_if
release_if-Passed (some tag) a fits = (fits, refl, refl)
release_if-Passed none a fits = hand_over-Passed _ a fits

module _ (match_end_of_sentence : Text → ℕ) where
  -- Call after call.
  unfoldable pub runs :
      List Text → SkipTagsAggregator → Option (SkipTagsAggregator × List Aggregation)
  unfolding aggregate
  runs [] a = some (a, [])
  runs (text ∷ texts) a = and_then (aggregate match_end_of_sentence text a) (runs texts)

  aggregate-Passed :
      (text : Text) (a : SkipTagsAggregator)
      → is_by_token a.simple.aggregation_type ≡ true
      → Fits a
      → (r : SkipTagsAggregator × List Aggregation) × (aggregate match_end_of_sentence text a
          ≡ some r)
        × Passed (a.simple.text ++ text) a r
  unfolding aggregate release
  aggregate-Passed text a by fits =
      let (b, e, within, grown, same) = scan_text-Grown text a fits in
      let (left, kept, still) = release_if-Passed b.current_tag b within in
      (release b, rw (by, e) refl, (left, kept ∙ grown, still ∙ same))

  runs-Passed :
      (texts : List Text) (a : SkipTagsAggregator)
      → is_by_token a.simple.aggregation_type ≡ true
      → Fits a
      → (r : SkipTagsAggregator × List Aggregation) × (runs texts a ≡ some r)
        × Passed (a.simple.text ++ flat texts) a r
  unfolding runs
  runs-Passed [] a by fits = ((a, []), refl, (fits, sym (append-nil a.simple.text), refl))
  runs-Passed (text ∷ texts) a by fits =
      let ((b, out), e, (within, kept, same)) = aggregate-Passed text a by fits in
      let ((d, more), f, (inside, left, still)) =
        runs-Passed texts b (ap is_by_token same ∙ by) within in
      (
        (d, out ++ more),
        rw (e, f) refl,
        (
          inside,
          ap (λ t. t ++ d.simple.text) (spoken-append out more)
              ∙ append_assoc (spoken out) (spoken more) d.simple.text
              ∙ ap (λ t. spoken out ++ t) left
              ∙ sym (append_assoc (spoken out) b.simple.text (flat texts))
              ∙ ap (λ t. t ++ flat texts) kept
              ∙ append_assoc a.simple.text text (flat texts),
          still ∙ same,
        ),
      )

  -- By token no call panics, and nothing is lost, repeated or reordered: the texts handed over in a
  -- sequence of calls of a new aggregator, then what a flush gives, are together the texts that
  -- came in.
  pub tokens_are_kept :
      (tags : List StartEndTags) (texts : List Text)
      → (a : SkipTagsAggregator) × (out : List Aggregation) × (runs texts
            (new_skip_tags_aggregator token tags)
          ≡ some (a, out))
        × (spoken out ++ spoken_of (flush a).1 ≡ flat texts)
        × ((flush a).0.simple.text ≡ [])
  unfolding new_skip_tags_aggregator new_simple_aggregator
  tokens_are_kept tags texts =
      let ((a, out), e, (fits, kept, same)) =
        runs-Passed texts (new_skip_tags_aggregator token tags) refl (omega arith) in
      let (rest, left) = flush-spoken a (ap is_by_token same) in
      (a, out, e, ap (λ t. spoken out ++ t) rest ∙ kept, left)
