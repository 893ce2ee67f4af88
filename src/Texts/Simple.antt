-- ===== src/Texts/Simple.antt =====
-- utils/text/aggregator.go, with IsSentenceEnding of sentence.go: text cut into sentences. The
-- sentence tokenizer is a parameter. A slice behind the end, where the code panics, is `none`.
pub mod Sentences
use mathlib.Core.List.{reverse}
use voxigo.Prelude.{
  ℕ, ◌==◌, Bool, true, false, ◌&&◌, ◌||◌, Option, none, some, List, [], ◌∷◌, ◌++◌, Text,
  if◌then◌else◌, leb, length, take, drop,
}

pub data AggregationType : Type 0 where
  sentence token word any_aggregation : AggregationType

pub record Aggregation : Type 0 where
  pub text : Text
  pub type : AggregationType
  pub raw_text : Text

pub record SimpleAggregator : Type 0 where
  pub aggregation_type : AggregationType
  pub text : Text
  pub needs_lookahead : Bool

unfoldable pub new_simple_aggregator : AggregationType → SimpleAggregator
new_simple_aggregator by = record { aggregation_type = by; text = []; needs_lookahead = false }

abbrev pub is_by_token : AggregationType → Bool
is_by_token token = true
is_by_token _ = false

-- `strings.Trim(s, " ")`.
abbrev pub trim_left : Text → Text
trim_left [] = []
trim_left (c ∷ s) = if c == 32 then trim_left s else c ∷ s

unfoldable pub trim : Text → Text
trim s = reverse (trim_left (reverse (trim_left s)))

-- `unicode.IsSpace`, by which `strings.TrimSpace` of one character is empty.
unfoldable pub is_space : ℕ → Bool
is_space c =
    (leb 9 c && leb c 13)
    || (c == 32
        || (c == 0x85
            || (c == 0xa0
                || (c == 0x1680
                    || ((leb 0x2000 c && leb c 0x200a)
                        || (c == 0x2028
                            || (c == 0x2029 || (c == 0x202f || (c == 0x205f || c == 0x3000)))))))))

abbrev pub is_in : ℕ → List ℕ → Bool
is_in c [] = false
is_in c (d ∷ ds) = c == d || is_in c ds

-- The code points of the table, in its order.
unfoldable pub sentence_ending_punctuation : List ℕ
sentence_ending_punctuation =
    0x2e ∷ 0x21 ∷ 0x3f ∷ 0x3b ∷ 0x2026 ∷ 0x3002 ∷ 0xff1f ∷ 0xff01 ∷ 0xff1b ∷ 0xff0e ∷ 0xff61 ∷ 0x964
    ∷ 0x965 ∷ 0x61f ∷ 0x61b ∷ 0x6d4 ∷ 0x60f ∷ 0x104a ∷ 0x104b ∷ 0x17d4 ∷ 0x17d5 ∷ 0xecc ∷ 0xf0e
    ∷ 0xf0d ∷ 0x589 ∷ 0x55c ∷ 0x55e ∷ 0x1362 ∷ 0x1367 ∷ 0x1368 ∷ []

unfoldable pub is_sentence_ending : ℕ → Bool
unfolding sentence_ending_punctuation
is_sentence_ending c = is_in c sentence_ending_punctuation

unfoldable pub reset : SimpleAggregator → SimpleAggregator
reset a = record a { text = []; needs_lookahead = false }

abbrev pub sentence_of : Text → Aggregation
sentence_of t = record { text = t; type = sentence; raw_text = [] }

abbrev pub token_of : Text → Aggregation
token_of t = record { text = t; type = token; raw_text = [] }

unfoldable pub flush : SimpleAggregator → SimpleAggregator × Option Aggregation
unfolding reset trim
flush a = elim a.text [
  | [] ↦ (a, none)
  | c ∷ s ↦
      if is_by_token a.aggregation_type
      then (a, none)
      else (reset a, some (sentence_of (trim (c ∷ s))))
]

-- The first `end` characters leave the buffer as a sentence.
unfoldable pub cut_sentence : ℕ → SimpleAggregator → Option (SimpleAggregator × List Aggregation)
unfolding trim
cut_sentence end a =
    if end == 0
    then some (a, [])
    else if leb end (length a.text)
    then some (record a { text = drop end a.text }, sentence_of (trim (take end a.text)) ∷ [])
    else none

abbrev pub append_to : SimpleAggregator → ℕ → SimpleAggregator
append_to a c = record a { text = a.text ++ c ∷ [] }

-- What is completed before what a later step completes.
abbrev pub prepend {ℓ} :
    {S : Type ℓ} → List Aggregation → Option (S × List Aggregation) → Option (S × List Aggregation)
prepend out none = none
prepend out (some (a, more)) = some (a, out ++ more)

abbrev pub and_then {ℓ} :
    {S : Type ℓ}
    → Option (S × List Aggregation)
    → (S → Option (S × List Aggregation))
    → Option (S × List Aggregation)
and_then none next = none
and_then (some (a, out)) next = prepend out (next a)

module _ (match_end_of_sentence : Text → ℕ) where
  -- With a mark waiting for what follows it, and without one.
  unfoldable pub check_when :
      Bool → ℕ → SimpleAggregator → Option (SimpleAggregator × List Aggregation)
  unfolding cut_sentence is_space is_sentence_ending
  check_when true c a =
      if is_space c
      then some (a, [])
      else cut_sentence (match_end_of_sentence a.text) (record a { needs_lookahead = false })
  check_when false c a =
      some (if is_sentence_ending c then record a { needs_lookahead = true } else a, [])

  unfoldable pub check_sentence_with_lookahead :
      ℕ → SimpleAggregator → Option (SimpleAggregator × List Aggregation)
  unfolding check_when
  check_sentence_with_lookahead c a = check_when a.needs_lookahead c a

  unfoldable pub aggregate_sentences :
      Text → SimpleAggregator → Option (SimpleAggregator × List Aggregation)
  unfolding check_sentence_with_lookahead
  aggregate_sentences [] a = some (a, [])
  aggregate_sentences (c ∷ text) a =
      and_then (check_sentence_with_lookahead c (append_to a c)) (aggregate_sentences text)

  unfoldable pub aggregate : Text → SimpleAggregator → Option (SimpleAggregator × List Aggregation)
  unfolding aggregate_sentences
  aggregate text a =
      if is_by_token a.aggregation_type
      then some (a, elim text [ [] ↦ [] | c ∷ s ↦ token_of (c ∷ s) ∷ [] ])
      else aggregate_sentences text a
