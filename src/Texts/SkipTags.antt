-- ===== src/Texts/SkipTags.antt =====
-- utils/text/skiptags.go: sentences that are not cut inside a run between two tags. A call is `none`
-- where the code panics, on a slice from behind the end of the buffer.
pub mod Kept
pub mod Inside
pub mod Plain
mod Examples
use voxigo.Prelude.{
  ℕ, ◌-◌, ◌==◌, Bool, true, false, Option, none, some, List, [], ◌∷◌, ◌++◌, Text, if◌then◌else◌,
  length, take, drop, map,
}
use voxigo.Texts.Tags.{StartEndTags, parse_start_end_tags, longest_trailing_partial_match}
use voxigo.Texts.Simple
use voxigo.Texts.Simple.{
  AggregationType, Aggregation, SimpleAggregator, new_simple_aggregator, is_by_token, trim,
  token_of, sentence_of, prepend, and_then, append_to, check_sentence_with_lookahead,
}

pub record SkipTagsAggregator : Type 0 where
  pub simple : SimpleAggregator
  pub tags : List StartEndTags
  pub current_tag : Option StartEndTags
  pub current_tag_index : ℕ

unfoldable pub new_skip_tags_aggregator : AggregationType → List StartEndTags → SkipTagsAggregator
new_skip_tags_aggregator by tags = record {
  simple = new_simple_aggregator by;
  tags = tags;
  current_tag = none;
  current_tag_index = 0;
}

unfoldable pub clear_tags : SkipTagsAggregator → SkipTagsAggregator
clear_tags a = record a { current_tag = none; current_tag_index = 0 }

unfoldable pub reset : SkipTagsAggregator → SkipTagsAggregator
unfolding clear_tags
reset a = clear_tags (record a { simple = Simple.reset a.simple })

-- Text reports what is buffered.
unfoldable pub text_of : SkipTagsAggregator → Aggregation
unfolding trim
text_of a = sentence_of (trim a.simple.text)

abbrev scanned : SkipTagsAggregator → Option (Option StartEndTags × ℕ) → Option SkipTagsAggregator
scanned a none = none
scanned a (some (tag, index)) = some (record a { current_tag = tag; current_tag_index = index })

-- A character is added to the buffer and the buffer is scanned for tags.
unfoldable pub scan_character : ℕ → SkipTagsAggregator → Option SkipTagsAggregator
unfolding parse_start_end_tags
scan_character c a =
    let b = record a { simple = append_to a.simple c } in
    scanned b (parse_start_end_tags b.simple.text b.tags b.current_tag b.current_tag_index)

abbrev if_scanned {ℓ} :
    {S : Type ℓ} → Option SkipTagsAggregator → (SkipTagsAggregator → Option S) → Option S
if_scanned none next = none
if_scanned (some a) next = next a

unfoldable pub scan_text : Text → SkipTagsAggregator → Option SkipTagsAggregator
unfolding scan_character
scan_text [] a = some a
scan_text (c ∷ text) a = if_scanned (scan_character c a) (scan_text text)

abbrev pub starts_of : List StartEndTags → List Text
starts_of tags = map (λ (t : StartEndTags). t.start) tags

-- What leaves the buffer once `size` of its characters can begin no tag.
unfoldable pub hand_over : ℕ → SkipTagsAggregator → SkipTagsAggregator × List Aggregation
hand_over size a = if size == 0 then (a, []) else (
  record a { simple = record (a.simple) { text = drop size a.simple.text }; current_tag_index = 0 },
  token_of (take size a.simple.text) ∷ [],
)

unfoldable pub release_if :
    Option StartEndTags → SkipTagsAggregator → SkipTagsAggregator × List Aggregation
unfolding hand_over
release_if (some tag) a = (a, [])
release_if none a =
    hand_over
      (length a.simple.text - longest_trailing_partial_match a.simple.text (starts_of a.tags)) a

-- The end of a call by token.
unfoldable pub release : SkipTagsAggregator → SkipTagsAggregator × List Aggregation
unfolding release_if
release a = release_if a.current_tag a

abbrev pub released : SkipTagsAggregator → Option (SkipTagsAggregator × List Aggregation)
released a = some (release a)

module _ (match_end_of_sentence : Text → ℕ) where
  abbrev checked :
      SkipTagsAggregator
      → Option (SimpleAggregator × List Aggregation)
      → Option (SkipTagsAggregator × List Aggregation)
  checked a none = none
  checked a (some (simple, out)) = some (record a { simple = simple }, out)

  -- Inside a run no punctuation ends a sentence.
  unfoldable pub check_outside :
      ℕ → SkipTagsAggregator → Option (SkipTagsAggregator × List Aggregation)
  check_outside c a = elim a.current_tag [
    | some tag ↦ some (a, [])
    | none ↦ checked a (check_sentence_with_lookahead match_end_of_sentence c a.simple)
  ]

  unfoldable pub aggregate_sentences :
      Text → SkipTagsAggregator → Option (SkipTagsAggregator × List Aggregation)
  unfolding scan_character check_outside
  aggregate_sentences [] a = some (a, [])
  aggregate_sentences (c ∷ text) a =
      and_then (if_scanned (scan_character c a) (check_outside c)) (aggregate_sentences text)

  unfoldable pub aggregate :
      Text → SkipTagsAggregator → Option (SkipTagsAggregator × List Aggregation)
  unfolding scan_text release aggregate_sentences
  aggregate text a =
      if is_by_token a.simple.aggregation_type
      then if_scanned (scan_text text a) released
      else aggregate_sentences text a

abbrev flushed :
    SkipTagsAggregator
    → SimpleAggregator × Option Aggregation
    → SkipTagsAggregator × Option Aggregation
flushed a (simple, none) = (record a { simple = simple }, none)
flushed a (simple, some rest) = (clear_tags (record a { simple = simple }), some rest)

unfoldable pub flush_token : Text → SkipTagsAggregator → SkipTagsAggregator × Option Aggregation
unfolding reset
flush_token [] a = (a, none)
flush_token (c ∷ s) a = (reset a, some (token_of (c ∷ s)))

unfoldable pub flush : SkipTagsAggregator → SkipTagsAggregator × Option Aggregation
unfolding flush_token clear_tags
flush a =
    if is_by_token a.simple.aggregation_type
    then flush_token a.simple.text a
    else flushed a (Simple.flush a.simple)
