-- ===== src/Texts/SkipTags/Plain.antt =====
-- utils/text/skiptags.go: without tags it is the aggregator of aggregator.go.
use voxigo.Prelude.{
  ℕ, ◌≡◌, refl, ap, ◌∙◌, false, Option, none, some, List, [], ◌∷◌, Text, Option-cases, inl, inr,
}
use voxigo.Texts.Tags.{parse_start_end_tags}
use voxigo.Texts.Simple
use voxigo.Texts.Simple.{
  SimpleAggregator, Aggregation, append_to, is_by_token, and_then, prepend,
  check_sentence_with_lookahead,
}
use voxigo.Texts.SkipTags.{
  SkipTagsAggregator, scan_character, check_outside, aggregate_sentences, aggregate,
}

abbrev pub plain : SimpleAggregator → SkipTagsAggregator
plain s = record { simple = s; tags = []; current_tag = none; current_tag_index = 0 }

abbrev pub as_plain :
    Option (SimpleAggregator × List Aggregation) → Option (SkipTagsAggregator × List Aggregation)
as_plain none = none
as_plain (some (s, out)) = some (plain s, out)

as_plain-prepend :
    (out : List Aggregation) (o : Option (SimpleAggregator × List Aggregation))
    → prepend out (as_plain o) ≡ as_plain (prepend out o)
as_plain-prepend out none = refl
as_plain-prepend out (some (s, more)) = refl

module _ (match_end_of_sentence : Text → ℕ) where
  aggregate_sentences-plain :
      (text : Text) (s : SimpleAggregator)
      → aggregate_sentences match_end_of_sentence text (plain s)
        ≡ as_plain (Simple.aggregate_sentences match_end_of_sentence text s)
  unfolding aggregate_sentences scan_character parse_start_end_tags check_outside
      Simple.aggregate_sentences
  aggregate_sentences-plain [] s = refl
  aggregate_sentences-plain (c ∷ text) s =
      elim (Option-cases (check_sentence_with_lookahead match_end_of_sentence c (append_to s c))) [
        | inl e ↦ rw e refl
        | inr ((b, out), e) ↦ rw e (
            ap (prepend out) (aggregate_sentences-plain text b)
            ∙ as_plain-prepend out (Simple.aggregate_sentences match_end_of_sentence text b))
      ]

  -- With no pairs of tags, and not by token, each call of the aggregator is the call of the simple
  -- one: it hands the same sentences over and buffers the same text.
  pub no_tags_is_simple :
      (text : Text) (s : SimpleAggregator)
      → is_by_token s.aggregation_type ≡ false
      → aggregate match_end_of_sentence text (plain s)
        ≡ as_plain (Simple.aggregate match_end_of_sentence text s)
  unfolding aggregate Simple.aggregate
  no_tags_is_simple text s by = rw by (aggregate_sentences-plain text s)
