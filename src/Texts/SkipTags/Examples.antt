-- ===== src/Texts/SkipTags/Examples.antt =====
-- utils/text/skiptags.go and tags.go on short replies.
use voxigo.Prelude.Bytes
use voxigo.Prelude.{
  ◌≡◌, ◌⊎◌, ◌≤◌, refl, arith, ℕ, false, Option, some, none, List, [], ◌∷◌, ◌++◌, Text, bytes, map,
  get_elem?, length, contains,
}
use voxigo.Texts.Tags.{StartEndTags, parse_start_end_tags, longest_trailing_partial_match}
use voxigo.Texts.Tags.Trailing.{IsPartial, IsPartialOfOne, held_back_is_longest}
use voxigo.Texts.Simple
use voxigo.Texts.Simple.{
  sentence, token, Aggregation, SimpleAggregator, new_simple_aggregator,
  check_sentence_with_lookahead,
}
use voxigo.Texts.Simple.Sentences.{spoken, unspaced, sentences_are_kept}
use voxigo.Texts.SkipTags.{SkipTagsAggregator, new_skip_tags_aggregator, aggregate, flush}
use voxigo.Texts.SkipTags.Kept.{runs, spoken_of, flat, tokens_are_kept}
use voxigo.Texts.SkipTags.Plain.{plain, as_plain, no_tags_is_simple}

abbrev spell : StartEndTags
spell = record { start = bytes "<s>"; end = bytes "</s>" }

abbrev tags : List StartEndTags
tags = spell ∷ []

-- A tokenizer that ends every sentence behind its ninth character.
abbrev ninth : Text → ℕ
ninth t = 9

abbrev texts : Option (SkipTagsAggregator × List Aggregation) → Option (List Text)
texts none = none
texts (some (a, out)) = some (map (λ (x : Aggregation). x.text) out)

one_sentence :
    texts (aggregate ninth (bytes "<s>A</s>. N") (new_skip_tags_aggregator sentence tags))
    ≡ some (bytes "<s>A</s>." ∷ [])
unfolding aggregate new_skip_tags_aggregator new_simple_aggregator check_sentence_with_lookahead
    Bytes.contains
one_sentence = refl

-- After a sentence with a run the next character is looked for behind the end of the buffer.
panics_after_sentence :
    texts (aggregate ninth (bytes "<s>A</s>. No") (new_skip_tags_aggregator sentence tags)) ≡ none
unfolding aggregate new_skip_tags_aggregator new_simple_aggregator check_sentence_with_lookahead
    Bytes.contains
panics_after_sentence = refl

-- A run of the second pair is not seen.
abbrev code_tags : StartEndTags
code_tags = record { start = bytes "<c>"; end = bytes "</c>" }

second_pair_is_missed :
    parse_start_end_tags (bytes "<c>A. B") (spell ∷ code_tags ∷ []) none 0 ≡ some (none, 0)
unfolding parse_start_end_tags
second_pair_is_missed = refl

abbrev pieces : List Text
pieces = bytes "Hi <" ∷ bytes "s>A.B" ∷ bytes "</s> you <" ∷ []

held_and_released :
    texts (runs ninth pieces (new_skip_tags_aggregator token tags))
    ≡ some (bytes "Hi " ∷ bytes "<s>A.B</s> you " ∷ [])
unfolding runs aggregate new_skip_tags_aggregator new_simple_aggregator Bytes.contains
    longest_trailing_partial_match
held_and_released = refl

tokens_are_kept_example :
    (a : SkipTagsAggregator) × (out : List Aggregation) × (runs ninth pieces
        (new_skip_tags_aggregator token tags)
      ≡ some (a, out))
    × (spoken out ++ spoken_of (flush a).1 ≡ flat pieces)
    × ((flush a).0.simple.text ≡ [])
tokens_are_kept_example = tokens_are_kept ninth tags pieces

abbrev by_sentence : SimpleAggregator
by_sentence = record { aggregation_type = sentence; text = bytes "<s>"; needs_lookahead = false }

no_tags_is_simple_example :
    aggregate ninth (bytes "A. B") (plain by_sentence)
    ≡ as_plain (Simple.aggregate ninth (bytes "A. B") by_sentence)
no_tags_is_simple_example = no_tags_is_simple ninth (bytes "A. B") by_sentence refl

abbrev fresh : SimpleAggregator
fresh = new_simple_aggregator sentence

-- A tokenizer that ends a sentence where the text ends.
sentences_are_kept_example :
    (b : SimpleAggregator) × (out : List Aggregation) × (Simple.aggregate length
        (bytes "Hi. You")
        fresh
      ≡ some (b, out))
    × (unspaced (spoken out ++ b.text) ≡ unspaced (fresh.text ++ bytes "Hi. You"))
unfolding new_simple_aggregator
sentences_are_kept_example =
    sentences_are_kept length (λ t. omega arith) (bytes "Hi. You") fresh refl

abbrev starts : List Text
starts = bytes "<spell>" ∷ bytes "<say>" ∷ []

abbrev half : Text
half = bytes "Hi <s"

held_back_is_longest_example :
    ((longest_trailing_partial_match half starts ≡ 0)
      ⊎ IsPartialOfOne half starts (longest_trailing_partial_match half starts))
    × ((i : ℕ) (c : Text) (k : ℕ)
        → get_elem? starts i ≡ some c
        → IsPartial half c k
        → k ≤ longest_trailing_partial_match half starts)
held_back_is_longest_example = held_back_is_longest half starts
