-- ===== src/Texts/SkipTags/Inside.antt =====
-- utils/text/skiptags.go: a run between two tags is not cut.
use voxigo.Prelude.{ℕ, ◌≤◌, ◌≡◌, false, some, List, ◌++◌, Text, length, drop, contains}
use voxigo.Texts.Tags.{StartEndTags}
use voxigo.Texts.Simple.{SimpleAggregator}
use voxigo.Texts.SkipTags.{SkipTagsAggregator}

-- An aggregator inside a run that was opened before the place `i`.
abbrev pub inside : SimpleAggregator → List StartEndTags → StartEndTags → ℕ → SkipTagsAggregator
inside s tags tag i = record {
  simple = s;
  tags = tags;
  current_tag = some tag;
  current_tag_index = i;
}

-- The run is not closed by what is buffered and this text.
abbrev pub StaysOpen : Text → Text → StartEndTags → ℕ → Type 0
StaysOpen buffer text tag i =
    (i ≤ length buffer) × (contains (drop i (buffer ++ text)) tag.end ≡ false)

abbrev longer : SimpleAggregator → Text → SimpleAggregator
longer s text = record s { text = s.text ++ text }
