-- ===== src/Texts/Tags.antt =====
-- utils/text/tags.go: pairs of delimiters in a text that grows. A text is the list of its
-- characters, each by its code point, and an offset counts characters; on valid UTF-8 the code's
-- offsets in bytes mark the same places. A slice from behind the end, where the code panics, is
-- `none`.
pub mod Trailing
use Prim.Native.Nat.{min}
use voxigo.Prelude.{
  ℕ, zero, suc, ◌+◌, ◌-◌, Bool, true, false, ◌&&◌, Option, none, some, List, [], ◌∷◌, Text, text_eq,
  has_prefix, contains, if◌then◌else◌, ltb, leb, ◌==◌, length, take, drop,
}

pub record StartEndTags : Type 0 where
  pub start : Text
  pub end : Text

-- `strings.Count` of a separator that is not empty; `skip` characters belong to the match before.
abbrev pub count_from : Text → ℕ → Text → ℕ
count_from p skip [] = 0
count_from p zero (c ∷ s) =
    let found = suc (count_from p (length p - 1) s) in
    let next = count_from p 0 s in if has_prefix p (c ∷ s) then found else next
count_from p (suc skip) (c ∷ s) = count_from p skip s

-- `strings.Count(s, p)`.
unfoldable pub count : Text → Text → ℕ
count s [] = suc (length s)
count s (c ∷ p) = count_from (c ∷ p) 0 s

-- The loop over the pairs, on the text under scan and the length of the whole text.
unfoldable pub find_tag : Text → ℕ → ℕ → List StartEndTags → Option StartEndTags × ℕ
unfolding count
find_tag rest index len [] = (none, index)
find_tag rest index len (tag ∷ tags) =
    let starts = count rest tag.start in
    let ends = count rest tag.end in
    let others = find_tag rest index len tags in
    if starts == 0 && ends == 0
    then (none, index)
    else if ltb ends starts
    then (some tag, len)
    else if starts == ends
    then (none, len)
    else others

-- `text[index:]`.
abbrev pub text_from : Text → ℕ → Option Text
text_from text index = if leb index (length text) then some (drop index text) else none

-- Inside a run, only its end is looked for.
abbrev pub find_end : Text → StartEndTags → ℕ → Option Text → Option (Option StartEndTags × ℕ)
find_end text current index none = none
find_end text current index (some rest) =
    some (if contains rest current.end then (none, length text) else (some current, index))

abbrev pub find_in : Text → List StartEndTags → ℕ → Option Text → Option (Option StartEndTags × ℕ)
find_in text tags index none = none
find_in text tags index (some rest) = some (find_tag rest index (length text) tags)

-- The text is sliced in the loop, so not at all when there are no pairs.
unfoldable pub parse_start_end_tags :
    Text → List StartEndTags → Option StartEndTags → ℕ → Option (Option StartEndTags × ℕ)
unfolding find_tag
parse_start_end_tags text tags (some current) index =
    find_end text current index (text_from text index)
parse_start_end_tags text [] none index = some (none, index)
parse_start_end_tags text (tag ∷ tags) none index =
    find_in text (tag ∷ tags) index (text_from text index)

-- The loop over the lengths from `n` down to one above `longest`.
unfoldable pub longest_from : Text → Text → ℕ → ℕ → ℕ
longest_from text candidate longest zero = longest
longest_from text candidate longest (suc n) =
    let shorter = longest_from text candidate longest n in
    if ltb longest (suc n)
    then if text_eq (drop (length text - suc n) text) (take (suc n) candidate)
      then suc n
      else shorter
    else longest

unfoldable pub longest_of : Text → ℕ → List Text → ℕ
unfolding longest_from
longest_of text longest [] = longest
longest_of text longest (c ∷ cs) =
    longest_of text (longest_from text c longest (min (length c - 1) (length text))) cs

unfoldable pub longest_trailing_partial_match : Text → List Text → ℕ
unfolding longest_of
longest_trailing_partial_match text candidates = longest_of text 0 candidates
