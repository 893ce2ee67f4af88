-- ===== src/Texts/Concatenate.antt =====
-- utils/text/concatenate.go: pieces of text joined into a whole. Texts are lists of code points.
pub mod Neighbours
mod Examples
use mathlib.Core.List.{reverse}
use voxigo.Prelude.{ℕ, Bool, true, false, not, ◌&&◌, List, [], ◌∷◌, ◌++◌, Text, if◌then◌else◌}
use voxigo.Texts.Simple.{is_space}

pub record Part : Type 0 where
  pub text : Text
  pub includes_inter_part_spaces : Bool

abbrev pub is_empty : Text → Bool
is_empty [] = true
is_empty (c ∷ s) = false

unfoldable pub starts_with_space : Text → Bool
starts_with_space [] = false
starts_with_space (c ∷ s) = is_space c

unfoldable pub ends_with_space : Text → Bool
ends_with_space [] = false
ends_with_space (c ∷ []) = is_space c
ends_with_space (c ∷ d ∷ s) = ends_with_space (d ∷ s)

abbrev trim_left : Text → Text
trim_left [] = []
trim_left (c ∷ s) = if is_space c then trim_left s else c ∷ s

-- `strings.TrimSpace`.
unfoldable pub trim_space : Text → Text
trim_space s = reverse (trim_left (reverse (trim_left s)))

-- The loop; `written` is what the builder holds, `last` whether the last part brought its spaces.
unfoldable pub append_parts : List Part → Text → Bool → Text
unfolding starts_with_space ends_with_space
append_parts [] written last = written
append_parts (p ∷ ps) written last =
    let skipped = append_parts ps written last in
    let joined = append_parts ps (written ++ p.text) p.includes_inter_part_spaces in
    let spaced = append_parts ps ((written ++ 32 ∷ []) ++ p.text) p.includes_inter_part_spaces in
    if is_empty p.text
    then skipped
    else if is_empty written
    then joined
    else if p.includes_inter_part_spaces && last
    then joined
    else if not p.includes_inter_part_spaces && not last
    then spaced
    else if not (ends_with_space written) && not (starts_with_space p.text)
    then spaced
    else joined

unfoldable pub concatenate : List Part → Text
unfolding append_parts trim_space
concatenate parts = trim_space (append_parts parts [] false)
