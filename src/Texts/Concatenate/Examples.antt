-- ===== src/Texts/Concatenate/Examples.antt =====
-- utils/text/concatenate.go on streamed text and spoken words.
use voxigo.Prelude.{◌≡◌, refl, true, false, List, [], ◌∷◌, bytes}
use voxigo.Texts.Simple.{is_space}
use voxigo.Texts.Concatenate.{Part, trim_space, concatenate}
use voxigo.Texts.Concatenate.Neighbours.{spaced, parts_are_spaced}

abbrev mixed : List Part
mixed =
    record { text = bytes "Hello"; includes_inter_part_spaces = true }
    ∷ record { text = bytes " there."; includes_inter_part_spaces = true }
    ∷ record { text = []; includes_inter_part_spaces = false }
    ∷ record { text = bytes "How"; includes_inter_part_spaces = false }
    ∷ record { text = bytes "are"; includes_inter_part_spaces = false }
    ∷ record { text = bytes " you?"; includes_inter_part_spaces = true }
    ∷ []

joined : concatenate mixed ≡ bytes "Hello there. How are you?"
unfolding concatenate is_space
joined = refl

parts_are_spaced_example : concatenate mixed ≡ trim_space (spaced mixed)
parts_are_spaced_example = parts_are_spaced mixed
