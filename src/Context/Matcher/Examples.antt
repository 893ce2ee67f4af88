-- ===== src/Context/Matcher/Examples.antt =====
-- utils/context/sequencematcher.go on short sentences.
use voxigo.Prelude.{◌≡◌, refl, some, List, [], ◌∷◌, Text, bytes}
use voxigo.Context.Matcher.{Opcode, equal, replace, get_opcodes}
use voxigo.Context.Matcher.Patch.{Tiles, opcodes_tile, patched, covered, opcodes_patch}

abbrev spoken : List Text
spoken = bytes "i" ∷ bytes "owe" ∷ bytes "five" ∷ bytes "dollars" ∷ []

abbrev shown : List Text
shown = bytes "i" ∷ bytes "owe" ∷ bytes "you" ∷ bytes "$5" ∷ bytes "dollars" ∷ []

aligned :
    get_opcodes spoken shown
    ≡ some (
        record { tag = equal; i1 = 0; i2 = 2; j1 = 0; j2 = 2 }
        ∷ record { tag = replace; i1 = 2; i2 = 3; j1 = 2; j2 = 4 }
        ∷ record { tag = equal; i1 = 3; i2 = 4; j1 = 4; j2 = 5 }
        ∷ [])
unfolding get_opcodes
aligned = refl

opcodes_tile_example :
    (ops : List Opcode) × (get_opcodes spoken shown ≡ some ops) × Tiles spoken shown 0 0 ops
opcodes_tile_example = opcodes_tile spoken shown

opcodes_patch_example :
    (ops : List Opcode) × (get_opcodes spoken shown ≡ some ops)
    × (patched spoken shown ops ≡ shown)
    × (covered spoken ops ≡ spoken)
opcodes_patch_example = opcodes_patch spoken shown
