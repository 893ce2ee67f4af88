-- ===== src/Texts/Concatenate/Neighbours.antt =====
-- utils/text/concatenate.go: each space depends on the two parts around it.
use mathlib.Core.List.{append_assoc, append-nil}
use voxigo.Prelude.{
  ◌≡◌, inl, inr, refl, sym, ap, ◌∙◌, Bool, true, false, not, ◌&&◌, ◌||◌, List, [], ◌∷◌, ◌++◌, Text,
  arith, Bool-cases, if◌then◌else◌,
}
use voxigo.Texts.Concatenate.{
  Part, is_empty, starts_with_space, ends_with_space, trim_space, append_parts, concatenate,
}

abbrev one_space : Text
one_space = 32 ∷ []

-- What stands between two parts: nothing where both bring their spaces or one of them has a space
-- at the seam, a space where neither brings any, and a space at a seam without one.
abbrev pub gap : Part → Part → Text
gap q p =
    if q.includes_inter_part_spaces
    then if p.includes_inter_part_spaces
      then []
      else if ends_with_space q.text || starts_with_space p.text
      then []
      else one_space
    else if p.includes_inter_part_spaces
    then if ends_with_space q.text || starts_with_space p.text then [] else one_space
    else one_space

-- The parts that are not empty, from a first one on, each followed by its gap.
abbrev pub spaced_from : Part → List Part → Text
spaced_from q [] = q.text
spaced_from q (p ∷ ps) =
    let skipped = spaced_from q ps in
    let next = q.text ++ (gap q p ++ spaced_from p ps) in if is_empty p.text then skipped else next

abbrev pub spaced : List Part → Text
spaced [] = []
spaced (p ∷ ps) =
    let skipped = spaced ps in
    let first = spaced_from p ps in if is_empty p.text then skipped else first

ends_with_space-append :
    (s t : Text) → is_empty t ≡ false → ends_with_space (s ++ t) ≡ ends_with_space t
unfolding ends_with_space
ends_with_space-append s [] h = absurd (ground arith)
ends_with_space-append [] (c ∷ t) h = refl
ends_with_space-append (a ∷ []) (c ∷ t) h = refl
ends_with_space-append (a ∷ b ∷ s) (c ∷ t) h = ends_with_space-append (b ∷ s) (c ∷ t) h

is_empty-append : (s t : Text) → is_empty t ≡ false → is_empty (s ++ t) ≡ false
is_empty-append [] t h = h
is_empty-append (a ∷ s) t h = refl

-- What the code writes after a part.
abbrev seam : Text → Bool → Part → Text
seam written last p =
    if p.includes_inter_part_spaces && last
    then []
    else if not p.includes_inter_part_spaces && not last
    then one_space
    else if not (ends_with_space written) && not (starts_with_space p.text)
    then one_space
    else []

seam-flags :
    (own last x y : Bool)
    → (if own && last
        then []
        else if not own && not last
        then one_space
        else if not x && not y
        then one_space
        else [])
      ≡ (if last
          then if own then [] else if x || y then [] else one_space
          else if own
          then if x || y then [] else one_space
          else one_space)
seam-flags true true x y = refl
seam-flags false false x y = refl
seam-flags true false true y = refl
seam-flags true false false true = refl
seam-flags true false false false = refl
seam-flags false true true y = refl
seam-flags false true false true = refl
seam-flags false true false false = refl

seam-gap :
    (pre : Text) (q p : Part)
    → is_empty q.text ≡ false
    → seam (pre ++ q.text) q.includes_inter_part_spaces p ≡ gap q p
seam-gap pre q p h = rw (ends_with_space-append pre q.text h) (
    seam-flags p.includes_inter_part_spaces q.includes_inter_part_spaces (ends_with_space q.text)
      (starts_with_space p.text))

seam-choice :
    (put : Text → Text) (joined : Text)
    → joined ≡ put []
    → (a b c : Bool)
    → (if a then joined else if b then put one_space else if c then put one_space else joined)
      ≡ put (if a then [] else if b then one_space else if c then one_space else [])
seam-choice put joined e true b c = e
seam-choice put joined e false true c = refl
seam-choice put joined e false false true = refl
seam-choice put joined e false false false = e

append_parts-seam :
    (p : Part) (ps : List Part) (written : Text) (last : Bool)
    → is_empty p.text ≡ false
    → is_empty written ≡ false
    → append_parts (p ∷ ps) written last
      ≡ append_parts ps ((written ++ seam written last p) ++ p.text) p.includes_inter_part_spaces
unfolding append_parts
append_parts-seam p ps written last filled more =
    let put =
      λ (g : Text). append_parts ps ((written ++ g) ++ p.text) p.includes_inter_part_spaces in
    let own = p.includes_inter_part_spaces in
    rw (filled, more)
      (seam-choice put (append_parts ps (written ++ p.text) own)
        (ap (λ t. append_parts ps (t ++ p.text) own) (sym (append-nil written))) (own && last)
        (not own && not last) (not (ends_with_space written) && not (starts_with_space p.text)))

append_parts-spaced_from :
    (ps : List Part) (pre : Text) (q : Part)
    → is_empty q.text ≡ false
    → append_parts ps (pre ++ q.text) q.includes_inter_part_spaces ≡ pre ++ spaced_from q ps
unfolding append_parts
append_parts-spaced_from [] pre q h = refl
append_parts-spaced_from (p ∷ ps) pre q h = elim (Bool-cases (is_empty p.text)) [
  | inl e ↦ rw e (append_parts-spaced_from ps pre q h)
  | inr e ↦
      append_parts-seam p ps (pre ++ q.text) q.includes_inter_part_spaces e
        (is_empty-append pre q.text h)
      ∙ ap (λ g. append_parts ps (((pre ++ q.text) ++ g) ++ p.text) p.includes_inter_part_spaces)
          (seam-gap pre q p h)
      ∙ append_parts-spaced_from ps ((pre ++ q.text) ++ gap q p) p e
      ∙ append_assoc (pre ++ q.text) (gap q p) (spaced_from p ps)
      ∙ append_assoc pre q.text (gap q p ++ spaced_from p ps)
      ∙ rw e refl
]

append_parts-spaced : (ps : List Part) (last : Bool) → append_parts ps [] last ≡ spaced ps
unfolding append_parts
append_parts-spaced [] last = refl
append_parts-spaced (p ∷ ps) last = elim (Bool-cases (is_empty p.text)) [
  | inl e ↦ rw e (append_parts-spaced ps last)
  | inr e ↦ rw e (append_parts-spaced_from ps [] p e)
]

-- A join is what its neighbours say: the whole is the parts that are not empty, with a space
-- between two of them exactly where neither brings its own spaces, or where only one does and there
-- is no space at the seam, less the white space around it all.
pub parts_are_spaced : (parts : List Part) → concatenate parts ≡ trim_space (spaced parts)
unfolding concatenate
parts_are_spaced parts = ap trim_space (append_parts-spaced parts false)
