-- ===== src/Prelude/Bytes.antt =====
-- Go strings: sequences of bytes, compared byte by byte.
use Prim.Native.Nat.{ℕ, suc}
use Prim.Native.Char.{code}
use Prim.Native.String.{String}
use mathlib.Core.Path.{◌≡◌, refl}
use mathlib.Core.Logic.{◌↔◌}
use mathlib.Core.Bool.{Bool, true, false, ◌&&◌, ◌||◌}
use mathlib.Core.List.{List, [], ◌∷◌, ◌++◌}
use native.Mathlib.Omega.{arith}
use voxigo.Prelude.Tests.{◌==◌, leb, if◌then◌else◌}

abbrev pub Text : Type 0
Text = List ℕ

-- An ASCII literal as its bytes.
abbrev pub bytes : String → Text
bytes String.[] = []
bytes (String.◌∷◌ c s) = code c ∷ bytes s

abbrev pub text_eq : Text → Text → Bool
text_eq [] [] = true
text_eq (a ∷ s) (b ∷ t) = a == b && text_eq s t
text_eq [] (b ∷ t) = false
text_eq (a ∷ s) [] = false

text_eq_sound : (s t : Text) → text_eq s t ≡ true → s ≡ t
text_eq_sound [] [] h = refl
text_eq_sound (a ∷ s) (b ∷ t) h = ground (arith, text_eq_sound s t)
text_eq_sound [] (b ∷ t) h = ground arith
text_eq_sound (a ∷ s) [] h = ground arith

pub text_eq_self : (s : Text) → text_eq s s ≡ true
text_eq_self [] = refl
text_eq_self (a ∷ s) = ground (arith, text_eq_self s)

pub text_eq_iff : (s t : Text) → (text_eq s t ≡ true) ↔ (s ≡ t)
text_eq_iff s t = (text_eq_sound s t, λ e. rw e (text_eq_self t))

-- `unicode.IsSpace` on the UTF-8 of one character of one, two or three bytes.
is_space1 : ℕ → Bool
is_space1 a = (leb 9 a && leb a 13) || a == 32

is_space2 : ℕ → ℕ → Bool
is_space2 a b = a == 0xc2 && (b == 0x85 || b == 0xa0)

is_space3 : ℕ → ℕ → ℕ → Bool
is_space3 a b c =
    (a == 0xe1 && (b == 0x9a && c == 0x80))
    || (a == 0xe2
        && b == 0x80
        && ((leb 0x80 c && leb c 0x8a) || (c == 0xa8 || (c == 0xa9 || c == 0xaf))))
    || (a == 0xe2 && (b == 0x81 && c == 0x9f))
    || (a == 0xe3 && (b == 0x80 && c == 0x80))

-- `strings.TrimSpace(s) == ""`.
unfoldable pub is_blank : Text → Bool
unfolding is_space1 is_space2 is_space3
is_blank [] = true
is_blank (a ∷ []) = is_space1 a
is_blank (a ∷ b ∷ []) = (is_space1 a && is_space1 b) || is_space2 a b
is_blank (a ∷ b ∷ c ∷ s) =
    let one = is_blank (b ∷ c ∷ s) in
    let two = is_blank (c ∷ s) in
    let three = is_space3 a b c && is_blank s in
    if is_space1 a then one else if is_space2 a b then two else three

-- `strings.HasPrefix(s, p)`.
abbrev pub has_prefix : Text → Text → Bool
has_prefix [] s = true
has_prefix (a ∷ p) [] = false
has_prefix (a ∷ p) (b ∷ s) = a == b && has_prefix p s

-- `strings.Contains(s, p)`.
unfoldable pub contains : Text → Text → Bool
contains [] p = has_prefix p []
contains (b ∷ s) p = has_prefix p (b ∷ s) || contains s p

has_prefix-append : (p s t : Text) → has_prefix p s ≡ true → has_prefix p (s ++ t) ≡ true
has_prefix-append [] s t h = refl
has_prefix-append (a ∷ p) [] t h = absurd (ground arith)
has_prefix-append (a ∷ p) (b ∷ s) t h = ground (arith, has_prefix-append p s t)

contains-all : (t : Text) → contains t [] ≡ true
unfolding contains
contains-all [] = refl
contains-all (b ∷ t) = refl

-- What a text contains a longer one contains.
pub contains-append : (s t p : Text) → contains s p ≡ true → contains (s ++ t) p ≡ true
unfolding contains
contains-append [] t [] h = contains-all t
contains-append [] t (a ∷ p) h = absurd (ground arith)
contains-append (b ∷ s) t p h = ground (arith, has_prefix-append p (b ∷ s) t, contains-append s t p)

-- `len(strings.Fields(s))`: how many runs of other characters the white space leaves; the flag
-- says whether the run before has been counted.
unfoldable count_from : Bool → Text → ℕ
unfolding is_space1 is_space2 is_space3
count_from counted [] = 0
count_from counted (a ∷ []) = if is_space1 a then 0 else if counted then 0 else 1
count_from counted (a ∷ b ∷ []) =
    let gap = count_from false (b ∷ []) in
    let more = count_from true (b ∷ []) in
    if is_space1 a then gap else if is_space2 a b then 0 else if counted then more else suc more
count_from counted (a ∷ b ∷ c ∷ s) =
    let one = count_from false (b ∷ c ∷ s) in
    let two = count_from false (c ∷ s) in
    let three = count_from false s in
    let more = count_from true (b ∷ c ∷ s) in
    if is_space1 a
    then one
    else if is_space2 a b
    then two
    else if is_space3 a b c
    then three
    else if counted
    then more
    else suc more

unfoldable pub count_fields : Text → ℕ
unfolding count_from
count_fields s = count_from false s
