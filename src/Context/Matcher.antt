-- ===== src/Context/Matcher.antt =====
-- utils/context/sequencematcher.go: the alignment of two sequences of words. A read in range is
-- `word_at`; the stack of spans has its top first.
pub mod Longest
pub mod Parts
pub mod Blocks
pub mod Order
pub mod Opcodes
pub mod Patch
mod Examples
use voxigo.Prelude.{
  ℕ, zero, suc, ◌+◌, ◌-◌, Bool, true, false, ◌&&◌, ◌||◌, Option, none, some, List, [], ◌∷◌, ◌++◌,
  Text, text_eq, if◌then◌else◌, ltb, ◌==◌, length, get_elem?, lookup, insert,
}
use mathlib.Core.List.{reverse}

pub data Tag : Type 0 where
  equal replace delete insertion : Tag

pub record Opcode : Type 0 where
  pub tag : Tag
  pub i1 : ℕ
  pub i2 : ℕ
  pub j1 : ℕ
  pub j2 : ℕ

-- `match`.
pub record Match : Type 0 where
  pub a : ℕ
  pub b : ℕ
  pub size : ℕ

pub record Span : Type 0 where
  pub alo : ℕ
  pub ahi : ℕ
  pub blo : ℕ
  pub bhi : ℕ

abbrev pub or_blank : Option Text → Text
or_blank none = []
or_blank (some t) = t

abbrev pub word_at : List Text → ℕ → Text
word_at ws i = or_blank (get_elem? ws i)

-- A map from words to the places where they occur.
abbrev pub Index : Type 0
Index = List (Text × List ℕ)

abbrev pub places : Option (List ℕ) → List ℕ
places none = []
places (some js) = js

-- `b2j`, from the `j`-th word on.
unfoldable pub index_from : ℕ → List Text → Index → Index
index_from j [] m = m
index_from j (s ∷ ws) m = index_from (suc j) ws (insert s (places (lookup s m) ++ j ∷ []) m)

-- A map from places to lengths; a missing key reads 0.
abbrev pub Lengths : Type 0
Lengths = List (ℕ × ℕ)

unfoldable pub length_at : ℕ → Lengths → ℕ
length_at j [] = 0
length_at j ((i, k) ∷ m) = if i == j then k else length_at j m

-- `j2len[j-1]`.
unfoldable pub length_before : ℕ → Lengths → ℕ
unfolding length_at
length_before zero m = 0
length_before (suc j) m = length_at j m

-- The loop over the places of `a[i]`: the lengths of the row and the best block so far.
unfoldable pub row : ℕ → ℕ → ℕ → Lengths → List ℕ → Lengths → Match → Lengths × Match
unfolding length_before
row blo bhi i before [] new best = (new, best)
row blo bhi i before (j ∷ js) new best =
    let skipped = row blo bhi i before js new best in
    let k = suc (length_before j before) in
    let next =
      if ltb best.size k then record { a = suc i - k; b = suc j - k; size = k } else best in
    let taken = row blo bhi i before js ((j, k) ∷ new) next in
    if ltb j blo then skipped else if ltb j bhi then taken else (new, best)

-- The loop over the rows `i`, of which `n` are left.
unfoldable pub rows : List Text → Index → ℕ → ℕ → ℕ → ℕ → Lengths → Match → Match
unfolding row
rows a b2j blo bhi zero i before best = best
rows a b2j blo bhi (suc n) i before best =
    let r = row blo bhi i before (places (lookup (word_at a i) b2j)) [] best in
    rows a b2j blo bhi n (suc i) r.0 r.1

-- The two loops that extend the block; the fuel is how far each can go.
unfoldable pub extend_back : List Text → List Text → ℕ → ℕ → ℕ → Match → Match
extend_back a b alo blo zero m = m
extend_back a b alo blo (suc n) m =
    let rest = extend_back a b alo blo n (record { a = m.a - 1; b = m.b - 1; size = suc m.size }) in
    if ltb alo m.a && ltb blo m.b && text_eq (word_at a (m.a - 1)) (word_at b (m.b - 1))
    then rest
    else m

unfoldable pub extend_forth : List Text → List Text → ℕ → ℕ → ℕ → Match → Match
extend_forth a b ahi bhi zero m = m
extend_forth a b ahi bhi (suc n) m =
    let rest = extend_forth a b ahi bhi n (record m { size = suc m.size }) in
    if ltb (m.a + m.size) ahi
      && ltb (m.b + m.size) bhi
      && text_eq (word_at a (m.a + m.size)) (word_at b (m.b + m.size))
    then rest
    else m

unfoldable pub find_longest_match : List Text → List Text → Index → Span → Match
unfolding rows extend_back extend_forth
find_longest_match a b b2j s =
    let found =
      rows a b2j s.blo s.bhi (s.ahi - s.alo) s.alo [] (record { a = s.alo; b = s.blo; size = 0 }) in
    let back = extend_back a b s.alo s.blo (found.a - s.alo) found in
    extend_forth a b s.ahi s.bhi (s.ahi - (back.a + back.size)) back

-- The spans before and behind a block, pushed in this order.
unfoldable pub push_before : Span → Match → List Span → List Span
push_before s m queue =
    if ltb s.alo m.a && ltb s.blo m.b
    then record { alo = s.alo; ahi = m.a; blo = s.blo; bhi = m.b } ∷ queue
    else queue

unfoldable pub push_behind : Span → Match → List Span → List Span
push_behind s m queue =
    if ltb (m.a + m.size) s.ahi && ltb (m.b + m.size) s.bhi
    then record { alo = m.a + m.size; ahi = s.ahi; blo = m.b + m.size; bhi = s.bhi } ∷ queue
    else queue

-- The loop over the stack; `none` when the fuel runs out.
unfoldable pub find_matches :
    List Text → List Text → Index → ℕ → List Span → List Match → Option (List Match)
unfolding find_longest_match push_before push_behind
find_matches a b b2j n [] matches = some matches
find_matches a b b2j zero (s ∷ queue) matches = none
find_matches a b b2j (suc n) (s ∷ queue) matches =
    let m = find_longest_match a b b2j s in
    let dropped = find_matches a b b2j n queue matches in
    let split =
      find_matches a b b2j n (push_behind s m (push_before s m queue)) (matches ++ m ∷ []) in
    if ltb 0 m.size then split else dropped

unfoldable pub is_greater : Match → Match → Bool
is_greater m v = ltb v.a m.a || (m.a == v.a && ltb v.b m.b)

-- `sortMatches`: the part sorted so far is kept from its end.
unfoldable pub sink : Match → List Match → List Match
unfolding is_greater
sink v [] = v ∷ []
sink v (m ∷ ms) = if is_greater m v then m ∷ sink v ms else v ∷ m ∷ ms

unfoldable pub sort_from : List Match → List Match → List Match
unfolding sink
sort_from sorted [] = reverse sorted
sort_from sorted (v ∷ vs) = sort_from (sink v sorted) vs

unfoldable pub sort_matches : List Match → List Match
unfolding sort_from
sort_matches ms = sort_from [] ms

abbrev pub block_if : Match → List Match
block_if run = if ltb 0 run.size then run ∷ [] else []

-- Adjacent blocks become one; `run` is the block (i1, j1, k1).
unfoldable pub collapse : Match → List Match → List Match
collapse run [] = block_if run
collapse run (m ∷ ms) =
    let grown = collapse (record run { size = run.size + m.size }) ms in
    let others = collapse m ms in
    if run.a + run.size == m.a && run.b + run.size == m.b then grown else block_if run ++ others

-- What is made of the blocks found: sorted, collapsed and ended by the sentinel.
unfoldable pub blocks_of : List Text → List Text → Option (List Match) → Option (List Match)
unfolding sort_matches collapse
blocks_of a b none = none
blocks_of a b (some ms) = some (
    collapse (record { a = 0; b = 0; size = 0 }) (sort_matches ms)
    ++ record { a = length a; b = length b; size = 0 } ∷ [])

unfoldable pub matching_blocks : List Text → List Text → Option (List Match)
unfolding index_from find_matches blocks_of
matching_blocks a b =
    let whole : Span = record { alo = 0; ahi = length a; blo = 0; bhi = length b } in
    blocks_of a b (find_matches a b (index_from 0 b []) (suc (length a + length a)) (whole ∷ []) [])

unfoldable pub gap : ℕ → ℕ → Match → List Opcode
gap i j m =
    if ltb i m.a && ltb j m.b
    then record { tag = replace; i1 = i; i2 = m.a; j1 = j; j2 = m.b } ∷ []
    else if ltb i m.a
    then record { tag = delete; i1 = i; i2 = m.a; j1 = j; j2 = m.b } ∷ []
    else if ltb j m.b
    then record { tag = insertion; i1 = i; i2 = m.a; j1 = j; j2 = m.b } ∷ []
    else []

unfoldable pub equals : Match → List Opcode
equals m =
    if ltb 0 m.size
    then record { tag = equal; i1 = m.a; i2 = m.a + m.size; j1 = m.b; j2 = m.b + m.size } ∷ []
    else []

unfoldable pub opcodes_from : ℕ → ℕ → List Match → List Opcode
unfolding gap equals
opcodes_from i j [] = []
opcodes_from i j (m ∷ ms) = gap i j m ++ (equals m ++ opcodes_from (m.a + m.size) (m.b + m.size) ms)

unfoldable pub codes_of : Option (List Match) → Option (List Opcode)
unfolding opcodes_from
codes_of none = none
codes_of (some ms) = some (opcodes_from 0 0 ms)

unfoldable pub get_opcodes : List Text → List Text → Option (List Opcode)
unfolding matching_blocks codes_of
get_opcodes a b = codes_of (matching_blocks a b)
