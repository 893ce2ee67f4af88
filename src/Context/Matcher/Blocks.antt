-- ===== src/Context/Matcher/Blocks.antt =====
-- utils/context/sequencematcher.go: the loop over the spans ends, and the blocks that it finds lie apart.
use mathlib.Core.List.{map-append}
use voxigo.Prelude.{
  and-parts, ◌&&◌, ℕ, zero, suc, ◌+◌, ◌≤◌, ◌<◌, ◌≡◌, inl, inr, refl, some, List, [], ◌∷◌, ◌++◌,
  Text, arith, ltb, ltb→lt, Bool-cases, if-cases, All, All-append,
}
use voxigo.Context.Matcher.{
  Match, Span, Index, find_longest_match, push_before, push_behind, find_matches,
}
use voxigo.Context.Matcher.Longest.{IsBlock, IsIndex, find_longest_match-IsBlock}
use voxigo.Context.Matcher.Parts.{
  box, Apart, AllApart, Within, Apart-Within, Within-trans, Apart-flip, All-Within, boxes,
  AllApart-append, IsProper, IsFound, Keeps, cost,
}

module _ (a b : List Text) (whole : Span) where
  pushed-Keeps :
      (x : Span) (queue : List Span) (matches : List Match)
      → IsProper x
      → Within x whole
      → All (Apart x) queue
      → All (Apart x) (boxes matches)
      → Keeps a b whole queue matches
      → Keeps a b whole (x ∷ queue) matches
  pushed-Keeps x queue matches p w q m k = record {
    proper = (p, k.proper);
    inside = (w, k.inside);
    queue_apart = (q, k.queue_apart);
    found = k.found;
    matches_apart = k.matches_apart;
    both_apart = (m, k.both_apart);
  }

  popped-Keeps :
      (s : Span) (queue : List Span) (matches : List Match)
      → Keeps a b whole (s ∷ queue) matches
      → Keeps a b whole queue matches
  popped-Keeps s queue matches k = record {
    proper = k.proper.1;
    inside = k.inside.1;
    queue_apart = k.queue_apart.1;
    found = k.found;
    matches_apart = k.matches_apart;
    both_apart = k.both_apart.1;
  }

  boxes-append : (ms : List Match) (m : Match) → boxes (ms ++ m ∷ []) ≡ boxes ms ++ box m ∷ []
  boxes-append ms m = map-append box ms (m ∷ [])

  Apart-append :
      (x : Span) (ms : List Match) (m : Match)
      → All (Apart x) (boxes ms)
      → Apart x (box m)
      → All (Apart x) (boxes (ms ++ m ∷ []))
  Apart-append x ms m h p =
      rw (boxes-append ms m) (All-append (Apart x) (boxes ms) (box m ∷ []) h (p, tt))

  all-Apart-append :
      (s : Span) (queue : List Span) (ms : List Match) (m : Match)
      → Within (box m) s
      → All (Apart s) queue
      → All (λ x. All (Apart x) (boxes ms)) queue
      → All (λ x. All (Apart x) (boxes (ms ++ m ∷ []))) queue
  all-Apart-append s [] ms m w h k = tt
  all-Apart-append s (x ∷ queue) ms m w h k = (
    Apart-append x ms m k.0 (Apart-flip (box m) x (Apart-Within (box m) s x w h.0)),
    all-Apart-append s queue ms m w h.1 k.1,
  )

  block-Within : (s : Span) (m : Match) → IsBlock a b s m → Within (box m) s
  block-Within s m v = (v.from_a, v.to_a, v.from_b, v.to_b)

  widened-IsBlock : (s : Span) (m : Match) → Within s whole → IsBlock a b s m → IsBlock a b whole m
  widened-IsBlock s m w v = record {
    from_a = omega (arith, v.from_a);
    to_a = omega (arith, v.to_a);
    from_b = omega (arith, v.from_b);
    to_b = omega (arith, v.to_b);
    same = v.same;
  }

  matched-Keeps :
      (s : Span) (queue : List Span) (matches : List Match) (m : Match)
      → IsBlock a b s m
      → 0 < m.size
      → Keeps a b whole (s ∷ queue) matches
      → Keeps a b whole queue (matches ++ m ∷ [])
  matched-Keeps s queue matches m v p k =
      let w = block-Within s m v in
      record {
        proper = k.proper.1;
        inside = k.inside.1;
        queue_apart = k.queue_apart.1;
        found =
            All-append (IsFound a b whole) matches (m ∷ []) k.found
              ((widened-IsBlock s m k.inside.0 v, p), tt);
        matches_apart = rw (boxes-append matches m) (
            AllApart-append (boxes matches) (box m) k.matches_apart
              (All-Within (box m) s (boxes matches) w k.both_apart.0));
        both_apart = all-Apart-append s queue matches m w k.queue_apart.0 k.both_apart.1;
      }

  abbrev before_of : Span → Match → Span
  before_of s m = record { alo = s.alo; ahi = m.a; blo = s.blo; bhi = m.b }

  abbrev behind_of : Span → Match → Span
  behind_of s m = record { alo = m.a + m.size; ahi = s.ahi; blo = m.b + m.size; bhi = s.bhi }

  push_before-Keeps :
      (s : Span) (m : Match) (queue : List Span) (ms : List Match)
      → Within (before_of s m) whole
      → All (Apart (before_of s m)) queue
      → All (Apart (before_of s m)) (boxes ms)
      → Keeps a b whole queue ms
      → Keeps a b whole (push_before s m queue) ms
  unfolding push_before
  push_before-Keeps s m queue ms w q h k =
      if-cases (λ r. Keeps a b whole r ms) (ltb s.alo m.a && ltb s.blo m.b)
        (λ room.
          let (l, r) = and-parts (ltb s.alo m.a) (ltb s.blo m.b) room in
          let lt = ltb→lt s.alo m.a l in
          let lt' = ltb→lt s.blo m.b r in
          pushed-Keeps (before_of s m) queue ms (omega arith, omega arith) w q h k)
        (λ full. k)

  push_behind-Keeps :
      (s : Span) (m : Match) (queue : List Span) (ms : List Match)
      → Within (behind_of s m) whole
      → All (Apart (behind_of s m)) queue
      → All (Apart (behind_of s m)) (boxes ms)
      → Keeps a b whole queue ms
      → Keeps a b whole (push_behind s m queue) ms
  unfolding push_behind
  push_behind-Keeps s m queue ms w q h k =
      if-cases (λ r. Keeps a b whole r ms) (ltb (m.a + m.size) s.ahi && ltb (m.b + m.size) s.bhi)
        (λ room.
          let (l, r) = and-parts (ltb (m.a + m.size) s.ahi) (ltb (m.b + m.size) s.bhi) room in
          let lt = ltb→lt (m.a + m.size) s.ahi l in
          let lt' = ltb→lt (m.b + m.size) s.bhi r in
          pushed-Keeps (behind_of s m) queue ms (omega arith, omega arith) w q h k)
        (λ full. k)

  push_before-Apart :
      (s : Span) (m : Match) (queue : List Span)
      → All (Apart (behind_of s m)) queue
      → All (Apart (behind_of s m)) (push_before s m queue)
  unfolding push_before
  push_before-Apart s m queue h =
      if-cases (All (Apart (behind_of s m))) (ltb s.alo m.a && ltb s.blo m.b)
        (λ room. (inr (omega arith, omega arith), h)) (λ full. h)

  split-Keeps :
      (s : Span) (queue : List Span) (matches : List Match) (m : Match)
      → IsBlock a b s m
      → 0 < m.size
      → Keeps a b whole (s ∷ queue) matches
      → Keeps a b whole (push_behind s m (push_before s m queue)) (matches ++ m ∷ [])
  split-Keeps s queue matches m v p k =
      let x = before_of s m in
      let y = behind_of s m in
      let wx : Within x s =
        (omega arith, omega (arith, v.to_a), omega arith, omega (arith, v.to_b)) in
      let wy : Within y s =
        (omega (arith, v.from_a), omega arith, omega (arith, v.from_b), omega arith) in
      push_behind-Keeps s m (push_before s m queue) _ (Within-trans y s whole wy k.inside.0)
        (push_before-Apart s m queue (All-Within y s queue wy k.queue_apart.0))
        (Apart-append y matches m (All-Within y s (boxes matches) wy k.both_apart.0)
          (inr (omega arith, omega arith)))
        (push_before-Keeps s m queue _ (Within-trans x s whole wx k.inside.0)
          (All-Within x s queue wx k.queue_apart.0)
          (Apart-append x matches m (All-Within x s (boxes matches) wx k.both_apart.0)
            (inl (omega arith, omega arith)))
          (matched-Keeps s queue matches m v p k))

  split-cost :
      (s : Span) (queue : List Span) (m : Match)
      → IsBlock a b s m
      → 0 < m.size
      → cost (push_behind s m (push_before s m queue)) < cost (s ∷ queue)
  unfolding push_before push_behind
  split-cost s queue m v p = ground (arith, v.from_a, v.to_a)

  -- The loop ends, and the blocks that it finds lie apart.
  pub find_matches-ends :
      (b2j : Index) (n : ℕ) (queue : List Span) (matches : List Match)
      → IsIndex b b2j
      → cost queue ≤ n
      → Keeps a b whole queue matches
      → (ms : List Match) × (find_matches a b b2j n queue matches ≡ some ms)
        × All (IsFound a b whole) ms
        × AllApart (boxes ms)
  unfolding find_matches
  find_matches-ends b2j n [] matches index l k = (matches, refl, k.found, k.matches_apart)
  find_matches-ends b2j zero (s ∷ queue) matches index l k = absurd (omega arith)
  find_matches-ends b2j (suc n) (s ∷ queue) matches index l k =
      let m = find_longest_match a b b2j s in
      let v = find_longest_match-IsBlock a b s b2j index k.proper.0.0 k.proper.0.1 in
      elim (Bool-cases (ltb 0 m.size)) [
        | inl some_size ↦
            let p = ltb→lt 0 m.size some_size in
            rw some_size (
              find_matches-ends b2j n (push_behind s m (push_before s m queue)) (matches ++ m ∷ [])
                index (omega (arith, split-cost s queue m v p))
                (split-Keeps s queue matches m v p k))
        | inr no_size ↦ rw no_size (
            find_matches-ends b2j n queue matches index (omega arith)
              (popped-Keeps s queue matches k))
      ]
