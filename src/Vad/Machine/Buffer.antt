-- ===== src/Vad/Machine/Buffer.antt =====
-- audio/vad/vad.go: the audio side of AnalyzeAudio. Frames are cut off the buffered bytes in order,
-- none is lost or repeated, and what is left over waits for the next chunk.
use mathlib.Core.List.{append_assoc}
use voxigo.Prelude.{
  ℕ, zero, suc, ◌≤◌, ◌<◌, ◌≡◌, refl, ap, ◌∙◌, inl, inr, true, List, [], ◌∷◌, ◌++◌, arith,
  Bool-cases, leb, if◌then◌else◌, length, length-append, length-drop, take, drop, take-append-drop,
}

-- The whole frames of a buffer, and what is left over.
unfoldable pub frames_of : ℕ → ℕ → List ℕ → List (List ℕ)
frames_of zero n buf = []
frames_of (suc fuel) n buf =
    let more = take n buf ∷ frames_of fuel n (drop n buf) in if leb n (length buf) then more else []

unfoldable pub rest_of : ℕ → ℕ → List ℕ → List ℕ
rest_of zero n buf = buf
rest_of (suc fuel) n buf =
    let more = rest_of fuel n (drop n buf) in if leb n (length buf) then more else buf

abbrev pub flatten : List (List ℕ) → List ℕ
flatten [] = []
flatten (x ∷ xs) = x ++ flatten xs

-- Nothing is lost.
pub frames-rest :
    (fuel n : ℕ) (buf : List ℕ) → flatten (frames_of fuel n buf) ++ rest_of fuel n buf ≡ buf
unfolding frames_of rest_of
frames-rest zero n buf = refl
frames-rest (suc fuel) n buf = elim (Bool-cases (leb n (length buf))) [
  | inl e ↦ rw e (
      append_assoc (take n buf) (flatten (frames_of fuel n (drop n buf)))
        (rest_of fuel n (drop n buf))
      ∙ (ap (λ t. take n buf ++ t) (frames-rest fuel n (drop n buf)) ∙ take-append-drop n buf))
  | inr e ↦ rw e
]

-- The fuel is enough: the loop ends on a buffer shorter than a frame.
pub rest-short :
    (fuel n : ℕ) (buf : List ℕ) → 0 < n → length buf ≤ fuel → length (rest_of fuel n buf) < n
unfolding rest_of
rest-short zero n buf h le = omega arith
rest-short (suc fuel) n buf h le =
    ground (arith, rest-short fuel n (drop n buf) h, length-drop n buf)

-- More fuel changes nothing.
pub frames-fuel :
    (f g n : ℕ) (buf : List ℕ)
    → 0 < n
    → length buf ≤ f
    → length buf ≤ g
    → (frames_of f n buf ≡ frames_of g n buf) × (rest_of f n buf ≡ rest_of g n buf)
unfolding frames_of rest_of
frames-fuel zero zero n buf h a b = (refl, refl)
frames-fuel zero (suc g) n buf h a b = ground arith
frames-fuel (suc f) zero n buf h a b = ground arith
frames-fuel (suc f) (suc g) n buf h a b =
    ground (arith, frames-fuel f g n (drop n buf) h, length-drop n buf)

take_within :
    (n : ℕ) (xs ys : List ℕ)
    → n ≤ length xs
    → (take n (xs ++ ys) ≡ take n xs) × (drop n (xs ++ ys) ≡ drop n xs ++ ys)
take_within zero xs ys h = (refl, refl)
take_within (suc n) [] ys h = absurd (omega arith)
take_within (suc n) (x ∷ xs) ys h = ground (arith, take_within n xs ys)

-- Cutting after a chunk and cutting all at once give the same frames and the same left-over.
pub frames-append :
    (f g k n : ℕ) (xs ys : List ℕ)
    → 0 < n
    → length xs ≤ f
    → length (rest_of f n xs ++ ys) ≤ g
    → length (xs ++ ys) ≤ k
    → (frames_of k n (xs ++ ys) ≡ frames_of f n xs ++ frames_of g n (rest_of f n xs ++ ys))
      × (rest_of k n (xs ++ ys) ≡ rest_of g n (rest_of f n xs ++ ys))
unfolding frames_of rest_of
frames-append zero g k n xs ys h a b c = frames-fuel k g n (xs ++ ys) h c b
frames-append (suc f) g zero n xs ys h a b c = elim (Bool-cases (leb n (length xs))) [
  | inl e ↦ absurd (ground (arith, length-append xs ys))
  | inr e ↦ rw e (frames-fuel zero g n (xs ++ ys) h c (rw e at b))
]
frames-append (suc f) g (suc k) n xs ys h a b c = elim (Bool-cases (leb n (length xs))) [
  | inl e ↦
      let (t, d) = take_within n xs ys (ground arith) in
      let whole : leb n (length (xs ++ ys)) ≡ true = ground (arith, length-append xs ys) in
      let (p, q) =
        frames-append f g k n (drop n xs) ys h (ground (arith, length-drop n xs)) (rw e at b)
          (ground (arith, length-append xs ys, length-append (drop n xs) ys, length-drop n xs)) in
      rw (e, whole, t, d) (ap (λ l. take n xs ∷ l) p, q)
  | inr e ↦ rw e (frames-fuel (suc k) g n (xs ++ ys) h c (rw e at b))
]
