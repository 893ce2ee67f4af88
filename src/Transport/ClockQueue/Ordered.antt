-- ===== src/Transport/ClockQueue/Ordered.antt =====
-- transport/clockqueue.go: the order of the queue.
use voxigo.Prelude.{◌<◌, ◌≡◌, ◌≢◌, inl, inr, true, false, List, [], ◌∷◌, arith, All, Bool-cases}
use voxigo.Transport.ClockQueue.{Timed, less, heap_push}

less_trans : (a b c : Timed) → less a b ≡ true → less b c ≡ true → less a c ≡ true
unfolding less
less_trans a b c h k = ground arith

-- One frame is let out before another, and they are not the same.
abbrev pub Before : Timed → Timed → Type 0
Before x y = (less x y ≡ true) × (x.seq ≢ y.seq)

abbrev pub IsSorted : List Timed → Type 0
IsSorted [] = Unit
IsSorted (x ∷ xs) = All (Before x) xs × IsSorted xs

pub All-heap_push :
    (P : Timed → Type 0) (x : Timed) (ys : List Timed) → P x → All P ys → All P (heap_push x ys)
unfolding heap_push
All-heap_push P x [] p h = (p, tt)
All-heap_push P x (y ∷ ys) p h = elim (Bool-cases (less x y)) [
  | inl e ↦ rw e (p, h)
  | inr e ↦ rw e (h.0, All-heap_push P x ys p h.1)
]

pub All-weaken :
    (P Q : Timed → Type 0) → ((x : Timed) → P x → Q x) → (xs : List Timed) → All P xs → All Q xs
All-weaken P Q f [] h = tt
All-weaken P Q f (x ∷ xs) h = (f x h.0, All-weaken P Q f xs h.1)

-- What comes behind a frame comes behind the frames before it.
Before-all :
    (x y : Timed) (ys : List Timed)
    → less x y ≡ true
    → All (Before y) ys
    → All (λ z. z.seq < x.seq) ys
    → All (Before x) ys
Before-all x y [] l h f = tt
Before-all x y (z ∷ ys) l h f =
    ((less_trans x y z l (h.0.0), λ e. absurd (omega arith)), Before-all x y ys l h.1 f.1)

less-total : (x y : Timed) → y.seq < x.seq → less x y ≡ false → less y x ≡ true
unfolding less
less-total x y f h = ground arith

pub heap_push-IsSorted :
    (x : Timed) (ys : List Timed)
    → All (λ z. z.seq < x.seq) ys
    → IsSorted ys
    → IsSorted (heap_push x ys)
unfolding heap_push
heap_push-IsSorted x [] f h = (tt, tt)
heap_push-IsSorted x (y ∷ ys) f h = elim (Bool-cases (less x y)) [
  | inl e ↦ rw e (((e, λ s. absurd (omega arith)), Before-all x y ys e h.0 f.1), h)
  | inr e ↦ rw e (
    All-heap_push (Before y) x ys (less-total x y f.0 e, λ s. absurd (omega arith)) h.0,
    heap_push-IsSorted x ys f.1 h.1,
  )
]
