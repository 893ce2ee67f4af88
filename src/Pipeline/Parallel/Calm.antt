-- ===== src/Pipeline/Parallel/Calm.antt =====
-- pipeline/parallel.go: the threads of branches that only push other frames than a lifecycle frame.
use voxigo.Prelude.{
  ℕ, ◌≡◌, refl, ◌⊎◌, inl, inr, true, false, not, List, [], ◌∷◌, ◌++◌, All, arith, ◌==◌, if-cases,
}
use voxigo.Pipeline.Parallel.{
  Sent, Task, emits, sinks, syncs, flushes, pushes, resumes, Parallel, is_lifecycle, is_seen,
  exec_emit, exec_sink, exec,
}

-- One thread is of the first kind, and all others of the second.
pub data OneOf (A B : List Task → Type 0) : List (List Task) → Type 0 where
  this : {k : List Task} {ks : List (List Task)} → A k → All B ks → OneOf A B (k ∷ ks)
  that : {k : List Task} {ks : List (List Task)} → B k → OneOf A B ks → OneOf A B (k ∷ ks)

All-replace :
    {B : List Task → Type 0} (before behind : List (List Task)) (k : List Task)
    → All B (before ++ k ∷ behind)
    → B k × ((l : List Task) → B l → All B (before ++ l ∷ behind))
All-replace [] behind k h = (h.0, λ l b. (b, h.1))
All-replace (j ∷ before) behind k h =
    let (b, rebuild) = All-replace before behind k (h.1) in (b, λ l c. (h.0, rebuild l c))

-- The thread in the middle is of one of the kinds, and one of that kind can take its place.
pub OneOf-replace :
    {A B : List Task → Type 0} (before behind : List (List Task)) (k : List Task)
    → OneOf A B (before ++ k ∷ behind)
    → (A k × ((C : List Task → Type 0) (l : List Task) → C l → OneOf C B (before ++ l ∷ behind)))
      ⊎ (B k × ((l : List Task) → B l → OneOf A B (before ++ l ∷ behind)))
OneOf-replace [] behind k (this a bs) = inl (a, λ C l c. this c bs)
OneOf-replace [] behind k (that b o) = inr (b, λ l c. that c o)
OneOf-replace (j ∷ before) behind k (this a bs) =
    let (b, rebuild) = All-replace before behind k bs in inr (b, λ l c. this a (rebuild l c))
OneOf-replace (j ∷ before) behind k (that b o) = elim (OneOf-replace before behind k o) [
  | inl (a, rebuild) ↦ inl (a, λ C l c. that b (rebuild C l c))
  | inr (c, rebuild) ↦ inr (c, λ l d. that b (rebuild l d))
]

-- What a branch does that neither ends nor starts anything: it pushes other frames.
abbrev pub IsCalmTask : ℕ → Task → Type 0
IsCalmTask id (emits y) = (y.frame.id == id) ≡ false
IsCalmTask id (sinks y) = (is_lifecycle y.frame ≡ false) × ((y.frame.id == id) ≡ false)
IsCalmTask id (syncs y) = ⊥
IsCalmTask id flushes = ⊥
IsCalmTask id (pushes y) = ⊥
IsCalmTask id resumes = ⊥

abbrev pub IsCalm : ℕ → List Task → Type 0
IsCalm id ts = All (IsCalmTask id) ts

-- A calm task keeps the locks as they are, pushes nothing out and leaves calm things to do.
abbrev pub Calms : Parallel → ℕ → Parallel × List Task → Type 0
Calms p id r =
    (r.0.out ≡ p.out)
    × (r.0.syncing ≡ p.syncing)
    × (is_seen id r.0.seen ≡ is_seen id p.seen)
    × IsCalm id (r.1)

exec_emit-Calms :
    (id : ℕ) (y : Sent) (p : Parallel)
    → (y.frame.id == id) ≡ false
    → p.syncing ≡ true
    → Calms p id (exec_emit y p)
unfolding exec_emit
exec_emit-Calms id y p d s =
    if-cases (Calms p id) (is_seen y.frame.id p.seen) (λ _. (refl, refl, refl, tt))
      (λ _.
        if-cases (Calms p id) p.syncing (λ _. (refl, refl, ground arith, tt))
          (λ n. absurd (ground arith)))

pub exec-Calms :
    (id : ℕ) (t : Task) (p : Parallel) → IsCalmTask id t → p.syncing ≡ true → Calms p id (exec t p)
unfolding exec exec_sink
exec-Calms id (emits y) p c s = exec_emit-Calms id y p c s
exec-Calms id (sinks y) p c s =
    if-cases (Calms p id) (not (is_lifecycle y.frame)) (λ _. (refl, refl, refl, (c.1, tt)))
      (λ n. absurd (ground arith))
exec-Calms id (syncs y) p c s = absurd c
exec-Calms id flushes p c s = absurd c
exec-Calms id (pushes y) p c s = absurd c
exec-Calms id resumes p c s = absurd c
