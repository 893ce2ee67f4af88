-- ===== src/Pipeline/Parallel/Once.antt =====
-- pipeline/parallel.go: the merge of the branches, in every interleaving of them.
use voxigo.Prelude.{
  Reach, Reach-keeps, ℕ, ◌+◌, ◌≤◌, ◌≡◌, refl, ap, ◌∙◌, Bool, true, false, List, [], ◌∷◌, ◌++◌,
  arith, ◌==◌,
}
use voxigo.Pipeline.Parallel.{
  Sent, Task, emits, sinks, syncs, flushes, pushes, resumes, Parallel, new_parallel, is_seen,
  process_frame, exec_emit, release, exec_report, exec_sink, exec_sync, flush_round, exec, Step,
  enters, source_emits, sink_gets, runs,
}

abbrev pub one_if : Bool → ℕ
one_if true = 1
one_if false = 0

-- How many times a frame id stands in a list.
abbrev pub copies : ℕ → List Sent → ℕ
copies id [] = 0
copies id (x ∷ xs) = one_if (x.frame.id == id) + copies id xs

-- … and about to be pushed.
abbrev task_copies : ℕ → Task → ℕ
task_copies id (pushes x) = one_if (x.frame.id == id)
task_copies id (emits x) = 0
task_copies id (sinks x) = 0
task_copies id (syncs x) = 0
task_copies id flushes = 0
task_copies id resumes = 0

abbrev pending : ℕ → List Task → ℕ
pending id [] = 0
pending id (t ∷ ts) = task_copies id t + pending id ts

abbrev all_pending : ℕ → List (List Task) → ℕ
all_pending id [] = 0
all_pending id (k ∷ ks) = pending id k + all_pending id ks

copies-append : (id : ℕ) (xs ys : List Sent) → copies id (xs ++ ys) ≡ copies id xs + copies id ys
copies-append id [] ys = omega arith
copies-append id (x ∷ xs) ys = omega (arith, copies-append id xs ys)

pending-append :
    (id : ℕ) (ts us : List Task) → pending id (ts ++ us) ≡ pending id ts + pending id us
pending-append id [] us = omega arith
pending-append id (t ∷ ts) us = omega (arith, pending-append id ts us)

all_pending-append :
    (id : ℕ) (js ks : List (List Task))
    → all_pending id (js ++ ks) ≡ all_pending id js + all_pending id ks
all_pending-append id [] ks = omega arith
all_pending-append id (j ∷ js) ks = omega (arith, all_pending-append id js ks)

-- What is out, is held back or is about to go out under an id, with `more` elsewhere, is covered
-- by the mark on the id.
abbrev Covered : ℕ → ℕ → Parallel → Type 0
Covered id more p = copies id p.out + copies id p.buffered + more ≤ one_if (is_seen id p.seen)

abbrev StaysCovered : ℕ → ℕ → Parallel × List Task → Type 0
StaysCovered id more r = Covered id (pending id r.1 + more) (r.0)

exec_emit-Covered :
    (id more : ℕ) (x : Sent) (p : Parallel)
    → Covered id more p
    → StaysCovered id more (exec_emit x p)
unfolding exec_emit
exec_emit-Covered id more x p h = ground (arith, copies-append id p.buffered (x ∷ []))

exec_sync-Covered :
    (id more : ℕ) (x : Sent) (p : Parallel)
    → Covered id more p
    → StaysCovered id more (exec_sync x p)
unfolding exec_sync
exec_sync-Covered id more x p h = ground arith

release-pending : (id : ℕ) (x : Sent) → pending id (release x) ≡ 0
unfolding release
release-pending id x = ground arith

exec_sink-Covered :
    (id more : ℕ) (x : Sent) (p : Parallel)
    → Covered id more p
    → StaysCovered id more (exec_sink x p)
unfolding exec_sink exec_report
exec_sink-Covered id more x p h = ground (arith, release-pending id x)

flush_round-Covered :
    (id more : ℕ) (xs : List Sent) (p : Parallel)
    → p.buffered ≡ xs
    → Covered id more p
    → StaysCovered id more (flush_round xs p)
flush_round-Covered id more [] p e h = ground arith
flush_round-Covered id more (x ∷ xs) p e h = ground arith

exec-Covered :
    (id more : ℕ) (t : Task) (p : Parallel)
    → Covered id (task_copies id t + more) p
    → StaysCovered id more (exec t p)
unfolding exec
exec-Covered id more (emits x) p h = exec_emit-Covered id more x p (omega arith)
exec-Covered id more (sinks x) p h = exec_sink-Covered id more x p (omega arith)
exec-Covered id more (syncs x) p h = exec_sync-Covered id more x p (omega arith)
exec-Covered id more flushes p h = flush_round-Covered id more p.buffered p refl (omega arith)
exec-Covered id more (pushes x) p h = omega arith
exec-Covered id more resumes p h = omega arith

Step-Covered :
    (id : ℕ) {p q : Parallel}
    → Step p q
    → Covered id (all_pending id p.threads) p
    → Covered id (all_pending id q.threads) q
unfolding process_frame
Step-Covered id (enters x) h = ground arith
Step-Covered id (source_emits x) h = omega arith
Step-Covered id (sink_gets x) h = omega arith
Step-Covered id {p} (runs before behind t rest e) h =
    let ks = (exec t p).1 in
    let all : all_pending id p.threads
        ≡ task_copies id t + (pending id rest + all_pending id before + all_pending id behind) =
      ap (all_pending id) e ∙ omega (arith, all_pending-append id before ((t ∷ rest) ∷ behind)) in
    let kept =
      exec-Covered id (pending id rest + all_pending id before + all_pending id behind) t p
        (omega arith) in
    omega (arith, all_pending-append id before ((ks ++ rest) ∷ behind), pending-append id ks rest)

Reach-Covered :
    (id n : ℕ) {p : Parallel}
    → Reach Step (new_parallel n) p
    → Covered id (all_pending id p.threads) p
unfolding new_parallel
Reach-Covered id n r =
    Reach-keeps (λ p. Covered id (all_pending id p.threads) p) (λ p q st. Step-Covered id st)
      (omega arith) r

-- No frame leaves a parallel pipeline twice: whatever the branches push and however they
-- interleave, at most one frame with a given id is pushed out, and then the id is marked as seen.
pub pushed_once :
    (id n : ℕ) {p : Parallel}
    → Reach Step (new_parallel n) p
    → copies id p.out ≤ one_if (is_seen id p.seen)
pushed_once id n r = omega (arith, Reach-Covered id n r)
