-- ===== src/Pipeline/Parallel/Release.antt =====
-- pipeline/parallel.go: when a lifecycle frame is released.
use voxigo.Prelude.{
  ℕ, suc, ◌-◌, ◌<◌, ◌≡◌, refl, ap, Bool, true, false, ◌&&◌, List, [], ◌∷◌, arith, if◌then◌else◌,
  ◌==◌, ==_iff, ltb, Bool-cases, inl, inr,
}
use voxigo.Pipeline.Parallel.{
  Sent, Task, emits, sinks, syncs, flushes, pushes, resumes, Parallel, is_lifecycle, process_frame,
  exec_emit, release, exec_report, exec_sink, exec_sync, flush_round, exec,
}

-- The branch's report of a lifecycle frame with this id.
abbrev is_report : ℕ → Task → Bool
is_report id (sinks x) = is_lifecycle x.frame && (x.frame.id == id)
is_report id _ = false

abbrev pub reports : ℕ → List Task → ℕ
reports id [] = 0
reports id (t ∷ ts) = let rest = reports id ts in if is_report id t then suc rest else rest

-- Tasks done one after the other, in any order the threads take them.
unfoldable pub exec_all : List Task → Parallel → Parallel
unfolding exec
exec_all [] p = p
exec_all (t ∷ ts) p = exec_all ts (exec t p).0

exec_report-counter :
    (id : ℕ) (x : Sent) (p : Parallel)
    → (exec_report x p).0.counter id ≡ (if x.frame.id == id then p.counter id - 1 else p.counter id)
unfolding exec_report
exec_report-counter id x p = elim (Bool-cases (x.frame.id == id)) [
  | inl b ↦ let same = ap p.counter ((==_iff x.frame.id id).0 b) in ground arith
  | inr b ↦ ground arith
]

flush_round-counter :
    (id : ℕ) (xs : List Sent) (p : Parallel) → (flush_round xs p).0.counter id ≡ p.counter id
flush_round-counter id [] p = refl
flush_round-counter id (x ∷ xs) p = refl

exec-counter :
    (id : ℕ) (t : Task) (p : Parallel)
    → (exec t p).0.counter id ≡ (if is_report id t then p.counter id - 1 else p.counter id)
unfolding exec exec_emit exec_sink exec_sync
exec-counter id (emits x) p = ground arith
exec-counter id (sinks x) p = ground (arith, exec_report-counter id x p)
exec-counter id (syncs x) p = ground arith
exec-counter id flushes p = flush_round-counter id p.buffered p
exec-counter id (pushes x) p = refl
exec-counter id resumes p = refl

exec_all-counter :
    (id : ℕ) (ts : List Task) (p : Parallel)
    → (exec_all ts p).counter id ≡ p.counter id - reports id ts
unfolding exec_all
exec_all-counter id [] p = omega arith
exec_all-counter id (t ∷ ts) p =
    ground (arith, exec-counter id t p, exec_all-counter id ts (exec t p).0)

process_frame-counter :
    (x : Sent) (p : Parallel)
    → is_lifecycle x.frame ≡ true
    → (process_frame x p).counter x.frame.id ≡ p.branches
unfolding process_frame
process_frame-counter x p l = ground (arith, ==_iff x.frame.id x.frame.id)

exec_report-tasks :
    (x : Sent) (p : Parallel)
    → (exec_report x p).1 ≡ (if ltb 0 (p.counter x.frame.id - 1) then [] else release x)
unfolding exec_report
exec_report-tasks x p = ground arith

-- A lifecycle frame waits for the last branch: once it is fanned out, whatever else the branches
-- do, a branch that reports it while others are still to report releases nothing, and the report
-- of the last branch releases it.
pub last_branch_releases :
    (x : Sent) (p : Parallel) (ts : List Task)
    → is_lifecycle x.frame ≡ true
    → reports x.frame.id ts < p.branches
    → (exec (sinks x) (exec_all ts (process_frame x p))).1
      ≡ (if suc (reports x.frame.id ts) == p.branches then release x else [])
unfolding exec exec_sink
last_branch_releases x p ts l few =
    let armed = process_frame-counter x p l in
    let count = exec_all-counter x.frame.id ts (process_frame x p) in
    let tasks = exec_report-tasks x (exec_all ts (process_frame x p)) in ground arith
