-- ===== src/Pipeline/Parallel/Examples.antt =====
-- pipeline/parallel.go with two branches.
use voxigo.Prelude.{
  here, next, ℕ, suc, ◌≡◌, refl, ◌≤◌, true, [], ◌∷◌, ◌++◌, arith, if◌then◌else◌, ◌==◌, bytes,
}
use voxigo.Frames.{Body, downstream, start_frame, transcription}
use voxigo.Pipeline.Parallel.{
  Sent, emits, sinks, Parallel, new_parallel, is_lifecycle, is_seen, process_frame, exec_emit,
  release, exec_report, exec_sink, exec, source_emits, runs,
}
use voxigo.Pipeline.Parallel.Once.{copies, one_if, pushed_once}
use voxigo.Pipeline.Parallel.Release.{reports, exec_all, last_branch_releases}

abbrev sent : ℕ → Body → Sent
sent i b = record { frame = record { id = i; body = b }; dir = downstream }

abbrev starting : Sent
starting = sent 1 start_frame

abbrev word : Sent
word = sent 2 (transcription (bytes "hi") true)

abbrev entered : Parallel
unfolding process_frame is_lifecycle new_parallel
entered = process_frame starting (new_parallel 2)

-- The word that a fast branch sends before the other has started is held back.
held_back : (exec_all (sinks starting ∷ emits word ∷ []) entered).buffered ≡ word ∷ []
unfolding exec_all exec exec_sink exec_report exec_emit is_lifecycle entered
held_back = refl

last_branch_releases_example :
    (exec
      (sinks starting)
      (exec_all (sinks starting ∷ emits word ∷ []) (process_frame starting entered))).1
    ≡ (if suc (reports 1 (sinks starting ∷ emits word ∷ [])) == 2 then release starting else [])
unfolding is_lifecycle entered
last_branch_releases_example =
    last_branch_releases starting entered (sinks starting ∷ emits word ∷ []) refl (omega arith)

-- A branch's source emits the word, and the thread of that takes the lock.
abbrev after_emit : Parallel
after_emit =
    record ((exec (emits word) (record (new_parallel 2) { threads = (emits word ∷ []) ∷ [] })).0) {
      threads =
          []
          ++ ((exec (emits word) (record (new_parallel 2) { threads = (emits word ∷ []) ∷ [] })).1
              ++ [])
            ∷ [];
    }

pushed_once_example : copies 2 after_emit.out ≤ one_if (is_seen 2 after_emit.seen)
unfolding new_parallel
pushed_once_example =
    pushed_once 2 2 (next (next here (source_emits word)) (runs [] [] (emits word) [] refl))

-- The last branch has just reported the StartFrame, and a word is on its way.
abbrev releasing : Parallel
releasing = record (new_parallel 2) {
  syncing = true;
  threads = release starting ∷ (emits word ∷ []) ∷ [];
}

abbrev word_held : Parallel
word_held = record ((exec (emits word) releasing).0) {
  threads = release starting ∷ ((exec (emits word) releasing).1 ++ []) ∷ [];
}
