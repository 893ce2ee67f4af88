-- ===== src/Vad/Machine/Verdicts.antt =====
-- audio/vad/vad.go, the decision alone: what a call of AnalyzeAudio does to it, given for each
-- whole frame whether it scored as speech.
use voxigo.Prelude.{ℕ, Bool, List, [], ◌∷◌}
use voxigo.Vad.Machine.{Decision, advance, confirm}

abbrev pub advance_all : List Bool → Decision → Decision
advance_all [] d = d
advance_all (v ∷ vs) d = advance_all vs (advance v d)

-- One call.
abbrev pub hear : ℕ → ℕ → List Bool → Decision → Decision
hear start_frames stop_frames vs d = confirm start_frames stop_frames (advance_all vs d)

-- A stream of calls.
abbrev pub listen : ℕ → ℕ → List (List Bool) → Decision → Decision
listen s e [] d = d
listen s e (vs ∷ calls) d = listen s e calls (hear s e vs d)

-- The frames so far, the latest first.
abbrev pub and_then : List Bool → List Bool → List Bool
and_then h [] = h
and_then h (v ∷ vs) = and_then (v ∷ h) vs

abbrev pub history : List Bool → List (List Bool) → List Bool
history h [] = h
history h (vs ∷ calls) = history (and_then h vs) calls
