-- ===== src/Vad/Machine/Examples.antt =====
-- audio/vad/vad.go at concrete audio: a detector of two-sample frames whose confidence is the
-- first byte, with whole numbers for its float64.
use voxigo.Prelude.{
  ℕ, ◌*◌, ◌/◌, ◌≤◌, ◌<◌, ◌≡◌, refl, Bool, true, false, List, [], ◌∷◌, ◌++◌, inl, arith, leb, length,
}
use voxigo.Vad.Machine.{
  Scoring, Machine, Decision, quiet, speaking, reset_decision, advance, confirm, score, consume,
  analyze_audio, set_sample_rate,
}
use voxigo.Vad.Machine.Verdicts.{hear, listen, history}
use voxigo.Vad.Machine.Runs.{
  IsVoiced, HadRun, run_of, replicate, voiced_needs_run, quiet_needs_run, speech_run_confirms,
  silent_run_confirms,
}
use voxigo.Vad.Machine.Buffer.{frames_of, flatten}
use voxigo.Vad.Machine.Chunks.{audio, verdicts, analyze_audio-append, analyze_audio-hear}

abbrev first_byte : List ℕ → ℕ
first_byte [] = 0
first_byte (b ∷ bs) = b

abbrev scoring : Scoring
scoring = record {
  Float = ℕ;
  Volume = ℕ;
  at_least = λ a b. leb b a;
  frame_count = λ secs frames rate. secs * rate / frames;
  num_frames_required = λ rate. 2;
  voice_confidence = first_byte;
  update = λ frame rate v. first_byte frame;
  smooth = λ v p. v;
}

abbrev machine : Machine scoring
machine = record {
  params = record { confidence = 5; start_secs = 2; stop_secs = 2; min_volume = 1 };
  sample_rate = 2;
  frame_num_bytes = 4;
  start_frames = 2;
  stop_frames = 2;
  decision = reset_decision;
  buf = [];
  volume = 0;
  prev_volume = 0;
}

abbrev loud : List ℕ
loud = 9 ∷ 0 ∷ 0 ∷ 0 ∷ []

set_up : set_sample_rate scoring 2 machine ≡ machine
unfolding set_sample_rate
set_up = refl

speech_heard :
    (analyze_audio scoring (loud ++ (loud ++ (9 ∷ []))) machine).decision.state ≡ speaking
unfolding analyze_audio consume score advance confirm
speech_heard = refl

analyze_audio-append_example :
    audio scoring (analyze_audio scoring (0 ∷ 0 ∷ 0 ∷ []) (analyze_audio scoring (9 ∷ []) machine))
    ≡ audio scoring (analyze_audio scoring loud machine)
analyze_audio-append_example =
    analyze_audio-append scoring (9 ∷ []) (0 ∷ 0 ∷ 0 ∷ []) machine (omega arith)

analyze_audio-hear_example :
    let fs = frames_of 4 4 loud in
    let m = analyze_audio scoring loud machine in
    (m.decision ≡ hear 2 2 (verdicts scoring fs machine) reset_decision)
    × (flatten fs ++ m.buf ≡ loud)
    × (length m.buf < 4)
unfolding confirm
analyze_audio-hear_example = analyze_audio-hear scoring loud machine (omega arith) refl

abbrev calls : List (List Bool)
calls = (true ∷ []) ∷ (true ∷ []) ∷ []

calls-IsVoiced : IsVoiced (listen 2 2 calls reset_decision)
unfolding advance confirm
calls-IsVoiced = inl refl

voiced_needs_run_example : HadRun 2 true (history [] calls)
voiced_needs_run_example = voiced_needs_run 2 2 calls calls-IsVoiced

quiet_needs_run_example : 2 ≤ run_of false (false ∷ false ∷ true ∷ true ∷ [])
unfolding advance confirm
quiet_needs_run_example = quiet_needs_run 2 2 calls (false ∷ false ∷ []) calls-IsVoiced refl

speech_run_confirms_example : (hear 3 2 (replicate 3 true) reset_decision).state ≡ speaking
speech_run_confirms_example = speech_run_confirms 3 2 2 reset_decision refl (omega arith)

abbrev in_speech : Decision
in_speech = record { state = speaking; starting_count = 0; stopping_count = 0 }

silent_run_confirms_example : (hear 3 2 (replicate 2 false) in_speech).state ≡ quiet
silent_run_confirms_example = silent_run_confirms 3 2 1 in_speech refl (omega arith)
