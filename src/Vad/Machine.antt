-- ===== src/Vad/Machine.antt =====
-- audio/vad/vad.go: the detection state machine that the analyzers share. Its floating-point
-- numbers, the model's confidence and the loudness measurement are a `Scoring`.
pub mod Verdicts
pub mod Runs
pub mod Buffer
pub mod Chunks
mod Examples
use voxigo.Prelude.{
  ℕ, zero, suc, ◌+◌, ◌*◌, Bool, true, false, ◌&&◌, List, [], ◌∷◌, ◌++◌, ltb, leb, if◌then◌else◌,
  length, take, drop,
}

pub data State : Type 0 where
  quiet starting speaking stopping : State

-- What the machine computes with in float64, and the half that a concrete analyzer supplies.
pub record Scoring : Type 1 where
  pub Float : Type 0
  pub Volume : Type 0
  -- `a >= b`
  pub at_least : Float → Float → Bool
  -- `int(math.Round(secs / (frames / rate)))`
  pub frame_count : Float → ℕ → ℕ → ℕ
  -- the confidencer, at a sample rate
  pub num_frames_required : ℕ → ℕ
  pub voice_confidence : List ℕ → Float
  -- loudness.Tracker and loudness.Smooth at the package's factor
  pub update : List ℕ → ℕ → Volume → Volume
  pub smooth : Volume → Float → Float

-- The counters of the decision, apart from the audio and the volume.
pub record Decision : Type 0 where
  pub state : State
  pub starting_count : ℕ
  pub stopping_count : ℕ

abbrev pub reset_decision : Decision
reset_decision = record { state = quiet; starting_count = 0; stopping_count = 0 }

advance_speech : State → Decision → Decision
advance_speech quiet d = record d { state = starting; starting_count = 1 }
advance_speech starting d = record d { starting_count = d.starting_count + 1 }
advance_speech stopping d = record d { state = speaking; stopping_count = 0 }
advance_speech speaking d = d

advance_silence : State → Decision → Decision
advance_silence starting d = record d { state = quiet; starting_count = 0 }
advance_silence speaking d = record d { state = stopping; stopping_count = 1 }
advance_silence stopping d = record d { stopping_count = d.stopping_count + 1 }
advance_silence quiet d = d

pub advance : Bool → Decision → Decision
unfolding advance_speech advance_silence
advance true d = advance_speech d.state d
advance false d = advance_silence d.state d

abbrev is_starting : State → Bool
is_starting starting = true
is_starting _ = false

abbrev is_stopping : State → Bool
is_stopping stopping = true
is_stopping _ = false

-- The two confirmations at the end of `AnalyzeAudio`.
confirm_start : ℕ → Decision → Decision
confirm_start n d =
    if is_starting d.state && leb n d.starting_count
    then record d { state = speaking; starting_count = 0 }
    else d

confirm_stop : ℕ → Decision → Decision
confirm_stop n d =
    if is_stopping d.state && leb n d.stopping_count
    then record d { state = quiet; stopping_count = 0 }
    else d

pub confirm : ℕ → ℕ → Decision → Decision
unfolding confirm_start confirm_stop
confirm start_frames stop_frames d = confirm_stop stop_frames (confirm_start start_frames d)

module _ (sc : Scoring) where
  open sc use {
    Float, Volume, at_least, frame_count, num_frames_required, voice_confidence, update, smooth,
  }

  pub record Params : Type 0 where
    pub confidence : Float
    pub start_secs : Float
    pub stop_secs : Float
    pub min_volume : Float

  pub record Machine : Type 0 where
    pub params : Params
    pub sample_rate : ℕ
    pub frame_num_bytes : ℕ
    pub start_frames : ℕ
    pub stop_frames : ℕ
    pub decision : Decision
    pub buf : List ℕ
    pub volume : Volume
    pub prev_volume : Float

  pub set_sample_rate : ℕ → Machine → Machine
  set_sample_rate rate m =
      let frames = num_frames_required rate in
      record m {
        sample_rate = rate;
        frame_num_bytes = frames * 2;
        start_frames = frame_count m.params.start_secs frames rate;
        stop_frames = frame_count m.params.stop_secs frames rate;
        decision = reset_decision;
      }

  pub set_params : Params → Machine → Machine
  unfolding set_sample_rate
  set_params p m =
      let m' = record m { params = p } in
      if ltb 0 m.sample_rate then set_sample_rate m.sample_rate m' else m'

  pub reset : Machine → Machine
  reset m = record m { decision = reset_decision; buf = [] }

  -- One round of the loop of `AnalyzeAudio`, on the frame already cut off.
  pub score : List ℕ → Machine → Machine
  score frame m =
      let v = update frame m.sample_rate m.volume in
      let p = smooth v m.prev_volume in
      record m {
        volume = v;
        prev_volume = p;
        decision =
            advance
              (at_least (voice_confidence frame) m.params.confidence
                && at_least p m.params.min_volume)
              m.decision;
      }

  -- The loop, on fuel: each round takes a frame off the buffer.
  pub consume : ℕ → Machine → Machine
  consume zero m = m
  consume (suc fuel) m =
      let n = m.frame_num_bytes in
      let more = consume fuel (score (take n m.buf) (record m { buf = drop n m.buf })) in
      if leb n (length m.buf) then more else m

  -- A chunk shorter than what completes a frame is only buffered.
  pub analyze_audio : List ℕ → Machine → Machine
  analyze_audio chunk m =
      let m' = record m { buf = m.buf ++ chunk } in
      let done = consume (length m'.buf) m' in
      if ltb (length m'.buf) m.frame_num_bytes
      then m'
      else record done { decision = confirm m.start_frames m.stop_frames done.decision }
