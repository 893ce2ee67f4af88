-- ===== src/Turns/Starts/WakePhrase.antt =====
-- processor/turns/start.go: WakePhraseStart. The compiled patterns, and what is left of a text by
-- `wakePunctuation`, are regular expressions and parameters; texts are lists of code points.
-- `cancel_timer` is the timer, with the time it is due at, that the closure of that name stops.
mod Examples
pub mod Asleep
pub mod Guards
pub mod Window
use voxigo.Prelude.{
  ℕ, suc, ◌+◌, ◌-◌, Bool, true, false, not, ◌&&◌, Option, none, some, List, [], ◌∷◌, ◌++◌, Text,
  if◌then◌else◌, ◌==◌, ltb, length, drop,
}
use voxigo.Frames.{Body, user_speaking, bot_speaking, transcription, vad_user_started_speaking}
use voxigo.Turns.Controller.{
  Script, done, trigger, Trigger, started, reset_aggregation, Methods, continue, stop,
}
use voxigo.Turns.Timers
use voxigo.Turns.Timers.{without, is_due}
use voxigo.Turns.Starts.{Base, both, start_turn}

-- A phrase, and whether its pattern matches a text.
pub record Pattern : Type 0 where
  pub phrase : Text
  pub matches : Text → Bool

-- The callbacks that the code calls where they are set.
pub data Call : Type 0 where
  detected : Text → Call
  timed_out : Call

-- `calls` are the callbacks so far, the last one first.
pub record WakePhraseStart : Type 0 where
  pub base : Base
  pub patterns : List Pattern
  pub timeout : ℕ
  pub single : Bool
  pub awake : Bool
  pub accum : Text
  pub cancel_timer : Option (ℕ × ℕ)
  pub timers : List (ℕ × ℕ)
  pub next_timer : ℕ
  pub now : ℕ
  pub calls : List Call

unfoldable pub wake_phrase_default_timeout : ℕ
wake_phrase_default_timeout = 10000000000

unfoldable pub wake_accum_limit : ℕ
wake_accum_limit = 250

unfoldable pub new_wake_phrase_start : List Pattern → ℕ → Bool → WakePhraseStart
unfolding wake_phrase_default_timeout
new_wake_phrase_start patterns timeout single = record {
  base = both;
  patterns = patterns;
  timeout = if timeout == 0 then wake_phrase_default_timeout else timeout;
  single = single;
  awake = false;
  accum = [];
  cancel_timer = none;
  timers = [];
  next_timer = 0;
  now = 0;
  calls = [];
}

unfoldable pub refresh : WakePhraseStart → WakePhraseStart
refresh s =
    let timer : ℕ × ℕ = (s.next_timer, s.now + s.timeout) in
    record s {
      cancel_timer = some timer;
      timers = timer ∷ Timers.stopped s.cancel_timer s.timers;
      next_timer = suc s.next_timer;
    }

unfoldable pub transition_to_awake : Text → WakePhraseStart → WakePhraseStart
unfolding refresh
transition_to_awake phrase s =
    let s' = refresh (record s { awake = true; accum = [] }) in
    record s' { calls = detected phrase ∷ s'.calls }

unfoldable pub transition_to_idle : WakePhraseStart → WakePhraseStart
transition_to_idle s = record s { awake = false; accum = []; calls = timed_out ∷ s.calls }

-- The last characters of the accumulator, as many as are kept.
unfoldable pub capped : Text → Text
unfolding wake_accum_limit
capped t = if ltb wake_accum_limit (length t) then drop (length t - wake_accum_limit) t else t

-- The first phrase that is in the accumulator.
unfoldable pub first_match : Text → List Pattern → Option Text
first_match t [] = none
first_match t (p ∷ ps) = if p.matches t then some p.phrase else first_match t ps

abbrev pub woken : Option Text → WakePhraseStart → WakePhraseStart × Bool
woken none s = (s, false)
woken (some phrase) s = (transition_to_awake phrase s, true)

-- `TurnStarted`.
unfoldable pub turn_started : WakePhraseStart → WakePhraseStart
unfolding refresh
turn_started s = if s.awake && not s.single then refresh s else s

unfoldable pub clean_up : WakePhraseStart → WakePhraseStart
clean_up s = record s { cancel_timer = none; timers = Timers.stopped s.cancel_timer s.timers }

abbrev pub is_activity : Body → Bool
is_activity user_speaking = true
is_activity bot_speaking = true
is_activity (transcription t final) = true
is_activity (vad_user_started_speaking secs) = true
is_activity _ = false

unfoldable pub process_awake : Body → WakePhraseStart → Script WakePhraseStart
unfolding refresh
process_awake b s = done (if not s.single && is_activity b then refresh s else s) continue

unfoldable pub fall_asleep : WakePhraseStart → WakePhraseStart
unfolding transition_to_idle
fall_asleep s = if s.awake then transition_to_idle s else s

-- The callback of the inactivity timer.
unfoldable pub on_timeout : ℕ → WakePhraseStart → WakePhraseStart
unfolding fall_asleep
on_timeout n s =
    if is_due n s.now s.timers
    then fall_asleep (record s { cancel_timer = none; timers = without n s.timers })
    else s

-- A start that is asked for, or the transcript so far dropped.
abbrev pub after_check : WakePhraseStart × Bool → Script WakePhraseStart
after_check (s, true) = trigger s (started s.base.interrupts s.base.announces) (λ t. done t stop)
after_check (s, false) = trigger s reset_aggregation (λ t. done t stop)

module _ (strip_punctuation : Text → Text) where
  unfoldable pub check_wake_phrase : Text → WakePhraseStart → WakePhraseStart × Bool
  unfolding capped first_match transition_to_awake
  check_wake_phrase text s =
      let heard = capped (s.accum ++ 32 ∷ strip_punctuation text) in
      woken (first_match heard s.patterns) (record s { accum = heard })

  unfoldable pub process_idle : Body → WakePhraseStart → Script WakePhraseStart
  unfolding check_wake_phrase
  process_idle (transcription text final) s = after_check (check_wake_phrase text s)
  process_idle _ s = done s stop

  unfoldable pub process_when : Bool → Body → WakePhraseStart → Script WakePhraseStart
  unfolding process_idle process_awake
  process_when true b s = process_awake b s
  process_when false b s = process_idle b s

  unfoldable pub process_body : Body → WakePhraseStart → Script WakePhraseStart
  unfolding process_when
  process_body b s = process_when s.awake b s

  unfoldable pub methods : Methods WakePhraseStart
  unfolding process_body turn_started
  methods = record {
    process = λ f s. process_body f.body s;
    turn_started = turn_started;
    turn_stopped = λ s. s;
  }
