-- ===== src/Turns/Starts.antt =====
-- processor/turns/start.go: start strategies, as objects of the turn controller. The wake phrase
-- strategy, which has a timer, is WakePhrase.
pub mod BargeIn
pub mod WakePhrase
mod Examples
use voxigo.Prelude.{
  ℕ, Bool, true, false, Option, none, some, Text, if◌then◌else◌, leb, count_fields,
}
use voxigo.Frames.{
  Frame, Body, vad_user_started_speaking, transcription, interim_transcription,
  bot_started_speaking, bot_stopped_speaking, proposed_user_started_speaking, user_started_speaking,
}
use voxigo.Turns.Controller.{
  Script, done, trigger, started, reset_aggregation, Methods, continue, stop,
}

-- `StartStrategyBase`: EnableInterruptions and EnableUserSpeakingFrames.
pub record Base : Type 0 where
  pub interrupts : Bool
  pub announces : Bool

pub data StartStrategy : Type 0 where
  vad_start : Base → StartStrategy
  -- useInterim
  transcription_start : Base → Bool → StartStrategy
  -- minWords, useInterim, botSpeaking
  min_words_start : Base → ℕ → Bool → Bool → StartStrategy
  external_start : Base → StartStrategy

abbrev pub both : Base
both = record { interrupts = true; announces = true }

abbrev pub or_true : Option Bool → Bool
or_true none = true
or_true (some b) = b

unfoldable pub new_vad_start : StartStrategy
new_vad_start = vad_start both

unfoldable pub new_transcription_start : Option Bool → StartStrategy
new_transcription_start use_interim = transcription_start both (or_true use_interim)

unfoldable pub new_min_words_start : ℕ → Option Bool → StartStrategy
new_min_words_start n use_interim = min_words_start both n (or_true use_interim) false

unfoldable pub new_external_start : Option Bool → StartStrategy
new_external_start interrupts =
    external_start (record { interrupts = or_true interrupts; announces = true })

-- `TriggerStarted`, or the override of it, and then `return Stop`.
abbrev pub start_turn : Bool → Bool → StartStrategy → Script StartStrategy
start_turn interrupts announces s = trigger s (started interrupts announces) (λ t. done t stop)

unfoldable pub process_vad : Base → Body → StartStrategy → Script StartStrategy
process_vad b (vad_user_started_speaking w) s = start_turn b.interrupts b.announces s
process_vad b _ s = done s continue

unfoldable pub process_transcription : Base → Bool → Body → StartStrategy → Script StartStrategy
process_transcription b use_interim (transcription t final) s =
    start_turn b.interrupts b.announces s
process_transcription b use_interim (interim_transcription t) s =
    if use_interim then start_turn b.interrupts b.announces s else done s continue
process_transcription b use_interim _ s = done s continue

unfoldable pub check : Base → ℕ → Bool → Text → StartStrategy → Script StartStrategy
check b min_words bot_speaking text s =
    if leb (if bot_speaking then min_words else 1) (count_fields text)
    then start_turn b.interrupts b.announces s
    else trigger s reset_aggregation (λ t. done t continue)

unfoldable pub process_min_words : Base → ℕ → Bool → Bool → Body → Script StartStrategy
unfolding check
process_min_words b n interim speaks bot_started_speaking =
    done (min_words_start b n interim true) continue
process_min_words b n interim speaks bot_stopped_speaking =
    done (min_words_start b n interim false) continue
process_min_words b n interim speaks (transcription t final) =
    check b n speaks t (min_words_start b n interim speaks)
process_min_words b n interim speaks (interim_transcription t) =
    if interim
    then check b n speaks t (min_words_start b n interim speaks)
    else done (min_words_start b n interim speaks) continue
process_min_words b n interim speaks _ = done (min_words_start b n interim speaks) continue

unfoldable pub process_external : Base → Body → StartStrategy → Script StartStrategy
process_external b proposed_user_started_speaking s = start_turn b.interrupts b.announces s
process_external b user_started_speaking s = start_turn false false s
process_external b _ s = done s continue

unfoldable pub process_start : Frame → StartStrategy → Script StartStrategy
unfolding process_vad process_transcription process_min_words process_external
process_start f (vad_start b) = process_vad b f.body (vad_start b)
process_start f (transcription_start b interim) =
    process_transcription b interim f.body (transcription_start b interim)
process_start f (min_words_start b n interim speaks) = process_min_words b n interim speaks f.body
process_start f (external_start b) = process_external b f.body (external_start b)

unfoldable pub start_turn_started : StartStrategy → StartStrategy
start_turn_started (min_words_start b n interim speaks) = min_words_start b n interim false
start_turn_started s = s

unfoldable pub start_methods : Methods StartStrategy
unfolding process_start start_turn_started
start_methods = record {
  process = process_start;
  turn_started = start_turn_started;
  turn_stopped = λ s. s;
}
