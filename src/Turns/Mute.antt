-- ===== src/Turns/Mute.antt =====
-- processor/turns/mute.go: the strategies that decide whether the user is heard. Each is its
-- state; `ShouldMute` takes a frame and is the state after it and the answer.
pub mod Histories
mod Examples
use voxigo.Prelude.{
  ℕ, Bool, true, false, not, ◌&&◌, ◌||◌, Option, none, some, List, [], ◌∷◌, Text, insert, delete,
  if◌then◌else◌,
}
use voxigo.Frames.{
  Frame, Body, bot_started_speaking, bot_stopped_speaking, error_frame, function_calls_started,
  function_call_result, function_call_cancel,
}

pub record AlwaysUserMute : Type 0 where
  pub bot_speaking : Bool

abbrev pub new_always_user_mute : AlwaysUserMute
new_always_user_mute = record { bot_speaking = false }

unfoldable pub always_note : Body → AlwaysUserMute → AlwaysUserMute
always_note bot_started_speaking s = record s { bot_speaking = true }
always_note bot_stopped_speaking s = record s { bot_speaking = false }
always_note _ s = s

unfoldable pub always_should_mute : Frame → AlwaysUserMute → AlwaysUserMute × Bool
always_should_mute f s = let s' = always_note f.body s in (s', s'.bot_speaking)

pub record FirstSpeechUserMute : Type 0 where
  pub bot_speaking : Bool
  pub first_handled : Bool

abbrev pub new_first_speech_user_mute : FirstSpeechUserMute
new_first_speech_user_mute = record { bot_speaking = false; first_handled = false }

unfoldable pub first_note : Body → FirstSpeechUserMute → FirstSpeechUserMute
first_note bot_started_speaking s = record s { bot_speaking = true }
first_note bot_stopped_speaking s = record s { bot_speaking = false; first_handled = true }
first_note _ s = s

unfoldable pub first_should_mute : Frame → FirstSpeechUserMute → FirstSpeechUserMute × Bool
first_should_mute f s =
    let s' = first_note f.body s in (s', s'.bot_speaking && not s'.first_handled)

pub record MuteUntilFirstBotComplete : Type 0 where
  pub bot_started : Bool
  pub first_handled : Bool

abbrev pub new_mute_until_first_bot_complete : MuteUntilFirstBotComplete
new_mute_until_first_bot_complete = record { bot_started = false; first_handled = false }

unfoldable pub handle_error : MuteUntilFirstBotComplete → MuteUntilFirstBotComplete
handle_error s = if s.bot_started || s.first_handled then s else record s { first_handled = true }

-- A `FatalErrorFrame` is a type of its own, which the switch does not name.
unfoldable pub until_note : Body → MuteUntilFirstBotComplete → MuteUntilFirstBotComplete
until_note bot_started_speaking s = record s { bot_started = true }
until_note bot_stopped_speaking s = record s { first_handled = true }
until_note (error_frame message fatal source) s = handle_error s
until_note _ s = s

unfoldable pub until_should_mute :
    Frame → MuteUntilFirstBotComplete → MuteUntilFirstBotComplete × Bool
until_should_mute f s = let s' = until_note f.body s in (s', not s'.first_handled)

-- `map[string]struct{}`.
abbrev pub Calls : Type 0
Calls = List {0} (Text × Unit)

-- The ids of the calls in flight.
pub record FunctionCallUserMute : Type 0 where
  pub active : Calls

abbrev pub new_function_call_user_mute : FunctionCallUserMute
new_function_call_user_mute = record { active = [] }

unfoldable pub start_calls : List Text → Calls → Calls
start_calls [] active = active
start_calls (c ∷ cs) active = start_calls cs (insert c tt active)

unfoldable pub calls_note : Body → FunctionCallUserMute → FunctionCallUserMute
calls_note (function_calls_started calls) s = record s { active = start_calls calls s.active }
calls_note (function_call_result id) s = record s { active = delete id s.active }
calls_note (function_call_cancel id) s = record s { active = delete id s.active }
calls_note _ s = s

abbrev is_any : Calls → Bool
is_any [] = false
is_any (c ∷ cs) = true

unfoldable pub calls_should_mute : Frame → FunctionCallUserMute → FunctionCallUserMute × Bool
calls_should_mute f s = let s' = calls_note f.body s in (s', is_any s'.active)

-- A strategy that has seen a history, whose last frame comes first, and its answer on that frame.
unfoldable pub driven {ℓ} : {S : Type ℓ} → (Frame → S → S × Bool) → S → List Frame → S
driven should s [] = s
driven should s (f ∷ older) = (should f (driven should s older)).0

unfoldable pub answer {ℓ} : {S : Type ℓ} → (Frame → S → S × Bool) → S → Frame → List Frame → Bool
answer should s f older = (should f (driven should s older)).1
