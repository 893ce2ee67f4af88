-- ===== src/Turns/Mute/Examples.antt =====
-- processor/turns/mute.go on short histories, the last frame first.
use voxigo.Prelude.{◌≡◌, refl, ◌↔◌, true, false, not, ◌&&◌, none, [], ◌∷◌, Text, bytes}
use voxigo.Frames.{
  Frame, Body, bot_started_speaking, bot_stopped_speaking, error_frame, fatal_error_frame,
  function_calls_started, function_call_result,
}
use voxigo.Turns.Mute.{
  first_should_mute, new_first_speech_user_mute, handle_error, until_note, until_should_mute,
  new_mute_until_first_bot_complete, start_calls, calls_note, calls_should_mute,
  new_function_call_user_mute, always_note, always_should_mute, new_always_user_mute, driven,
  answer,
}
use voxigo.Turns.Mute.Histories.{
  bot_started_in, bot_stopped_in, first_speech_mutes, in_flight, function_calls_mute,
}

abbrev frame : Body → Frame
frame b = record { id = 0; body = b }

abbrev bot_starts : Frame
bot_starts = frame bot_started_speaking

abbrev bot_stops : Frame
bot_stops = frame bot_stopped_speaking

abbrev fails : Frame
fails = frame (error_frame (bytes "no route") false none)

abbrev fails_for_good : Frame
fails_for_good = frame (fatal_error_frame (bytes "no route") none)

abbrev calls : Frame
calls = frame (function_calls_started (bytes "a" ∷ bytes "b" ∷ []))

abbrev answers_a : Frame
answers_a = frame (function_call_result (bytes "a"))

always :
    answer always_should_mute new_always_user_mute bot_starts (bot_stops ∷ bot_starts ∷ []) ≡ true
unfolding answer driven always_should_mute always_note
always = refl

-- A fatal error releases no mute.
fatal_opening : answer until_should_mute new_mute_until_first_bot_complete fails_for_good [] ≡ true
unfolding answer driven until_should_mute until_note handle_error
fatal_opening = refl

one_call_left : answer calls_should_mute new_function_call_user_mute answers_a (calls ∷ []) ≡ true
unfolding answer driven calls_should_mute calls_note start_calls
one_call_left = refl

first_speech_mutes_example :
    answer first_should_mute new_first_speech_user_mute bot_starts (bot_stops ∷ bot_starts ∷ []) ≡ (
      bot_started_in (bot_starts ∷ bot_stops ∷ bot_starts ∷ [])
      && not (bot_stopped_in (bot_starts ∷ bot_stops ∷ bot_starts ∷ [])))
first_speech_mutes_example = first_speech_mutes bot_starts (bot_stops ∷ bot_starts ∷ [])

function_calls_mute_example :
    (answer calls_should_mute new_function_call_user_mute answers_a (calls ∷ []) ≡ false)
    ↔ ((id : Text) → in_flight id (answers_a ∷ calls ∷ []) ≡ false)
function_calls_mute_example = function_calls_mute answers_a (calls ∷ [])
