-- ===== src/Turns/Mute/Histories.antt =====
-- processor/turns/mute.go: what the answers say of the frames seen so far, last frame first.
use voxigo.Prelude.{
  ◌≡◌, refl, sym, ap, ◌∙◌, ◌↔◌, Bool, true, false, not, ◌&&◌, ◌||◌, none, some, List, [], ◌∷◌, Text,
  text_eq, text_eq_iff, insert, lookup, lookup-insert, lookup-delete, exists_in, arith,
}
use voxigo.Frames.{
  Frame, Body, bot_started_speaking, bot_stopped_speaking, error_frame, function_calls_started,
  function_call_result, function_call_cancel,
}
use voxigo.Turns.Mute.{
  Calls, FirstSpeechUserMute, new_first_speech_user_mute, first_note, first_should_mute,
  MuteUntilFirstBotComplete, FunctionCallUserMute, new_function_call_user_mute, start_calls,
  calls_note, is_any, calls_should_mute, driven, answer,
}

abbrev is_bot_start : Body → Bool
is_bot_start bot_started_speaking = true
is_bot_start _ = false

abbrev is_bot_stop : Body → Bool
is_bot_stop bot_stopped_speaking = true
is_bot_stop _ = false

abbrev is_error : Body → Bool
is_error (error_frame message fatal source) = true
is_error _ = false

abbrev pub bot_started_in : List Frame → Bool
bot_started_in fs = exists_in (λ f. is_bot_start f.body) fs

abbrev pub bot_stopped_in : List Frame → Bool
bot_stopped_in fs = exists_in (λ f. is_bot_stop f.body) fs

-- An error came before the bot had ever started to speak.
abbrev pub opening_failed_in : List Frame → Bool
opening_failed_in [] = false
opening_failed_in (f ∷ older) =
    (is_error f.body && not (bot_started_in older)) || opening_failed_in older

abbrev FirstMatches : FirstSpeechUserMute → List Frame → Type 0
FirstMatches s fs =
    (s.first_handled ≡ bot_stopped_in fs)
    × (s.first_handled ≡ false → s.bot_speaking ≡ bot_started_in fs)

first_note-FirstMatches :
    (f : Frame) (s : FirstSpeechUserMute) (fs : List Frame)
    → FirstMatches s fs
    → FirstMatches (first_note f.body s) (f ∷ fs)
unfolding first_note
first_note-FirstMatches f s fs h = ground arith

first-FirstMatches :
    (fs : List Frame) → FirstMatches (driven first_should_mute new_first_speech_user_mute fs) fs
unfolding driven first_should_mute
first-FirstMatches [] = (refl, λ e. refl)
first-FirstMatches (f ∷ fs) = first_note-FirstMatches f _ fs (first-FirstMatches fs)

-- The first-speech strategy mutes exactly while the bot has started and not once stopped speaking.
pub first_speech_mutes :
    (f : Frame) (older : List Frame)
    → answer first_should_mute new_first_speech_user_mute f older
      ≡ (bot_started_in (f ∷ older) && not (bot_stopped_in (f ∷ older)))
unfolding answer first_should_mute
first_speech_mutes f older =
    let m = first_note-FirstMatches f _ older (first-FirstMatches older) in ground arith

abbrev UntilMatches : MuteUntilFirstBotComplete → List Frame → Type 0
UntilMatches s fs =
    (s.first_handled ≡ (bot_stopped_in fs || opening_failed_in fs))
    × (s.bot_started ≡ bot_started_in fs)

-- What a frame says of a call: that it starts, that it is over, or nothing.
abbrev mentioned : Text → List Text → Bool
mentioned id cs = exists_in (λ c. text_eq c id) cs

abbrev after_body : Text → Body → Bool → Bool
after_body id (function_calls_started cs) before = mentioned id cs || before
after_body id (function_call_result c) before = before && not (text_eq c id)
after_body id (function_call_cancel c) before = before && not (text_eq c id)
after_body id _ before = before

-- A call is in flight from the frame that starts it to one with its result or its cancellation.
abbrev pub in_flight : Text → List Frame → Bool
in_flight id [] = false
in_flight id (f ∷ older) = after_body id f.body (in_flight id older)

abbrev has : Text → Calls → Bool
has id m = elim (lookup id m) [ none ↦ false | some u ↦ true ]

start_calls-has :
    (id : Text) (cs : List Text) (m : Calls)
    → has id (start_calls cs m) ≡ (mentioned id cs || has id m)
unfolding start_calls
start_calls-has id [] m = refl
start_calls-has id (c ∷ cs) m =
    ground (arith, start_calls-has id cs (insert c tt m), lookup-insert c id tt m)

calls_note-has :
    (id : Text) (b : Body) (s : FunctionCallUserMute)
    → has id (calls_note b s).active ≡ after_body id b (has id s.active)
unfolding calls_note
calls_note-has id (function_calls_started cs) s = start_calls-has id cs s.active
calls_note-has id (function_call_result c) s = ground (arith, lookup-delete c id s.active)
calls_note-has id (function_call_cancel c) s = ground (arith, lookup-delete c id s.active)
calls_note-has id _ s = refl

calls-has :
    (id : Text) (fs : List Frame)
    → has id (driven calls_should_mute new_function_call_user_mute fs).active ≡ in_flight id fs
unfolding driven calls_should_mute
calls-has id [] = refl
calls-has id (f ∷ fs) =
    calls_note-has id f.body (driven calls_should_mute new_function_call_user_mute fs)
    ∙ ap (after_body id f.body) (calls-has id fs)

is_any-has : (m : Calls) → (is_any m ≡ false) ↔ ((id : Text) → has id m ≡ false)
is_any-has [] = (λ e id. refl, λ h. refl)
is_any-has ((c, u) ∷ m) = (λ e. ground arith, λ h. ground (arith, h c, text_eq_iff c c))

-- The function-call strategy lets the user be heard exactly when no call is in flight.
pub function_calls_mute :
    (f : Frame) (older : List Frame)
    → (answer calls_should_mute new_function_call_user_mute f older ≡ false)
      ↔ ((id : Text) → in_flight id (f ∷ older) ≡ false)
unfolding answer driven calls_should_mute
function_calls_mute f older =
    let flags =
      is_any-has (driven calls_should_mute new_function_call_user_mute (f ∷ older)).active in
    (
      λ e id. sym (calls-has id (f ∷ older)) ∙ flags.0 e id,
      λ h. flags.1 (λ id. calls-has id (f ∷ older) ∙ h id),
    )
