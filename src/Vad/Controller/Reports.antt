-- ===== src/Vad/Controller/Reports.antt =====
-- audio/vad/controller/controller.go: what is reported of the user's speech.
use voxigo.Prelude.{ℕ, ◌+◌, ◌≤◌, ◌≡◌, Bool, true, false, Option, none, some, List, [], ◌∷◌, arith}
use voxigo.Vad.Machine.{State}
use voxigo.Vad.Controller.{
  Report, speech_started, speech_stopped, speech_activity, Controller, report, decide, handle_audio,
  idle_round,
}

abbrev starts_speech : Option Bool → Option Bool
starts_speech (some false) = some true
starts_speech (some true) = none
starts_speech none = none

abbrev stops_speech : Option Bool → Option Bool
stops_speech (some true) = some false
stops_speech (some false) = none
stops_speech none = none

abbrev in_speech : Option Bool → Option Bool
in_speech (some true) = some true
in_speech (some false) = none
in_speech none = none

-- Reads the reports, the last one first: whether the user speaks after them, `none` when speech
-- was started twice, stopped or heard of outside speech.
abbrev pub speech_after : List Report → Option Bool
speech_after [] = some false
speech_after (speech_started ∷ rs) = starts_speech (speech_after rs)
speech_after (speech_stopped ∷ rs) = stops_speech (speech_after rs)
speech_after (speech_activity ∷ rs) = in_speech (speech_after rs)

-- Speech does not outlive its audio: a round of the watch that comes the idle timeout after the
-- last chunk, or later, leaves the user silent, and reports the stop when the user was speaking.
pub idle_ends_speech :
    (now wait : ℕ) (s : State) (c : Controller)
    → c.idle_timeout ≤ wait
    → ((idle_round (now + wait) (handle_audio now s c)).speaking ≡ false)
      × ((handle_audio now s c).speaking ≡ true
          → (idle_round (now + wait) (handle_audio now s c)).reports
            ≡ speech_stopped ∷ (handle_audio now s c).reports)
unfolding idle_round handle_audio decide report
idle_ends_speech now wait s c h = (ground arith, λ e. ground arith)
