-- ===== src/Turns/Stops/SpeechTimeout/Floor.antt =====
-- processor/turns/stop.go: what SpeechTimeoutStop waits for, over any session.
use voxigo.Prelude.{
  ℕ, ◌+◌, ◌≤◌, ◌≡◌, ◌⊎◌, Bool, true, false, not, ◌||◌, if◌then◌else◌, ◌==◌, Option, none, some,
  List, [], ◌∷◌,
}
use voxigo.Frames.{vad_user_stopped_speaking, transcription}
use voxigo.Turns.Controller.{Trigger, inference_triggered, stopped}
use voxigo.Turns.Timers.{only_timer}
use voxigo.Turns.Stops.Scripts.{outcome, answer_with}
use voxigo.Turns.Stops.SpeechTimeout.{
  SpeechTimeoutStop, new_speech_timeout_stop, default_user_speech_timeout, is_empty, turn_started,
  turn_stopped, Event, frame, act,
}

-- The strategy in a session, with the time of the last VAD stop.
pub record Session : Type 0 where
  pub strategy : SpeechTimeoutStop
  pub quiet_at : ℕ

abbrev pub quiet_after : Event → Session → ℕ
quiet_after (frame (vad_user_stopped_speaking w ts)) x = x.strategy.now
quiet_after (frame _) x = x.quiet_at
quiet_after _ x = x.quiet_at

-- What the strategy does and signals at an event, and whether the controller takes the stop.
abbrev pub happens : Event → Bool → SpeechTimeoutStop → SpeechTimeoutStop × List Trigger
happens e taken s = outcome (answer_with taken turn_stopped) (act e s)

-- A session, up to the cleanup.
pub data Step (x : Session) : Session → Type 0 where
  acts :
      (e : Event) (taken : Bool)
      → Step x (record { strategy = (happens e taken x.strategy).0; quiet_at = quiet_after e x })
  starts_turn : Step x (record x { strategy = turn_started x.strategy })
  stops_turn : Step x (record x { strategy = turn_stopped x.strategy })
  passes : (d : ℕ) → Step x (record x { strategy = record x.strategy { now = x.strategy.now + d } })

abbrev pub fresh : ℕ → Option Bool → Session
fresh timeout wait = record { strategy = new_speech_timeout_stop timeout wait; quiet_at = 0 }

abbrev DueFrom : Option (ℕ × ℕ) → ℕ → Type 0
DueFrom none t = Unit
DueFrom (some timer) t = t ≤ timer.1

pub record KeepsFloor (timeout : ℕ) (wait : Bool) (x : Session) : Type 0 where
  pub timeout_kept : x.strategy.user_speech_timeout ≡ timeout
  pub wait_kept : x.strategy.wait_for_tx ≡ wait
  pub only : x.strategy.user_timers ≡ only_timer x.strategy.cancel_user
  pub past : x.quiet_at ≤ x.strategy.now
  pub due : DueFrom x.strategy.cancel_user (x.quiet_at + timeout)
  pub waited : x.strategy.user_speech_done ≡ true → x.quiet_at + timeout ≤ x.strategy.now

abbrev at : ℕ → SpeechTimeoutStop → Session
at q s = record { strategy = s; quiet_at = q }

-- Whether a transcript with text has come when an event is handled.
abbrev pub has_text : Event → SpeechTimeoutStop → Bool
has_text (frame (transcription text finalized)) s = s.have_text || not (is_empty text)
has_text (frame _) s = s.have_text
has_text _ s = s.have_text

module _ (timeout : ℕ) (wait : Bool) where
  -- No signal; or the signals of a stop, in silence, after the timeout, with the text awaited.
  abbrev Decides : List Trigger → Bool → SpeechTimeoutStop → ℕ → Type 0
  Decides signals heard s q =
      (signals ≡ [])
      ⊎ ((signals ≡ inference_triggered ∷ stopped s.announces ∷ [])
          × (s.vad_speaking ≡ false)
          × (q + timeout ≤ s.now)
          × (wait ≡ true → heard ≡ true))

abbrev pub configured : ℕ → ℕ
configured timeout = if timeout == 0 then default_user_speech_timeout else timeout
