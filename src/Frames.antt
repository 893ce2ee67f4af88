-- ===== src/Frames.antt =====
-- frames/: what flows through a pipeline. A frame is its identity and its concrete type; the
-- types that the modelled components look at have a constructor each, all others fall under
-- `other`, by category and by whether they carry the UninterruptibleMixin.
use voxigo.Prelude.{ℕ, Bool, true, false, Option, List, Text}
use voxigo.Prelude.Int.{ℤ}

pub data Direction : Type 0 where
  downstream upstream : Direction

pub data Category : Type 0 where
  system_category data_category control_category : Category

pub data Body : Type 0 where
  start_frame cancel_frame interruption_frame end_frame stop_frame : Body
  -- message, Fatal, Source (a processor, by its identity)
  error_frame : Text → Bool → Option ℕ → Body
  fatal_error_frame : Text → Option ℕ → Body
  user_started_speaking user_stopped_speaking : Body
  proposed_user_started_speaking proposed_user_stopped_speaking : Body
  -- StartSecs, in nanoseconds
  vad_user_started_speaking : ℕ → Body
  -- StopSecs, in nanoseconds, and Timestamp; none when unset
  vad_user_stopped_speaking : ℕ → Option ℕ → Body
  bot_started_speaking bot_stopped_speaking : Body
  user_speaking bot_speaking : Body
  -- Text, Finalized
  transcription : Text → Bool → Body
  interim_transcription : Text → Body
  -- the ids of the calls
  function_calls_started : List Text → Body
  function_call_in_progress function_call_result function_call_cancel : Text → Body
  input_dtmf : Text → Body
  -- TTFSP99Latency
  stt_metadata : ℕ → Body
  -- Timeout, a signed duration
  user_idle_timeout_update : ℤ → Body
  user_turn_inference_completed : Body
  -- Audio
  input_audio : List ℕ → Body
  -- the name of the addressed processor; nil when none
  pause_frame pause_urgent_frame resume_frame resume_urgent_frame : Option Text → Body
  other : Category → Bool → Body

-- The base struct that each type embeds.
unfoldable pub category : Body → Category
category end_frame = control_category
category stop_frame = control_category
category proposed_user_stopped_speaking = control_category
category (transcription t final) = data_category
category (interim_transcription t) = data_category
category (function_call_in_progress id) = control_category
category (function_call_result id) = data_category
category user_turn_inference_completed = control_category
category (pause_frame p) = control_category
category (resume_frame p) = control_category
category (other c u) = c
category _ = system_category

-- The types that embed UninterruptibleMixin.
unfoldable pub is_uninterruptible : Body → Bool
is_uninterruptible end_frame = true
is_uninterruptible stop_frame = true
is_uninterruptible (function_call_in_progress id) = true
is_uninterruptible (function_call_result id) = true
is_uninterruptible (other c u) = u
is_uninterruptible _ = false

pub record Frame : Type 0 where
  pub id : ℕ
  pub body : Body

abbrev is_system_category : Category → Bool
is_system_category system_category = true
is_system_category data_category = false
is_system_category control_category = false

unfoldable pub is_system_frame : Frame → Bool
unfolding category
is_system_frame f = is_system_category (category f.body)

abbrev is_start_body : Body → Bool
is_start_body start_frame = true
is_start_body _ = false

unfoldable pub is_start_frame : Frame → Bool
is_start_frame f = is_start_body f.body

unfoldable pub is_uninterruptible_frame : Frame → Bool
unfolding is_uninterruptible
is_uninterruptible_frame f = is_uninterruptible f.body
