-- ===== src/Processor/Dtmf/Examples.antt =====
-- processor/dtmf/aggregator.go on a PIN, with a timer that fires late.
use voxigo.Prelude.{◌≡◌, refl, true, List, [], ◌∷◌, ◌++◌, Text, bytes}
use voxigo.Frames.{downstream, input_dtmf}
use voxigo.Processor.Dtmf.{
  Act, frame_comes, timer_fires, new_aggregator, stop_timer, arm_timer, emit, handle, fire,
  handle_body, process_frame, act, acts,
}
use voxigo.Processor.Dtmf.Digits.{digits, pressed, digits_kept}

abbrev key : Text → Act
key t = frame_comes (record { id = 0; body = input_dtmf t }) downstream

abbrev pin : List Act
pin = key (bytes "1") ∷ key (bytes "2") ∷ timer_fires 0 ∷ key (bytes "3") ∷ []

one_waits : (acts pin (new_aggregator [] true (bytes "PIN "))).buf ≡ bytes "3"
unfolding acts act process_frame handle_body handle fire emit arm_timer stop_timer new_aggregator
one_waits = refl

digits_kept_example :
    digits
        (acts pin (new_aggregator [] true (bytes "PIN "))).prefix
        (acts pin (new_aggregator [] true (bytes "PIN "))).pushed
      ++ (acts pin (new_aggregator [] true (bytes "PIN "))).buf
    ≡ pressed (new_aggregator [] true (bytes "PIN ")).terminator pin
digits_kept_example = digits_kept [] true (bytes "PIN ") pin
