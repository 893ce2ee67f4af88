-- ===== src/Turns/Starts/BargeIn.antt =====
-- processor/turns/start.go: what it takes to interrupt the bot.
use mathlib.Core.Path.{subst}
use voxigo.Prelude.{
  sym, ℕ, ◌≤◌, ◌<◌, ◌≡◌, refl, ◌∙◌, ap, Bool, true, false, Option, List, [], ◌∷◌, Text, arith,
  count_fields, All,
}
use voxigo.Frames.{Frame, Body, transcription}
use voxigo.Turns.Controller.{
  done, trigger, started, reset_aggregation, continue, stop, Controller, Hook, started_hook,
  start_at, process, chain, run_script, on_trigger, on_start_triggered, note_speech, rearm_watchdog,
  call_hook, notify_turn_started,
}
use voxigo.Turns.Starts.{
  StartStrategy, min_words_start, Base, process_start, process_min_words, check, start_methods,
}

-- A controller whose turns only the word count opens, with no turn open and the bot speaking.
abbrev gated : Base → ℕ → Bool → Bool → Option ℕ → List ℕ → ℕ → List Hook → Controller StartStrategy
gated b n interim user watchdog running next hooks = record {
  starts = min_words_start b n interim true ∷ [];
  stops = [];
  user_speaking = user;
  user_turn = false;
  watchdog = watchdog;
  running = running;
  next_timer = next;
  hooks = hooks;
}

abbrev pub IsGated : Base → ℕ → Bool → Controller StartStrategy → Type 0
IsGated b n interim c =
    (c.starts ≡ min_words_start b n interim true ∷ []) × (c.stops ≡ []) × (c.user_turn ≡ false)

unfoldable pub hear_all : List Frame → Controller StartStrategy → Controller StartStrategy
hear_all [] c = c
hear_all (f ∷ fs) c = hear_all fs (process start_methods f c)

abbrev pub IsShort : ℕ → Body → Type 0
IsShort n (transcription t final) = count_fields t < n
IsShort n _ = ⊥

check-short :
    (b : Base) (n : ℕ) (t : Text) (s : StartStrategy)
    → count_fields t < n
    → check b n true t s ≡ trigger s reset_aggregation (λ u. done u continue)
unfolding check
check-short b n t s l = ground arith

check-long :
    (b : Base) (n : ℕ) (t : Text) (s : StartStrategy)
    → n ≤ count_fields t
    → check b n true t s ≡ trigger s (started b.interrupts b.announces) (λ u. done u stop)
unfolding check
check-long b n t s l = ground arith

short-IsGated :
    (b : Base) (n : ℕ) (interim : Bool) (i : ℕ) (t : Text) (final u : Bool) (w : Option ℕ)
    (r : List ℕ) (k : ℕ) (hs : List Hook)
    → count_fields t < n
    → IsGated b n interim (
        process start_methods
          (record { id = i; body = transcription t final })
          (gated b n interim u w r k hs))
unfolding process chain run_script on_trigger note_speech rearm_watchdog call_hook start_methods
    process_start process_min_words
short-IsGated b n interim i t final u w r k hs l =
    rw (check-short b n t (min_words_start b n interim true) l) (refl, refl, refl)

long-opens :
    (b : Base) (n : ℕ) (interim : Bool) (i : ℕ) (t : Text) (final u : Bool) (w : Option ℕ)
    (r : List ℕ) (k : ℕ) (hs : List Hook)
    → n ≤ count_fields t
    → let c =
        process start_methods
          (record { id = i; body = transcription t final })
          (gated b n interim u w r k hs) in
      (c.user_turn ≡ true) × (c.hooks ≡ started_hook (start_at 0) b.interrupts b.announces ∷ hs)
unfolding process chain run_script on_trigger on_start_triggered note_speech rearm_watchdog
    call_hook notify_turn_started start_methods process_start process_min_words
long-opens b n interim i t final u w r k hs l =
    rw (check-long b n t (min_words_start b n interim true) l) (refl, refl)

-- A controller is its fields.
IsGated-fields :
    (b : Base) (n : ℕ) (interim : Bool) (c : Controller StartStrategy)
    → IsGated b n interim c
    → c ≡ gated b n interim c.user_speaking c.watchdog c.running c.next_timer c.hooks
IsGated-fields b n interim c h = λ i. record c { starts = h.0 i; stops = h.1 i; user_turn = h.2 i }

body-IsGated :
    (b : Base) (n : ℕ) (interim : Bool) (i : ℕ) (m : Body) (c : Controller StartStrategy)
    → IsShort n m
    → IsGated b n interim c
    → IsGated b n interim (process start_methods (record { id = i; body = m }) c)
body-IsGated b n interim i (transcription t final) c l h =
    let f : Frame = record { id = i; body = transcription t final } in
    subst (λ d. IsGated b n interim (process start_methods f d))
      (sym (IsGated-fields b n interim c h))
      (short-IsGated b n interim i t final c.user_speaking c.watchdog c.running c.next_timer c.hooks
        l)
body-IsGated b n interim i _ c l h = absurd l

frame-IsGated :
    (b : Base) (n : ℕ) (interim : Bool) (f : Frame) (c : Controller StartStrategy)
    → IsShort n f.body
    → IsGated b n interim c
    → IsGated b n interim (process start_methods f c)
frame-IsGated b n interim f c l h = body-IsGated b n interim f.id f.body c l h

hear_all-IsGated :
    (b : Base) (n : ℕ) (interim : Bool) (fs : List Frame) (c : Controller StartStrategy)
    → All (λ f. IsShort n f.body) fs
    → IsGated b n interim c
    → IsGated b n interim (hear_all fs c)
unfolding hear_all
hear_all-IsGated b n interim [] c l h = h
hear_all-IsGated b n interim (f ∷ fs) c l h =
    hear_all-IsGated b n interim fs _ (l.1) (frame-IsGated b n interim f c (l.0) h)

-- Interrupting the bot takes `minWords` words at once: while the bot speaks and nothing else opens
-- turns, transcripts of fewer words, however many, open no turn, and the first one of as many
-- opens it, with the strategy's flags.
pub barge_in_needs_words :
    (b : Base) (n : ℕ) (interim : Bool) (fs : List Frame) (c : Controller StartStrategy) (i : ℕ)
    (t : Text) (final : Bool)
    → IsGated b n interim c
    → All (λ f. IsShort n f.body) fs
    → n ≤ count_fields t
    → let after = hear_all fs c in
      let opened = process start_methods (record { id = i; body = transcription t final }) after in
      (after.user_turn ≡ false)
      × (opened.user_turn ≡ true)
      × (opened.hooks ≡ started_hook (start_at 0) b.interrupts b.announces ∷ after.hooks)
barge_in_needs_words b n interim fs c i t final h short long =
    let gate = hear_all-IsGated b n interim fs c short h in
    let after = hear_all fs c in
    let fields = IsGated-fields b n interim after gate in
    let f : Frame = record { id = i; body = transcription t final } in
    let (turn, hook) =
      long-opens b n interim i t final after.user_speaking after.watchdog after.running
        after.next_timer after.hooks long in
    (
      gate.2,
      ap (λ d. (process start_methods f d).user_turn) fields ∙ turn,
      ap (λ d. (process start_methods f d).hooks) fields ∙ hook,
    )
