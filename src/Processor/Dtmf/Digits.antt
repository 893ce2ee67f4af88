-- ===== src/Processor/Dtmf/Digits.antt =====
-- processor/dtmf/aggregator.go: what becomes of the keys.
use mathlib.Core.List.{append_assoc, append-nil}
use voxigo.Prelude.{
  ◌≡◌, refl, sym, ap, ◌∙◌, Bool, true, false, not, none, List, [], ◌∷◌, ◌++◌, Text, text_eq,
  text_eq_iff, if◌then◌else◌, arith, length, drop, keep_if, ◌==◌,
}
use voxigo.Frames.{Frame, Body, Direction, input_dtmf}
use voxigo.Processor.Dtmf.{
  Pushed, forwarded, transcribed, Aggregator, new_aggregator, stop_timer, arm_timer, emit, handle,
  fire, handle_body, process_frame, Act, frame_comes, timer_fires, cleans_up, act, acts,
}

-- The digits in the transcriptions pushed, behind the prefix of each.
abbrev pub digits : Text → List Pushed → Text
digits prefix [] = []
digits prefix (forwarded f dir ∷ ps) = digits prefix ps
digits prefix (transcribed t ∷ ps) = drop (length prefix) t ++ digits prefix ps

-- The keys pressed, without the terminator.
abbrev pressed_body : Text → Body → Text
pressed_body end (input_dtmf button) = if text_eq button end then [] else button
pressed_body end _ = []

abbrev pub pressed : Text → List Act → Text
pressed end [] = []
pressed end (frame_comes f dir ∷ xs) = pressed_body end f.body ++ pressed end xs
pressed end (timer_fires n ∷ xs) = pressed end xs
pressed end (cleans_up ∷ xs) = pressed end xs

digits-append :
    (prefix : Text) (ps qs : List Pushed)
    → digits prefix (ps ++ qs) ≡ digits prefix ps ++ digits prefix qs
digits-append prefix [] qs = refl
digits-append prefix (forwarded f dir ∷ ps) qs = digits-append prefix ps qs
digits-append prefix (transcribed t ∷ ps) qs =
    ap (λ d. drop (length prefix) t ++ d) (digits-append prefix ps qs)
    ∙ sym (append_assoc (drop (length prefix) t) (digits prefix ps) (digits prefix qs))

drop-prefix : (p t : Text) → drop (length p) (p ++ t) ≡ t
drop-prefix [] t = refl
drop-prefix (a ∷ p) t = drop-prefix p t

-- All digits so far: those that went out and those that wait.
abbrev held : Aggregator → Text
held a = digits a.prefix a.pushed ++ a.buf

-- A step leaves the settings and adds some digits.
abbrev Adds : Text → Aggregator → Aggregator → Type 0
Adds t a b = (held b ≡ held a ++ t) × (b.terminator ≡ a.terminator)

emit-digits :
    (t : Text) (a : Aggregator)
    → (digits a.prefix (emit t a).pushed ≡ digits a.prefix a.pushed ++ t)
      × ((emit t a).prefix ≡ a.prefix)
      × ((emit t a).buf ≡ a.buf)
      × ((emit t a).terminator ≡ a.terminator)
unfolding emit
emit-digits t a =
    let out = digits a.prefix a.pushed in
    let grown : digits a.prefix (a.pushed ++ transcribed (a.prefix ++ t) ∷ []) ≡ out ++ t =
      digits-append a.prefix a.pushed (transcribed (a.prefix ++ t) ∷ [])
      ∙ ap (λ d. out ++ d)
          (append-nil (drop (length a.prefix) (a.prefix ++ t)) ∙ drop-prefix a.prefix t) in
    ground (arith, append-nil out, text_eq_iff t [], grown)

-- A flush sends what waited.
flush-Adds :
    (a b : Aggregator)
    → b.prefix ≡ a.prefix
    → b.pushed ≡ a.pushed
    → b.buf ≡ []
    → b.terminator ≡ a.terminator
    → Adds [] a (emit a.buf b)
flush-Adds a b p o e t =
    let (sent, same, empty, end) = emit-digits a.buf b in
    let out : digits (emit a.buf b).prefix (emit a.buf b).pushed
        ≡ digits a.prefix a.pushed ++ a.buf =
      ap (λ q. digits q (emit a.buf b).pushed) same
      ∙ sent
      ∙ ap (λ q. digits q b.pushed ++ a.buf) p
      ∙ ap (λ l. digits a.prefix l ++ a.buf) o in
    let none_left : (emit a.buf b).buf ≡ [] = empty ∙ e in
    (
      ap (λ l. digits (emit a.buf b).prefix (emit a.buf b).pushed ++ l) none_left
          ∙ append-nil (digits (emit a.buf b).prefix (emit a.buf b).pushed)
          ∙ out
          ∙ sym (append-nil (held a)),
      end ∙ t,
    )

key-Adds :
    (button : Text) (a b : Aggregator)
    → b.prefix ≡ a.prefix
    → b.pushed ≡ a.pushed
    → b.buf ≡ a.buf ++ button
    → b.terminator ≡ a.terminator
    → Adds button a b
key-Adds button a b p o e t = (
  ap (λ q. digits q b.pushed ++ b.buf) p
      ∙ ap (λ l. digits a.prefix l ++ b.buf) o
      ∙ ap (λ l. digits a.prefix a.pushed ++ l) e
      ∙ sym (append_assoc (digits a.prefix a.pushed) a.buf button),
  t,
)

arm_timer-key :
    (button : Text) (a : Aggregator)
    → Adds button a (arm_timer (record a { buf = a.buf ++ button }))
unfolding arm_timer stop_timer
arm_timer-key button a =
    key-Adds button a (arm_timer (record a { buf = a.buf ++ button })) (ground arith) (ground arith)
      (ground arith) (ground arith)

either-Adds :
    (end : Bool) (t : Text) (a b c : Aggregator)
    → Adds [] a b
    → Adds t a c
    → Adds (if end then [] else t) a (if end then b else c)
either-Adds true t a b c h k = h
either-Adds false t a b c h k = k

handle-Adds :
    (button : Text) (a : Aggregator)
    → Adds (if text_eq button a.terminator then [] else button) a (handle button a)
unfolding handle stop_timer
handle-Adds button a =
    either-Adds (text_eq button a.terminator) button a
      (emit a.buf (stop_timer (record a { buf = [] })))
      (arm_timer (record a { buf = a.buf ++ button }))
      (flush-Adds a (stop_timer (record a { buf = [] })) refl refl refl refl)
      (arm_timer-key button a)

handle_body-Adds :
    (b : Body) (a : Aggregator) → Adds (pressed_body a.terminator b) a (handle_body b a)
unfolding handle_body
handle_body-Adds (input_dtmf button) a = handle-Adds button a
handle_body-Adds _ a = (sym (append-nil (held a)), refl)

forward-held :
    (f : Frame) (dir : Direction) (a : Aggregator)
    → held (record a { pushed = a.pushed ++ forwarded f dir ∷ [] }) ≡ held a
forward-held f dir a =
    ap (λ d. d ++ a.buf)
      (digits-append a.prefix a.pushed (forwarded f dir ∷ [])
        ∙ append-nil (digits a.prefix a.pushed))

-- What an act adds.
abbrev added : Text → Act → Text
added end (frame_comes f dir) = pressed_body end f.body
added end (timer_fires n) = []
added end cleans_up = []

act-Adds : (x : Act) (a : Aggregator) → Adds (added a.terminator x) a (act x a)
unfolding act process_frame fire stop_timer
act-Adds (frame_comes f dir) a =
    let passed = record a { pushed = a.pushed ++ forwarded f dir ∷ [] } in
    let taken = handle_body-Adds f.body passed in
    (taken.0 ∙ ap (λ d. d ++ pressed_body a.terminator f.body) (forward-held f dir a), taken.1)
act-Adds (timer_fires n) a =
    let flushed = record a {
      buf = [];
      timer = none;
      running = keep_if (λ i. not (n == i)) a.running;
    } in
    flush-Adds a flushed refl refl refl refl
act-Adds cleans_up a = (sym (append-nil (held a)), refl)

pressed-cons :
    (end : Text) (x : Act) (xs : List Act) → pressed end (x ∷ xs) ≡ added end x ++ pressed end xs
pressed-cons end (frame_comes f dir) xs = refl
pressed-cons end (timer_fires n) xs = refl
pressed-cons end cleans_up xs = refl

acts-held : (xs : List Act) (a : Aggregator) → held (acts xs a) ≡ held a ++ pressed a.terminator xs
unfolding acts
acts-held [] a = sym (append-nil (held a))
acts-held (x ∷ xs) a =
    let (one, end) = act-Adds x a in
    acts-held xs (act x a)
    ∙ ap (λ e. held (act x a) ++ pressed e xs) end
    ∙ ap (λ d. d ++ pressed a.terminator xs) one
    ∙ append_assoc (held a) (added a.terminator x) (pressed a.terminator xs)
    ∙ ap (λ d. held a ++ d) (sym (pressed-cons a.terminator x xs))

-- No key is lost, doubled or moved on the way into the transcriptions: whatever frames come and
-- whenever a timer's callback runs, a stopped one that runs all the same included, the digits taken
-- for transcriptions, in the order they are taken under the lock, then those that wait, are the
-- keys pressed, in order.
pub digits_kept :
    (end : Text) (timed : Bool) (prefix : Text) (xs : List Act)
    → let a = acts xs (new_aggregator end timed prefix) in
      digits a.prefix a.pushed ++ a.buf ≡ pressed (new_aggregator end timed prefix).terminator xs
digits_kept end timed prefix xs =
    acts-held xs (new_aggregator end timed prefix) ∙ (unfold new_aggregator in refl)
