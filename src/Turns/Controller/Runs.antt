-- ===== src/Turns/Controller/Runs.antt =====
-- processor/turns/controller.go: what the callbacks keep, a strategy and a frame keep.
use voxigo.Prelude.{ℕ, suc, Bool, true, false, List, [], ◌∷◌}
use voxigo.Frames.{
  Frame, Body, user_started_speaking, proposed_user_started_speaking, vad_user_started_speaking,
  user_stopped_speaking, proposed_user_stopped_speaking, vad_user_stopped_speaking, transcription,
  interim_transcription,
}
use voxigo.Turns.Controller.{
  Place, Trigger, Script, done, trigger, Methods, Controller, save, rearm_watchdog, note_speech,
  on_trigger, run_script, chain, process, go_on, Result, continue, stop,
}

-- The switch on the frame leaves a controller, rearms it, or rearms it with the flag set.
pub note_speech-by {ℓ κ} :
    {S : Type ℓ} (P : Body → Controller S → Type κ) (b : Body) (c : Controller S)
    → P b c
    → P b (rearm_watchdog c)
    → ((v : Bool) → P b (rearm_watchdog (record c { user_speaking = v })))
    → P b (note_speech b c)
unfolding note_speech
note_speech-by P user_started_speaking c k r s = s true
note_speech-by P proposed_user_started_speaking c k r s = s true
note_speech-by P (vad_user_started_speaking w) c k r s = s true
note_speech-by P user_stopped_speaking c k r s = s false
note_speech-by P proposed_user_stopped_speaking c k r s = s false
note_speech-by P (vad_user_stopped_speaking w ts) c k r s = s false
note_speech-by P (transcription t final) c k r s = r
note_speech-by P (interim_transcription t) c k r s = r
note_speech-by P _ c k r s = k

go_on-keeps {ℓ κ} :
    {S : Type ℓ} (P : Controller S → Type κ) (r : Result) (c d : Controller S)
    → P c
    → P d
    → P (go_on r c d)
go_on-keeps P stop c d h k = h
go_on-keeps P continue c d h k = k

module _ {ℓ κ} {S : Type ℓ} (ops : Methods S) (P : Controller S → Type κ)
    (saves : (p : Place) (s : S) (c : Controller S) → P c → P (save p s c))
    (triggers : (p : Place) (t : Trigger) (c : Controller S) → P c → P (on_trigger ops p t c)) where
  pub run_script-keeps :
      (p : Place) (k : Script S) (c : Controller S) → P c → P ((run_script ops p k c).0)
  unfolding run_script
  run_script-keeps p (done s r) c h = saves p s c h
  run_script-keeps p (trigger s t k) c h =
      run_script-keeps p (k _) _ (triggers p t _ (saves p s c h))

  chain-keeps :
      (place : ℕ → Place) (f : Frame) (ss : List S) (i : ℕ) (c : Controller S)
      → P c
      → P (chain ops place f ss i c)
  unfolding chain
  chain-keeps place f [] i c h = h
  chain-keeps place f (s ∷ ss) i c h =
      let ran = run_script-keeps (place i) _ c h in
      go_on-keeps P _ _ _ ran (chain-keeps place f ss (suc i) _ ran)

  pub process-keeps :
      (f : Frame) (c : Controller S) → P (note_speech f.body c) → P (process ops f c)
  unfolding process
  process-keeps f c h = chain-keeps _ f _ 0 _ (chain-keeps _ f _ 0 _ h)
