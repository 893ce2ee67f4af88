-- ===== src/Vad/Machine/Runs.antt =====
-- audio/vad/vad.go: the machine does not flip on a brief spike or dip. Speech is confirmed only on
-- a run of speech frames, quiet only on a run of silent ones, and such runs do confirm them.
use voxigo.Prelude.{
  ℕ, zero, suc, ◌+◌, ◌≤◌, ◌<◌, ◌≡◌, ◌⊎◌, inl, inr, Bool, true, false, List, [], ◌∷◌, arith,
}
use voxigo.Vad.Machine.{
  quiet, starting, speaking, stopping, Decision, reset_decision, advance, confirm,
}
use voxigo.Vad.Machine.Verdicts.{advance_all, hear, listen, and_then, history}

-- How many of the latest frames were `b`.
abbrev pub run_of : Bool → List Bool → ℕ
run_of b [] = 0
run_of true (true ∷ h) = suc (run_of true h)
run_of true (false ∷ h) = 0
run_of false (true ∷ h) = 0
run_of false (false ∷ h) = suc (run_of false h)

-- At some point the latest `n` frames were all `b`.
abbrev pub HadRun : ℕ → Bool → List Bool → Type 0
HadRun n b [] = n ≡ 0
HadRun n b (x ∷ h) = (n ≤ run_of b (x ∷ h)) ⊎ HadRun n b h

abbrev pub IsVoiced : Decision → Type 0
IsVoiced d = (d.state ≡ speaking) ⊎ (d.state ≡ stopping)

-- The counters count the latest frames, and a voiced state had its run.
pub record Explained (n : ℕ) (d : Decision) (h : List Bool) : Type 0 where
  pub starting_run :
      d.state ≡ starting → (0 < d.starting_count) × (d.starting_count ≤ run_of true h)
  pub stopping_run :
      d.state ≡ stopping → (0 < d.stopping_count) × (d.stopping_count ≤ run_of false h)
  pub voiced_run : IsVoiced d → HadRun n true h

HadRun-of_run : (n : ℕ) (h : List Bool) → n ≤ run_of true h → HadRun n true h
HadRun-of_run n [] le = omega arith
HadRun-of_run n (x ∷ h) le = inl le

advance-Explained :
    (n : ℕ) (v : Bool) (d : Decision) (h : List Bool)
    → Explained n d h
    → Explained n (advance v d) (v ∷ h)
unfolding advance
advance-Explained n true d h x = ground arith
advance-Explained n false d h x = ground arith

pub advance_all-Explained :
    (n : ℕ) (vs : List Bool) (d : Decision) (h : List Bool)
    → Explained n d h
    → Explained n (advance_all vs d) (and_then h vs)
advance_all-Explained n [] d h x = x
advance_all-Explained n (v ∷ vs) d h x =
    advance_all-Explained n vs (advance v d) (v ∷ h) (advance-Explained n v d h x)

confirm-Explained :
    (n e : ℕ) (d : Decision) (h : List Bool) → Explained n d h → Explained n (confirm n e d) h
unfolding confirm
confirm-Explained n e d h x = ground (arith, HadRun-of_run n h)

listen-Explained :
    (n e : ℕ) (calls : List (List Bool)) (d : Decision) (h : List Bool)
    → Explained n d h
    → Explained n (listen n e calls d) (history h calls)
listen-Explained n e [] d h x = x
listen-Explained n e (vs ∷ calls) d h x =
    listen-Explained n e calls (hear n e vs d) (and_then h vs)
      (confirm-Explained n e (advance_all vs d) (and_then h vs) (advance_all-Explained n vs d h x))

-- However the audio is cut into calls, the machine reports speech (speaking, or stopping, which is
-- speech not yet confirmed over) only if at some point `start_frames` frames in a row scored as
-- speech.
pub voiced_needs_run :
    (start_frames stop_frames : ℕ) (calls : List (List Bool))
    → IsVoiced (listen start_frames stop_frames calls reset_decision)
    → HadRun start_frames true (history [] calls)
voiced_needs_run s e calls v =
    (listen-Explained s e calls reset_decision [] (ground arith)).voiced_run v

advance-IsVoiced : (v : Bool) (d : Decision) → IsVoiced d → IsVoiced (advance v d)
unfolding advance
advance-IsVoiced true d h = ground arith
advance-IsVoiced false d h = ground arith

advance_all-IsVoiced : (vs : List Bool) (d : Decision) → IsVoiced d → IsVoiced (advance_all vs d)
advance_all-IsVoiced [] d h = h
advance_all-IsVoiced (v ∷ vs) d h = advance_all-IsVoiced vs (advance v d) (advance-IsVoiced v d h)

confirm-quiet :
    (s e : ℕ) (d : Decision) (h : List Bool)
    → Explained s d h
    → IsVoiced d
    → (confirm s e d).state ≡ quiet
    → e ≤ run_of false h
unfolding confirm
confirm-quiet s e d h x (inl v) q = ground arith
confirm-quiet s e d h x (inr v) q = ground (arith, x.stopping_run v)

-- A call ends speech only if the latest `stop_frames` frames were all silent.
pub quiet_needs_run :
    (start_frames stop_frames : ℕ) (calls : List (List Bool)) (vs : List Bool)
    → IsVoiced (listen start_frames stop_frames calls reset_decision)
    → (hear start_frames stop_frames vs
        (listen start_frames stop_frames calls reset_decision)).state
      ≡ quiet
    → stop_frames ≤ run_of false (and_then (history [] calls) vs)
quiet_needs_run s e calls vs v q =
    let d = listen s e calls reset_decision in
    let x = listen-Explained s e calls reset_decision [] (ground arith) in
    confirm-quiet s e (advance_all vs d) (and_then (history [] calls) vs)
      (advance_all-Explained s vs d (history [] calls) x) (advance_all-IsVoiced vs d v) q

abbrev pub replicate : ℕ → Bool → List Bool
replicate zero b = []
replicate (suc n) b = b ∷ replicate n b

starting_counts :
    (k : ℕ) (d : Decision)
    → d.state ≡ starting
    → ((advance_all (replicate k true) d).state ≡ starting)
      × ((advance_all (replicate k true) d).starting_count ≡ d.starting_count + k)
unfolding advance
starting_counts zero d h = ground arith
starting_counts (suc k) d h = ground (arith, starting_counts k (advance true d) (ground arith))

stopping_counts :
    (k : ℕ) (d : Decision)
    → d.state ≡ stopping
    → ((advance_all (replicate k false) d).state ≡ stopping)
      × ((advance_all (replicate k false) d).stopping_count ≡ d.stopping_count + k)
unfolding advance
stopping_counts zero d h = ground arith
stopping_counts (suc k) d h = ground (arith, stopping_counts k (advance false d) (ground arith))

-- From quiet, a call of `k + 1` speech frames is reported as speech once `k + 1` reaches
-- `start_frames`.
pub speech_run_confirms :
    (start_frames stop_frames k : ℕ) (d : Decision)
    → d.state ≡ quiet
    → start_frames ≤ suc k
    → (hear start_frames stop_frames (replicate (suc k) true) d).state ≡ speaking
unfolding advance confirm
speech_run_confirms s e k d q le = ground (arith, starting_counts k (advance true d) (ground arith))

-- From speech, a call of `k + 1` silent frames is reported as quiet once `k + 1` reaches
-- `stop_frames`.
pub silent_run_confirms :
    (start_frames stop_frames k : ℕ) (d : Decision)
    → d.state ≡ speaking
    → stop_frames ≤ suc k
    → (hear start_frames stop_frames (replicate (suc k) false) d).state ≡ quiet
unfolding advance confirm
silent_run_confirms s e k d q le =
    ground (arith, stopping_counts k (advance false d) (ground arith))
