-- ===== src/Prelude/Runs.antt =====
-- What a system gets to by its steps, and what every step keeps.
module _ {ℓ κ} {S : Type ℓ} (Step : S → S → Type κ) where
  pub data Reach (first : S) : S → Type (ℓ ⊔ κ) where
    here : Reach first first
    next : {mid last : S} → Reach first mid → Step mid last → Reach first last

module _ {ℓ κ τ} {S : Type ℓ} {Step : S → S → Type κ} (Inv : S → Type τ) where
  pub Reach-keeps :
      (kept : (s t : S) → Step s t → Inv s → Inv t) {s t : S} → Inv s → Reach Step s t → Inv t
  Reach-keeps kept start here = start
  Reach-keeps kept start (next run step) = kept _ _ step (Reach-keeps kept start run)

-- A run behind one more first step.
pub Reach-first {ℓ κ} :
    {S : Type ℓ} {Step : S → S → Type κ} {s m t : S} → Step s m → Reach Step m t → Reach Step s t
Reach-first step here = next here step
Reach-first step (next run last) = next (Reach-first step run) last
