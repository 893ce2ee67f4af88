-- ===== src/Audio/Companding/Quality.antt =====
-- audio/g711/: how far a decoded sample is from the one encoded. The bounds are checked over all
-- 65536 samples, a row for each high byte.
use voxigo.Prelude.Int.{ℤ, pos, negsuc, int16}
use voxigo.Prelude.{ℕ, ◌+◌, ◌-◌, ◌*◌, ◌/◌, ◌%◌, ◌<◌, ◌≤◌, ◌≡◌, refl, Bool, true, arith, leb, leb→le}
use voxigo.Audio.Companding.{linear_to_ulaw, ulaw_to_linear, linear_to_alaw, alaw_to_linear}
use voxigo.Audio.Companding.RoundTrip.{passed_under, passed_under-at}

abbrev pub abs : ℤ → ℕ
abs (pos n) = n
abs (negsuc n) = n + 1

-- |a - b|
abbrev pub distance : ℤ → ℤ → ℕ
distance (pos a) (pos b) = (a - b) + (b - a)
distance (pos a) (negsuc b) = a + b + 1
distance (negsuc a) (pos b) = a + b + 1
distance (negsuc a) (negsuc b) = (a - b) + (b - a)

-- Whether the decoded sample is within a sixteenth of the sample's size, and `slack` sixteenths.
within : (ℤ → ℕ) → (ℕ → ℤ) → ℕ → ℕ → Bool
within code linear slack w =
    let s = int16 w in leb (distance (linear (code s)) s * 16) (abs s + slack)

all_samples : (ℕ → Bool) → Bool
unfolding passed_under
all_samples p = passed_under (λ hi. passed_under (λ lo. p (lo + hi * 256)) 256) 256

all_samples_sound : (p : ℕ → Bool) (w : ℕ) → all_samples p ≡ true → w < 65536 → p w ≡ true
unfolding all_samples
all_samples_sound p w h lt =
    let row =
      passed_under-at (λ hi. passed_under (λ lo. p (lo + hi * 256)) 256) 256 (w / 256) (omega arith)
        h in
    let cell = passed_under-at (λ lo. p (lo + w / 256 * 256)) 256 (w % 256) (omega arith) row in
    let e : w % 256 + w / 256 * 256 ≡ w = omega arith in rw e at cell

within-le :
    (code : ℤ → ℕ) (linear : ℕ → ℤ) (slack w : ℕ)
    → within code linear slack w ≡ true
    → distance (linear (code (int16 w))) (int16 w) * 16 ≤ abs (int16 w) + slack
unfolding within
within-le code linear slack w h = leb→le _ _ h

ulaw_samples : all_samples (within linear_to_ulaw ulaw_to_linear 111) ≡ true
unfolding all_samples within linear_to_ulaw ulaw_to_linear
ulaw_samples = refl

alaw_samples : all_samples (within linear_to_alaw alaw_to_linear 128) ≡ true
unfolding all_samples within linear_to_alaw alaw_to_linear
alaw_samples = refl

-- Encoding any 16-bit sample with μ-law and decoding it moves it by at most a sixteenth of its
-- size and 111/16, the clipped samples included.
pub ulaw_error :
    (w : ℕ)
    → w < 65536
    → distance (ulaw_to_linear (linear_to_ulaw (int16 w))) (int16 w) * 16 ≤ abs (int16 w) + 111
ulaw_error w h =
    within-le linear_to_ulaw ulaw_to_linear 111 w (all_samples_sound _ w ulaw_samples h)

-- Encoding any 16-bit sample with A-law and decoding it moves it by at most a sixteenth of its
-- size and 8.
pub alaw_error :
    (w : ℕ)
    → w < 65536
    → distance (alaw_to_linear (linear_to_alaw (int16 w))) (int16 w) * 16 ≤ abs (int16 w) + 128
alaw_error w h =
    within-le linear_to_alaw alaw_to_linear 128 w (all_samples_sound _ w alaw_samples h)
