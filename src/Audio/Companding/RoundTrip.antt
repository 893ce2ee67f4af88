-- ===== src/Audio/Companding/RoundTrip.antt =====
-- audio/g711/: decoding and encoding again. The laws of one byte are checked over all 256.
use voxigo.Prelude.Int.{ℤ, int16, uint16}
use voxigo.Prelude.{
  ℕ, zero, suc, ◌+◌, ◌*◌, ◌/◌, ◌%◌, ◌<◌, ◌≡◌, refl, ◌≢◌, Bool, true, ◌&&◌, ◌||◌, List, [], ◌∷◌,
  arith, ◌==◌, ==_iff, All,
}
use voxigo.Audio.Companding.{
  linear_to_ulaw, ulaw_to_linear, linear_to_alaw, alaw_to_linear, encode, decode, encode_ulaw,
  decode_ulaw, encode_alaw, decode_alaw,
}

-- A test that is passed by every byte, or by every number under another bound, as evaluation finds.
module _ (test : ℕ → Bool) where
  unfoldable pub passed_under : ℕ → Bool
  passed_under zero = true
  passed_under (suc bound) = passed_under bound && test bound

  pub passed_under-at : (bound u : ℕ) → u < bound → passed_under bound ≡ true → test u ≡ true
  unfolding passed_under
  passed_under-at zero u l e = absurd (omega arith)
  passed_under-at (suc bound) u l e = ground (arith, passed_under-at bound u)

-- The other zero of μ-law.
abbrev pub negative_zero : ℕ
negative_zero = 0x7f

-- The encoding of the sample that the written bytes of `linear u` stand for.
abbrev pub recode : (ℤ → ℕ) → (ℕ → ℤ) → ℕ → ℕ
recode code linear u = let s = uint16 (linear u) in code (int16 (s % 256 + s / 256 * 256))

ulaw_table :
    passed_under (λ u. u == negative_zero || recode linear_to_ulaw ulaw_to_linear u == u) 256 ≡ true
unfolding passed_under linear_to_ulaw ulaw_to_linear
ulaw_table = refl

alaw_table : passed_under (λ u. recode linear_to_alaw alaw_to_linear u == u) 256 ≡ true
unfolding passed_under linear_to_alaw alaw_to_linear
alaw_table = refl

recoded_ulaw : (u : ℕ) → u < 256 → u ≢ negative_zero → recode linear_to_ulaw ulaw_to_linear u ≡ u
recoded_ulaw u h n = ground (
  arith,
  passed_under-at (λ x. x == negative_zero || recode linear_to_ulaw ulaw_to_linear x == x) 256 u h
      ulaw_table,
)

recoded_alaw : (u : ℕ) → u < 256 → recode linear_to_alaw alaw_to_linear u ≡ u
recoded_alaw u h = (==_iff _ u).0 (passed_under-at _ 256 u h alaw_table)

encode-decode :
    (code : ℤ → ℕ) (linear : ℕ → ℤ) (us : List ℕ)
    → All (λ u. recode code linear u ≡ u) us
    → encode code (decode linear us) ≡ us
unfolding encode decode
encode-decode code linear [] h = refl
encode-decode code linear (u ∷ us) h = rw (h.0, encode-decode code linear us h.1)

All-map {κ τ} :
    {P : ℕ → Type κ} {Q : ℕ → Type τ} (f : (u : ℕ) → P u → Q u) (us : List ℕ) → All P us → All Q us
All-map f [] h = tt
All-map f (u ∷ us) h = (f u h.0, All-map f us h.1)

-- A stream of A-law bytes is what encoding its decoded samples gives back.
pub alaw_round_trip : (us : List ℕ) → All (λ u. u < 256) us → encode_alaw (decode_alaw us) ≡ us
unfolding encode_alaw decode_alaw
alaw_round_trip us h = encode-decode linear_to_alaw alaw_to_linear us (All-map recoded_alaw us h)

-- A stream of μ-law bytes, none of them the negative zero 0x7f, is what encoding its decoded
-- samples gives back.
pub ulaw_round_trip :
    (us : List ℕ)
    → All (λ u. (u < 256) × (u ≢ negative_zero)) us
    → encode_ulaw (decode_ulaw us) ≡ us
unfolding encode_ulaw decode_ulaw
ulaw_round_trip us h =
    encode-decode linear_to_ulaw ulaw_to_linear us (All-map (λ u p. recoded_ulaw u p.0 p.1) us h)
