-- ===== src/Audio/Companding.antt =====
-- audio/g711/: the μ-law and A-law codecs. A sample is an integer in the int16 range, a byte a
-- number below 256.
pub mod RoundTrip
pub mod Quality
mod Examples
use Prim.Native.Nat.{bit_and, bit_or, bit_xor}
use voxigo.Prelude.Int.{ℤ, pos, negsuc, sub_ℕ, shift_right, int16, uint16}
use voxigo.Prelude.{
  ℕ, zero, suc, ◌+◌, ◌-◌, ◌*◌, ◌/◌, ◌%◌, ◌^◌, Bool, true, false, List, [], ◌∷◌, map, ltb, leb, ◌==◌,
  if◌then◌else◌,
}

abbrev pub ulaw_bias : ℕ
ulaw_bias = 0x84

abbrev pub ulaw_clip : ℕ
ulaw_clip = 8159

abbrev pub ulaw_seg_end : List ℕ
ulaw_seg_end = 0x3f ∷ 0x7f ∷ 0xff ∷ 0x1ff ∷ 0x3ff ∷ 0x7ff ∷ 0xfff ∷ 0x1fff ∷ []

abbrev pub alaw_seg_end : List ℕ
alaw_seg_end = 0x1f ∷ 0x3f ∷ 0x7f ∷ 0xff ∷ 0x1ff ∷ 0x3ff ∷ 0x7ff ∷ 0xfff ∷ []

-- The loop of `ulawSegment` and `alawSegment`: the index of the first bound not below `v`.
unfoldable pub segment : List ℕ → ℕ → ℕ
segment [] v = 0
segment (end ∷ ends) v = if leb v end then 0 else suc (segment ends v)

abbrev pub magnitude : ℤ → ℕ
magnitude (pos n) = n
magnitude (negsuc n) = n + 1

abbrev pub is_negative : ℤ → Bool
is_negative (pos n) = false
is_negative (negsuc n) = true

-- `linearToULaw` from the clipped and biased magnitude and the mask on.
ulaw_code : ℕ → ℕ → ℕ
unfolding segment
ulaw_code v mask =
    let seg = segment ulaw_seg_end v in
    if leb 8 seg
    then bit_xor 0x7f mask % 256
    else bit_xor (bit_or (seg * 2 ^ 4) (bit_and (v / 2 ^ (seg + 1)) 0x0f)) mask % 256

unfoldable pub linear_to_ulaw : ℤ → ℕ
unfolding ulaw_code
linear_to_ulaw pcm =
    let v = shift_right pcm 2 in
    let mask = if is_negative v then 0x7f else 0xff in
    let clipped = if ltb ulaw_clip (magnitude v) then ulaw_clip else magnitude v in
    ulaw_code (clipped + ulaw_bias / 2 ^ 2) mask

unfoldable pub ulaw_to_linear : ℕ → ℤ
ulaw_to_linear byte =
    let u = 255 - byte in
    let t = (bit_and u 0x0f * 2 ^ 3 + ulaw_bias) * 2 ^ (bit_and u 0x70 / 2 ^ 4) in
    if bit_and u 0x80 == 0 then sub_ℕ t ulaw_bias else sub_ℕ ulaw_bias t

-- `-v - 1` of a negative `v`.
abbrev pub folded : ℤ → ℕ
folded (pos n) = n
folded (negsuc n) = n

alaw_code : ℕ → ℕ → ℕ
unfolding segment
alaw_code v mask =
    let seg = segment alaw_seg_end v in
    let quant = if ltb seg 2 then v / 2 ^ 1 else v / 2 ^ seg in
    if leb 8 seg
    then bit_xor 0x7f mask % 256
    else bit_xor (bit_or (seg * 2 ^ 4) (bit_and quant 0x0f)) mask % 256

unfoldable pub linear_to_alaw : ℤ → ℕ
unfolding alaw_code
linear_to_alaw pcm =
    let v = shift_right pcm 3 in alaw_code (folded v) (if is_negative v then 0x55 else 0xd5)

unfoldable pub alaw_to_linear : ℕ → ℤ
alaw_to_linear byte =
    let a = bit_xor byte 0x55 in
    let t = bit_and a 0x0f * 2 ^ 4 in
    let seg = bit_and a 0x70 / 2 ^ 4 in
    let magnitude_of =
      if seg == 0 then t + 8 else if seg == 1 then t + 0x108 else (t + 0x108) * 2 ^ (seg - 1) in
    if bit_and a 0x80 == 0 then sub_ℕ 0 magnitude_of else pos magnitude_of

-- One little-endian sample at a time; a trailing odd byte is ignored.
encode : (ℤ → ℕ) → List ℕ → List ℕ
encode code [] = []
encode code (lo ∷ []) = []
encode code (lo ∷ hi ∷ pcm) = code (int16 (lo + hi * 256)) ∷ encode code pcm

decode : (ℕ → ℤ) → List ℕ → List ℕ
decode linear [] = []
decode linear (u ∷ us) = let s = uint16 (linear u) in s % 256 ∷ s / 256 ∷ decode linear us

unfoldable pub encode_ulaw : List ℕ → List ℕ
unfolding encode linear_to_ulaw
encode_ulaw = encode linear_to_ulaw

unfoldable pub decode_ulaw : List ℕ → List ℕ
unfolding decode ulaw_to_linear
decode_ulaw = decode ulaw_to_linear

unfoldable pub encode_alaw : List ℕ → List ℕ
unfolding encode linear_to_alaw
encode_alaw = encode linear_to_alaw

unfoldable pub decode_alaw : List ℕ → List ℕ
unfolding decode alaw_to_linear
decode_alaw = decode alaw_to_linear
