-- ===== src/Audio/Companding/Examples.antt =====
-- audio/g711/ at a few bytes and samples.
use voxigo.Prelude.Int.{pos, int16}
use voxigo.Prelude.{◌+◌, ◌*◌, ◌≤◌, ◌≡◌, refl, [], ◌∷◌, arith}
use voxigo.Audio.Companding.{
  linear_to_ulaw, ulaw_to_linear, linear_to_alaw, alaw_to_linear, encode_ulaw, decode_ulaw,
  encode_alaw, decode_alaw,
}
use voxigo.Audio.Companding.RoundTrip.{alaw_round_trip, ulaw_round_trip}
use voxigo.Audio.Companding.Quality.{abs, distance, ulaw_error, alaw_error}

silence : linear_to_ulaw (pos 0) ≡ 0xff
unfolding linear_to_ulaw
silence = refl

loudest : linear_to_alaw (pos 32767) ≡ 0xaa
unfolding linear_to_alaw
loudest = refl

-- Both zeros decode to 0, which encodes to the positive one.
negative_zero_lost : encode_ulaw (decode_ulaw (0x7f ∷ [])) ≡ 0xff ∷ []
unfolding encode_ulaw decode_ulaw
negative_zero_lost = refl

alaw_round_trip_example : encode_alaw (decode_alaw (0x55 ∷ 0x2a ∷ [])) ≡ 0x55 ∷ 0x2a ∷ []
alaw_round_trip_example = alaw_round_trip (0x55 ∷ 0x2a ∷ []) (omega arith)

ulaw_round_trip_example : encode_ulaw (decode_ulaw (0xff ∷ 0x12 ∷ [])) ≡ 0xff ∷ 0x12 ∷ []
ulaw_round_trip_example = ulaw_round_trip (0xff ∷ 0x12 ∷ []) (omega arith)

ulaw_error_example :
    distance (ulaw_to_linear (linear_to_ulaw (int16 40000))) (int16 40000) * 16
    ≤ abs (int16 40000) + 111
ulaw_error_example = ulaw_error 40000 (omega arith)

alaw_error_example :
    distance (alaw_to_linear (linear_to_alaw (int16 1000))) (int16 1000) * 16
    ≤ abs (int16 1000) + 128
alaw_error_example = alaw_error 1000 (omega arith)
