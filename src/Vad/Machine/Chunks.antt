-- ===== src/Vad/Machine/Chunks.antt =====
-- audio/vad/vad.go: AnalyzeAudio as a whole, against its parts.
use mathlib.Core.List.{append_assoc}
use voxigo.Prelude.{
  ℕ, zero, suc, ◌<◌, ◌≡◌, refl, sym, ap, ◌∙◌, inl, inr, Bool, ◌&&◌, List, [], ◌∷◌, ◌++◌, arith,
  Bool-cases, leb, ltb, length, take, drop,
}
use voxigo.Vad.Machine.{
  Scoring, Machine, Decision, reset_decision, confirm, score, consume, analyze_audio,
}
use voxigo.Vad.Machine.Verdicts.{advance_all, hear}
use voxigo.Vad.Machine.Buffer.{frames_of, rest_of, frames-append, rest-short, frames-rest, flatten}

module _ (sc : Scoring) where
  open sc use {Float, Volume, at_least, voice_confidence, update, smooth}

  abbrev score_all : List (List ℕ) → Machine sc → Machine sc
  score_all [] m = m
  score_all (f ∷ fs) m = score_all fs (score sc f m)

  -- Whether each frame scores as speech, the volume carried from one to the next.
  abbrev pub verdicts : List (List ℕ) → Machine sc → List Bool
  verdicts [] m = []
  verdicts (f ∷ fs) m =
      let p = smooth (update f m.sample_rate m.volume) m.prev_volume in
      (at_least (voice_confidence f) m.params.confidence && at_least p m.params.min_volume)
      ∷ verdicts fs (score sc f m)

  score_all-decision :
      (fs : List (List ℕ)) (m : Machine sc)
      → (score_all fs m).decision ≡ advance_all (verdicts fs m) m.decision
  unfolding score
  score_all-decision [] m = refl
  score_all-decision (f ∷ fs) m = score_all-decision fs (score sc f m)

  score_all-buf :
      (fs : List (List ℕ)) (m : Machine sc) (b : List ℕ)
      → score_all fs (record m { buf = b }) ≡ record (score_all fs m) { buf = b }
  unfolding score
  score_all-buf [] m b = refl
  score_all-buf (f ∷ fs) m b = score_all-buf fs (score sc f m) b

  consume_lem :
      (fuel : ℕ) (m : Machine sc)
      → consume sc fuel m ≡ record (score_all (frames_of fuel m.frame_num_bytes m.buf) m) {
        buf = rest_of fuel m.frame_num_bytes m.buf;
      }
  unfolding consume frames_of rest_of score
  consume_lem zero m = refl
  consume_lem (suc fuel) m = elim (Bool-cases (leb m.frame_num_bytes (length m.buf))) [
    | inl e ↦
        let n = m.frame_num_bytes in
        let b = drop n m.buf in
        let m' = score sc (take n m.buf) (record m { buf = b }) in
        rw e (
          consume_lem fuel m'
          ∙ ap (λ (t : Machine sc). record t { buf = rest_of fuel n b })
              (score_all-buf (frames_of fuel n b) (score sc (take n m.buf) m) b))
    | inr e ↦ rw e
  ]

  -- The machine but for its decision: the parameters, the buffered bytes and the volume.
  abbrev pub audio : Machine sc → Machine sc
  audio m = record m { decision = reset_decision }

  -- What the whole frames of the buffered bytes and a chunk make of the machine.
  abbrev cut_at : ℕ → List ℕ → Machine sc → Machine sc
  cut_at n all m = record (score_all (frames_of (length all) n all) m) {
    buf = rest_of (length all) n all;
  }

  abbrev cut : List ℕ → Machine sc → Machine sc
  cut all m = cut_at m.frame_num_bytes all m

  frames-none :
      (f n : ℕ) (buf : List ℕ) → length buf < n → (frames_of f n buf ≡ []) × (rest_of f n buf ≡ buf)
  unfolding frames_of rest_of
  frames-none zero n buf h = (refl, refl)
  frames-none (suc f) n buf h = ground arith

  -- A call, in terms of its frames; the early return of a short chunk included.
  analyze_audio-cut :
      (chunk : List ℕ) (m : Machine sc)
      → (audio (analyze_audio sc chunk m) ≡ audio (cut (m.buf ++ chunk) m))
        × (confirm m.start_frames m.stop_frames m.decision ≡ m.decision
            → (analyze_audio sc chunk m).decision
              ≡ hear m.start_frames m.stop_frames
                  (verdicts
                    (frames_of (length (m.buf ++ chunk)) m.frame_num_bytes (m.buf ++ chunk))
                    m)
                  m.decision)
  unfolding analyze_audio
  analyze_audio-cut chunk m =
      let all = m.buf ++ chunk in
      let n = m.frame_num_bytes in
      let fs = frames_of (length all) n all in
      elim (Bool-cases (ltb (length all) n)) [
        | inl e ↦
            let (a, b) = frames-none (length all) n all (ground arith) in
            rw (e, a, b) (refl, λ c. sym c)
        | inr e ↦
            rw (e, consume_lem (length all) (record m { buf = all }))
              (
                ap
                    (λ (t : Machine sc). record t {
                      decision = reset_decision;
                      buf = rest_of (length all) n all;
                    })
                    (score_all-buf fs m all),
                λ c. ap (confirm m.start_frames m.stop_frames) (
                    ap (λ (t : Machine sc). t.decision) (score_all-buf fs m all)
                    ∙ score_all-decision fs m),
              )
      ]

  audio-score_all :
      (fs : List (List ℕ)) (m : Machine sc)
      → audio (score_all fs m) ≡ audio (score_all fs (audio m))
  unfolding score
  audio-score_all [] m = refl
  audio-score_all (f ∷ fs) m =
      audio-score_all fs (score sc f m) ∙ sym (audio-score_all fs (score sc f (audio m)))

  score_all-append :
      (fs gs : List (List ℕ)) (m : Machine sc)
      → score_all (fs ++ gs) m ≡ score_all gs (score_all fs m)
  score_all-append [] gs m = refl
  score_all-append (f ∷ fs) gs m = score_all-append fs gs (score sc f m)

  score_all-size :
      (fs : List (List ℕ)) (m : Machine sc) → (score_all fs m).frame_num_bytes ≡ m.frame_num_bytes
  unfolding score
  score_all-size [] m = refl
  score_all-size (f ∷ fs) m = score_all-size fs (score sc f m)

  audio-cut_self : (all : List ℕ) (m : Machine sc) → audio (cut all m) ≡ audio (cut all (audio m))
  audio-cut_self all m =
      ap (λ (t : Machine sc). record t { buf = rest_of (length all) m.frame_num_bytes all })
        (audio-score_all (frames_of (length all) m.frame_num_bytes all) m)

  -- What a second chunk makes of the machine goes by its audio alone.
  audio-cut :
      (all : List ℕ) (m k : Machine sc) → audio m ≡ audio k → audio (cut all m) ≡ audio (cut all k)
  audio-cut all m k e =
      audio-cut_self all m
      ∙ (ap (λ (t : Machine sc). audio (cut all t)) e ∙ sym (audio-cut_self all k))

  -- Two cuts, the second over what the first left, are one.
  cut-cut :
      (xs ys : List ℕ) (m : Machine sc)
      → 0 < m.frame_num_bytes
      → audio (cut (rest_of (length xs) m.frame_num_bytes xs ++ ys) (cut xs m))
        ≡ audio (cut (xs ++ ys) m)
  cut-cut xs ys m h =
      let n = m.frame_num_bytes in
      let fs = frames_of (length xs) n xs in
      let r = rest_of (length xs) n xs in
      let gs = frames_of (length (r ++ ys)) n (r ++ ys) in
      let (p, q) =
        frames-append (length xs) (length (r ++ ys)) (length (xs ++ ys)) n xs ys h (omega arith)
          (omega arith) (omega arith) in
      ap (λ (k : ℕ). audio (cut_at k (r ++ ys) (cut xs m))) (score_all-size fs m)
      ∙ rw (p, q, score_all-append fs gs m)
          (ap
            (λ (t : Machine sc). record t {
              decision = reset_decision;
              buf = rest_of (length (r ++ ys)) n (r ++ ys);
            })
            (score_all-buf gs (score_all fs m) r))

  -- Cutting the stream into chunks differently does not change what is buffered, nor the volume:
  -- two calls leave the audio side of the machine as one call with both chunks does.
  pub analyze_audio-append :
      (a b : List ℕ) (m : Machine sc)
      → 0 < m.frame_num_bytes
      → audio (analyze_audio sc b (analyze_audio sc a m)) ≡ audio (analyze_audio sc (a ++ b) m)
  analyze_audio-append a b m h =
      let first = (analyze_audio-cut a m).0 in
      let m' = analyze_audio sc a m in
      let all = m.buf ++ a in
      (analyze_audio-cut b m').0
      ∙ (audio-cut (m'.buf ++ b) m' (cut all m) first
          ∙ (ap (λ (t : List ℕ). audio (cut (t ++ b) (cut all m)))
                (ap (λ (t : Machine sc). t.buf) first)
              ∙ (cut-cut all b m h
                  ∙ (ap (λ (t : List ℕ). audio (cut t m)) (append_assoc m.buf a b)
                      ∙ sym (analyze_audio-cut (a ++ b) m).0))))

  -- With a detector whose frames are not empty the loop ends: a call is the confirmed verdicts of
  -- the whole frames in the buffered bytes and the chunk, in order, it keeps the bytes after them,
  -- and those are fewer than a frame's. (The decision going in is one that a call or a reset left.)
  pub analyze_audio-hear :
      (chunk : List ℕ) (m : Machine sc)
      → 0 < m.frame_num_bytes
      → confirm m.start_frames m.stop_frames m.decision ≡ m.decision
      → let all = m.buf ++ chunk in
        let m' = analyze_audio sc chunk m in
        let fs = frames_of (length all) m.frame_num_bytes all in
        (m'.decision ≡ hear m.start_frames m.stop_frames (verdicts fs m) m.decision)
        × (flatten fs ++ m'.buf ≡ all)
        × (length m'.buf < m.frame_num_bytes)
  analyze_audio-hear chunk m h c =
      let all = m.buf ++ chunk in
      let left : (analyze_audio sc chunk m).buf ≡ rest_of (length all) m.frame_num_bytes all =
        ap (λ (t : Machine sc). t.buf) (analyze_audio-cut chunk m).0 in
      (
        (analyze_audio-cut chunk m).1 c,
        rw left (frames-rest (length all) m.frame_num_bytes all),
        rw left (rest-short (length all) m.frame_num_bytes all h (omega arith)),
      )

-- What a call leaves is such a decision: confirming is idempotent.
pub confirm-confirm : (s e : ℕ) (d : Decision) → confirm s e (confirm s e d) ≡ confirm s e d
unfolding confirm
confirm-confirm s e d = ground arith
