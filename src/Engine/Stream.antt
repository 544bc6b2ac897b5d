-- ===== src/Engine/Stream.antt =====
-- The engine over a run of calls, as a queue of audio.
use transcription_api.Prelude.{
  Text, ℕ, zero, suc, ◌+◌, ◌-◌, ◌≤◌, ◌≡◌, refl, sym, ap, ◌∙◌, ◌⊎◌, inl, inr, Bool, List, [], ◌∷◌,
  ◌++◌, append_assoc, append-nil, arith, ltb, leb, if◌then◌else◌, Bool-cases, length, drop,
  length-append, length-drop, drop-append_le, drop-all,
}
use transcription_api.Float.{FloatOps}
use transcription_api.AudioPreprocessor.{process}
use transcription_api.Engine.{
  Engine, Decoder, Outcome, returns, throws, process_audio_chunk, transcribe_sliding_window, reset,
  max_buffer_samples,
}
use transcription_api.Engine.Buffer.{process_audio_chunk_lem, process_audio_chunk_bounds, reset_lem}
use transcription_api.Engine.Transcribe.{transcribe_sliding_window_lem}

-- A call that touches the audio. A decode is whisper.cpp's for that call.
pub data Call (F : Type 0) : Type 0 where
  chunk : List F → Call F
  decoded : Decoder F → Bool → Call F
  cut : ℕ → Call F

Outcome-cases :
    {A : Type 0} (o : Outcome A) → ((a : A) × (o ≡ returns a)) ⊎ ((what : Text) × (o ≡ throws what))
Outcome-cases (returns a) = inl (a, refl)
Outcome-cases (throws what) = inr (what, refl)

module _ {F : Type 0} where
  drop-drop : (n k : ℕ) (xs : List F) → drop n (drop k xs) ≡ drop (k + n) xs
  drop-drop n zero xs = ap (λ (m : ℕ). drop m xs) (omega arith)
  drop-drop n (suc k) [] = drop-all n [] (omega arith) ∙ sym (drop-all (suc k + n) [] (omega arith))
  drop-drop n (suc k) (x ∷ xs) =
      let shorter : suc (k + n) ≡ suc k + n = omega arith in
      drop-drop n k xs ∙ ap (λ (m : ℕ). drop m (x ∷ xs)) shorter

  drop-within : (n : ℕ) (xs : List F) → (k : ℕ) × (k ≤ length xs) × (drop n xs ≡ drop k xs)
  drop-within n xs = elim (Bool-cases (leb n (length xs))) [
    | inl short ↦ (n, ground (arith, short), refl)
    | inr long ↦
        (length xs, omega arith, ground (arith, long, drop-all n xs, drop-all (length xs) xs))
  ]

module _ {F : Type 0} ⦃fl : FloatOps F⦄ where
  -- A decode that throws leaves the engine as it was.
  abbrev pub call : Engine F → Call F → Engine F
  call e (chunk pcm) = (process_audio_chunk pcm e).1
  call e (decoded decode force) = elim (transcribe_sliding_window decode force e) [
    | returns (res, e') ↦ e'
    | throws what ↦ e
  ]
  call e (cut keep) = reset keep e

  -- The filtered samples that a call brings into the buffer.
  abbrev pub taken : Engine F → Call F → List F
  taken e (chunk pcm) = if (process_audio_chunk pcm e).0 then [] else (process pcm e.high_pass).0
  taken e (decoded decode force) = []
  taken e (cut keep) = []

  abbrev pub calls : Engine F → List (Call F) → Engine F
  calls e [] = e
  calls e (c ∷ cs) = calls (call e c) cs

  abbrev pub all_taken : Engine F → List (Call F) → List F
  all_taken e [] = []
  all_taken e (c ∷ cs) = taken e c ++ all_taken (call e c) cs

  -- A queue from whose front some samples are gone.
  abbrev Behind : List F → List F → Type 0
  Behind heard b = (n : ℕ) × (n ≤ length heard) × (b ≡ drop n heard)

  call-Behind :
      (e : Engine F) (c : Call F) → Behind (e.audio_buffer ++ taken e c) (call e c).audio_buffer
  unfolding reset transcribe_sliding_window
  call-Behind e (chunk pcm) =
      let whole = e.audio_buffer ++ (process pcm e.high_pass).0 in
      let (full, same, fits) = process_audio_chunk_lem pcm e in
      elim (Bool-cases (process_audio_chunk pcm e).0) [
        | inl yes_dropped ↦
            (0, omega arith, ground (arith, yes_dropped, same, append-nil e.audio_buffer))
        | inr kept ↦ rw kept (
          length whole - max_buffer_samples,
          omega arith,
          ap (λ (x : Engine F). x.audio_buffer) (fits kept),
        )
      ]
  call-Behind e (decoded decode force) =
      rw (append-nil e.audio_buffer)
        (elim (Outcome-cases (transcribe_sliding_window decode force e)) [
          | inl ((res, e'), is) ↦ elim (transcribe_sliding_window_lem decode force e e' res is) [
            | inl (_, same, _) ↦ (0, omega arith, ground (arith, is, same))
            | inr (_, _, (n, shorter)) ↦
                let (k, within, at) = drop-within n e.audio_buffer in
                (k, within, ground (arith, is, shorter, at))
          ]
          | inr (what, is) ↦ (0, omega arith, ground (arith, is))
        ])
  call-Behind e (cut keep) =
      rw (append-nil e.audio_buffer) (elim (Bool-cases (ltb keep (length e.audio_buffer))) [
        | inl some_kept ↦
            (length e.audio_buffer - keep, omega arith, ground (arith, some_kept, reset_lem keep e))
        | inr all_gone ↦ (
          length e.audio_buffer,
          omega arith,
          ground
              (arith, all_gone, reset_lem keep e, drop-all (length e.audio_buffer) e.audio_buffer),
        )
      ])

  run-Behind :
      (heard : List F) (e : Engine F) (cs : List (Call F))
      → Behind heard e.audio_buffer
      → Behind (heard ++ all_taken e cs) (calls e cs).audio_buffer
  run-Behind heard e [] h = rw (append-nil heard) h
  run-Behind heard e (c ∷ cs) (n, within, is) =
      let (k, inside, at) = call-Behind e c in
      rw (← append_assoc heard (taken e c) (all_taken (call e c) cs)) (
        run-Behind (heard ++ taken e c) (call e c) cs (
          n + k,
          omega (
            arith,
            within,
            inside,
            ap length is,
            length-drop n heard,
            length-append heard (taken e c),
            length-append e.audio_buffer (taken e c),
          ),
          at
              ∙ ap (λ b. drop k (b ++ taken e c)) is
              ∙ ap (drop k) (sym (drop-append_le n heard (taken e c) within))
              ∙ drop-drop k n (heard ++ taken e c),
        ))

  -- A call that brings in no audio.
  shorter :
      (e : Engine F) (c : Call F)
      → taken e c ≡ []
      → length e.audio_buffer ≤ max_buffer_samples
      → length (call e c).audio_buffer ≤ max_buffer_samples
  shorter e c nothing h =
      let (n, _, is) = call-Behind e c in
      omega (
        arith,
        h,
        ap length is,
        ap length nothing,
        length-drop n (e.audio_buffer ++ taken e c),
        length-append e.audio_buffer (taken e c),
      )

  call_bounded :
      (e : Engine F) (c : Call F)
      → length e.audio_buffer ≤ max_buffer_samples
      → length (call e c).audio_buffer ≤ max_buffer_samples
  call_bounded e (chunk pcm) h = (process_audio_chunk_bounds pcm e h).0
  call_bounded e (decoded decode force) h = shorter e (decoded decode force) refl h
  call_bounded e (cut keep) h = shorter e (cut keep) refl h

  calls_bounded :
      (e : Engine F) (cs : List (Call F))
      → length e.audio_buffer ≤ max_buffer_samples
      → length (calls e cs).audio_buffer ≤ max_buffer_samples
  calls_bounded e [] h = h
  calls_bounded e (c ∷ cs) h = calls_bounded (call e c) cs (call_bounded e c h)

  -- Over any run of chunks, decodes, also those that throw, and resets, the buffer is a queue: what was in
  -- it, and behind that the filtered samples of all chunks that were not dropped, in their order, less a
  -- front. No sample is lost in the middle, repeated or put out of order, and 30 s are never exceeded.
  pub buffer_is_queue :
      (e : Engine F) (cs : List (Call F))
      → length e.audio_buffer ≤ max_buffer_samples
      → (n : ℕ) × (n ≤ length (e.audio_buffer ++ all_taken e cs))
        × ((calls e cs).audio_buffer ≡ drop n (e.audio_buffer ++ all_taken e cs))
        × (length (calls e cs).audio_buffer ≤ max_buffer_samples)
  buffer_is_queue e cs h =
      let (n, within, is) = run-Behind e.audio_buffer e cs (0, omega arith, refl) in
      (n, within, is, calls_bounded e cs h)
