-- ===== src/Engine/Transcribe.antt =====
-- Whole calls of `transcribeSlidingWindow`: those that return and those that throw.
use transcription_api.Prelude.{
  Text, codes, is_zero, ℕ, ◌≤◌, ◌<◌, ◌≡◌, ap, ◌≢◌, ◌↔◌, ◌⊎◌, inl, inr, Bool, true, false, none,
  some, List, [], ◌++◌, arith, Bool-cases, length, drop, List-cases, All,
}
use transcription_api.Float.{FloatOps}
use transcription_api.InferenceLimiter.{InferenceLimiter}
use transcription_api.InferenceLimiter.Guard.{guarded_runs, guarded_waits}
use transcription_api.Engine.Segments.{texts, locked_language}
use transcription_api.Engine.{
  Engine, Decoder, Outcome, returns, throws, TranscribeResult, transcribe_sliding_window,
  transcribe, full_params, FullParams,
}
use transcription_api.Engine.Boundary.{HasText}
use transcription_api.Engine.Window.{
  slide-texts, slide_forced, slide-drop, slide_silent, length-slide,
}

module _ {F : Type 0} ⦃fl : FloatOps F⦄ where
  pub transcribe_sliding_window_lem :
      (decode : Decoder F) (force : Bool) (e e' : Engine F) (res : TranscribeResult)
      → transcribe_sliding_window decode force e ≡ returns (res, e')
      → let d = decode (full_params e) e.audio_buffer in
        ((e.audio_buffer ≡ []) × (e' ≡ e) × (res.committed_text ++ res.partial_text ≡ []))
        ⊎ ((is_zero d.result ≡ true)
            × (res.committed_text ++ res.partial_text ≡ texts d.segments)
            × ((n : ℕ) × (e' ≡ record e {
              audio_buffer = drop n e.audio_buffer;
              language = locked_language e.language d.detected;
            })))
  unfolding transcribe_sliding_window
  transcribe_sliding_window_lem decode force e e' res h = elim (List-cases e.audio_buffer) [
    | inl empty ↦ inl (empty, ground arith, ground arith)
    | inr (x, xs, more) ↦
        elim (Bool-cases (is_zero (decode (full_params e) e.audio_buffer).result)) [
          | inl good ↦
              let ss = (decode (full_params e) e.audio_buffer).segments in
              let (n, q) = slide-drop force ss e.audio_buffer in
              inr (good, ground (arith, slide-texts force ss e.audio_buffer), (n, ground arith))
          | inr bad ↦ absurd (ground arith)
        ]
  ]

  -- A decode that fails throws, and there is no new engine: the audio is still in the buffer.
  pub transcribe_fails :
      (decode : Decoder F) (force : Bool) (e : Engine F)
      → e.audio_buffer ≢ []
      → (transcribe_sliding_window decode force e ≡ throws (codes "Whisper transcription failed"))
        ↔ (is_zero (decode (full_params e) e.audio_buffer).result ≡ false)
  unfolding transcribe_sliding_window
  transcribe_fails decode force e h = elim (List-cases e.audio_buffer) [
    | inl empty ↦ absurd (h empty)
    | inr (x, xs, more) ↦ ground arith
  ]

  -- What a call that is not forced does to the size, and a forced one to the buffer.
  pub transcribe_sizes :
      (decode : Decoder F) (e e' : Engine F) (res : TranscribeResult)
      → ((p : FullParams F) (b : List F) → All HasText (decode p b).segments)
      → transcribe_sliding_window decode false e ≡ returns (res, e')
      → (length e'.audio_buffer ≤ length e.audio_buffer)
        × (res.committed_text ≡ [] → e'.audio_buffer ≡ e.audio_buffer)
  unfolding transcribe_sliding_window
  transcribe_sizes decode e e' res h r = elim (List-cases e.audio_buffer) [
    | inl empty ↦ (ground arith, λ q. ground arith)
    | inr (x, xs, more) ↦
        let ss = (decode (full_params e) e.audio_buffer).segments in
        (
          ground (arith, length-slide false ss e.audio_buffer),
          λ q. ground (arith, slide_silent ss e.audio_buffer (h (full_params e) e.audio_buffer)),
        )
  ]

  pub transcribe_forced :
      (decode : Decoder F) (e e' : Engine F) (res : TranscribeResult)
      → transcribe_sliding_window decode true e ≡ returns (res, e')
      → (e'.audio_buffer ≡ []) ⊎ (e'.audio_buffer ≡ e.audio_buffer)
  unfolding transcribe_sliding_window
  transcribe_forced decode e e' res r = elim (List-cases e.audio_buffer) [
    | inl empty ↦ inr (ground arith)
    | inr (x, xs, more) ↦
        let ss = (decode (full_params e) e.audio_buffer).segments in
        elim (List-cases ss) [
          | inl none_left ↦
              inr (ground (arith, slide_forced ss e.audio_buffer, ap length none_left))
          | inr (s, rest, some_left) ↦
              inl (ground (arith, slide_forced ss e.audio_buffer, ap length some_left))
        ]
  ]

  -- `transcribe` waits while no slot is free. With a free slot it gives the committed text of a forced
  -- decode, or throws if the decode fails, and either way the slot is free again behind it.
  pub transcribe_lem :
      (decode : Decoder F) (e : Engine F) (l : InferenceLimiter)
      → (l.max_concurrent ≤ l.active_count → transcribe decode e l ≡ none)
        × (l.active_count < l.max_concurrent
            → ((res : TranscribeResult) (e' : Engine F)
                → transcribe_sliding_window decode true e ≡ returns (res, e')
                → transcribe decode e l ≡ some (returns (res.committed_text, e'), l))
              × ((what : Text)
                  → transcribe_sliding_window decode true e ≡ throws what
                  → transcribe decode e l ≡ some (throws what, l)))
  unfolding transcribe
  transcribe_lem decode e l = (
    (λ full. guarded_waits _ l full),
    λ room. (
      (λ res e' good.
          let outcome : Outcome (Text × Engine F) = returns (res.committed_text, e') in
          ground (arith, good, guarded_runs outcome l room)),
      λ what bad.
          let outcome : Outcome (Text × Engine F) = throws what in
          ground (arith, bad, guarded_runs outcome l room),
    ),
  )
