-- ===== src/AudioPreprocessor/Chunks.antt =====
-- The filter over a stream that arrives in chunks.
use transcription_api.Prelude.{
  suc, ◌≡◌, refl, ap, ◌∙◌, inl, inr, List, [], ◌∷◌, ◌++◌, Option-cases, length, length-map,
}
use transcription_api.Float.{FloatOps}
use transcription_api.AudioPreprocessor.{FilterState, filter_loop, normalize, process, gain}

module _ {F : Type 0} ⦃fl : FloatOps F⦄ where
  length-filter_loop :
      (pcm : List F) (s : FilterState F) (peak : F) → length (filter_loop pcm s peak).0 ≡ length pcm
  unfolding filter_loop
  length-filter_loop [] s peak = refl
  length-filter_loop (raw ∷ pcm) s peak = ap suc (length-filter_loop pcm _ _)

  length-normalize : (peak : F) (pcm : List F) → length (normalize peak pcm) ≡ length pcm
  unfolding normalize
  length-normalize peak pcm = elim (Option-cases (gain peak)) [
    | inl e ↦ rw (e, normalize)
    | inr (g, e) ↦ rw (e, normalize) (length-map (λ s. fl.mul s g) pcm)
  ]

  -- `process` works in place: the number of samples stays.
  pub length-process : (pcm : List F) (s : FilterState F) → length (process pcm s).0 ≡ length pcm
  unfolding process
  length-process pcm s = length-normalize _ _ ∙ length-filter_loop pcm s _

  -- Where a stream is cut into chunks does not matter to the filter: with the state carried over, the
  -- filtered samples, the final state and the peak are those of the whole stream.
  pub filter_loop-append :
      (a b : List F) (s : FilterState F) (peak : F)
      → let (out_a, s_a, peak_a) = filter_loop a s peak in
        let (out_b, s_b, peak_b) = filter_loop b s_a peak_a in
        filter_loop (a ++ b) s peak ≡ (out_a ++ out_b, s_b, peak_b)
  unfolding filter_loop
  filter_loop-append [] b s peak = refl
  filter_loop-append (raw ∷ a) b s peak = rw (filter_loop-append a b _ _)
