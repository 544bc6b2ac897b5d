-- ===== src/AudioPreprocessor.antt =====
-- src/utils/AudioPreprocessor.h: the high-pass filter and the peak normalisation.
pub mod Chunks
use transcription_api.Prelude.{◌&&◌, Option, none, some, List, [], ◌∷◌, map, if◌then◌else◌}
use transcription_api.Float.{FloatOps, fmax, fmin}

-- `prev_raw` and `prev_filtered`, which carry over from chunk to chunk.
pub record FilterState (F : Type 0) : Type 0 where
  pub prev_raw : F
  pub prev_filtered : F

module _ {F : Type 0} ⦃fl : FloatOps F⦄ where
  -- One sample: `alpha * (prev_filtered + raw - prev_raw)`.
  unfoldable pub filter_sample : F → FilterState F → F
  filter_sample raw s =
      fl.mul (fl.literal 969 1000) (fl.sub (fl.add s.prev_filtered raw) s.prev_raw)

  -- The first loop: the filtered samples, the state and the peak behind the last one.
  unfoldable pub filter_loop : List F → FilterState F → F → List F × FilterState F × F
  filter_loop [] s peak = ([], s, peak)
  filter_loop (raw ∷ pcm) s peak =
      let filtered = filter_sample raw s in
      let (out, s', peak') =
        filter_loop pcm (record { prev_raw = raw; prev_filtered = filtered })
          (fmax peak (fl.abs filtered)) in
      (filtered ∷ out, s', peak')

  -- The gain for a peak, where one is applied.
  unfoldable pub gain : F → Option F
  gain peak =
      if fl.less (fl.literal 2 100) peak && fl.less peak (fl.literal 9 10)
      then some (fmin (fl.quot (fl.literal 9 10) peak) (fl.literal 4 1))
      else none

  unfoldable pub normalize : F → List F → List F
  normalize peak pcm = elim (gain peak) [ none ↦ pcm | some g ↦ map (λ s. fl.mul s g) pcm ]

  unfoldable pub process : List F → FilterState F → List F × FilterState F
  unfolding normalize
  process pcm s =
      let (out, s', peak) = filter_loop pcm s (fl.literal 0 1) in (normalize peak out, s')
