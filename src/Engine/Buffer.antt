-- ===== src/Engine/Buffer.antt =====
-- The audio buffer under `processAudioChunk` and `reset`.
use transcription_api.Prelude.{
  ℕ, ◌+◌, ◌-◌, ◌≤◌, ◌<◌, min, ◌≡◌, true, false, List, [], ◌++◌, arith, leb, length, drop,
  length-append, length-drop, drop-append_le, drop-append_ge,
}
use transcription_api.Float.{FloatOps}
use transcription_api.AudioPreprocessor.{process}
use transcription_api.AudioPreprocessor.Chunks.{length-process}
use transcription_api.Engine.{
  Engine, append_capped, process_audio_chunk, max_buffer_samples, high_water_mark, reset,
}

-- The last n elements.
abbrev pub last_n {ℓ} : {A : Type ℓ} → ℕ → List A → List A
last_n n xs = drop (length xs - n) xs

module _ {F : Type 0} ⦃fl : FloatOps F⦄ where
  pub append_capped_lem :
      (buffer prepped : List F)
      → append_capped buffer prepped ≡ last_n max_buffer_samples (buffer ++ prepped)
  unfolding append_capped
  append_capped_lem buffer prepped = ground (
    arith,
    length-append buffer prepped,
    drop-append_le (length buffer + length prepped - max_buffer_samples) buffer prepped,
    drop-append_ge (length buffer + length prepped - max_buffer_samples) buffer prepped,
  )

  pub length-append_capped :
      (buffer prepped : List F)
      → length (append_capped buffer prepped)
        ≡ min max_buffer_samples (length buffer + length prepped)
  length-append_capped buffer prepped = rw append_capped_lem (
      omega (
        arith,
        length-drop (length (buffer ++ prepped) - max_buffer_samples) (buffer ++ prepped),
        length-append buffer prepped,
      ))

  -- A chunk is dropped, and the engine left alone, exactly if 20 s of audio wait already. Any other
  -- chunk is filtered and goes behind the buffer, of which the last 30 s stay.
  pub process_audio_chunk_lem :
      (pcm : List F) (e : Engine F)
      → let (dropped, e') = process_audio_chunk pcm e in
        let (prepped, s) = process pcm e.high_pass in
        (dropped ≡ leb high_water_mark (length e.audio_buffer))
        × (dropped ≡ true → e' ≡ e)
        × (dropped ≡ false
            → e' ≡ record e {
              audio_buffer = last_n max_buffer_samples (e.audio_buffer ++ prepped);
              high_pass = s;
            })
  unfolding process_audio_chunk
  process_audio_chunk_lem pcm e =
      ground (arith, append_capped_lem e.audio_buffer (process pcm e.high_pass).0)

  -- A buffer of at most 30 s stays within 30 s, and a chunk makes it no shorter, and longer by no more
  -- than its own length.
  pub process_audio_chunk_bounds :
      (pcm : List F) (e : Engine F)
      → length e.audio_buffer ≤ max_buffer_samples
      → let e' = (process_audio_chunk pcm e).1 in
        (length e'.audio_buffer ≤ max_buffer_samples)
        × (length e.audio_buffer ≤ length e'.audio_buffer)
        × (length e'.audio_buffer ≤ length e.audio_buffer + length pcm)
  unfolding process_audio_chunk
  process_audio_chunk_bounds pcm e h = ground (
    arith,
    length-append_capped e.audio_buffer (process pcm e.high_pass).0,
    length-process pcm e.high_pass,
  )

  -- `reset` keeps the last samples only if there are more than it is asked to keep; otherwise it keeps
  -- none, also where the whole buffer would fit.
  pub reset_lem :
      (keep : ℕ) (e : Engine F)
      → let b = (reset keep e).audio_buffer in
        (keep < length e.audio_buffer → b ≡ drop (length e.audio_buffer - keep) e.audio_buffer)
        × (keep < length e.audio_buffer → length b ≡ keep)
        × (length e.audio_buffer ≤ keep → b ≡ [])
  unfolding reset
  reset_lem keep e = ground (arith, length-drop (length e.audio_buffer - keep) e.audio_buffer)
