-- ===== src/Session/Flush.antt =====
-- src/server/StreamingSession.h: one round of `flushLoop`, behind its sleep.
pub mod Texts
pub mod Rounds
use transcription_api.Prelude.{
  Text, is_empty, ℕ, ◌+◌, ◌-◌, ◌/◌, ◌%◌, ◌^◌, Bool, false, not, ◌&&◌, ◌||◌, none, some, [], ◌++◌,
  ltb, leb, if◌then◌else◌, length,
}
use transcription_api.Float.{FloatOps}
use transcription_api.Engine.{
  Engine, Outcome, TranscribeResult, transcribe_sliding_window, get_buffer_size, high_water_mark,
}
use transcription_api.InferenceLimiter
use transcription_api.HallucinationGuard.{is_hallucination}
use transcription_api.Session.State.{
  transcription, Session, Process, Surroundings, Handled, done, throws, send_message,
}

-- 250 ms and 2 s at 16 kHz.
abbrev pub min_new_samples : ℕ
min_new_samples = 4000

abbrev pub min_buffer_samples : ℕ
min_buffer_samples = 32000

abbrev pub size_mod : ℕ
size_mod = 2 ^ 64

-- a - b on `size_t`, for values below 2^64.
abbrev pub size_sub : ℕ → ℕ → ℕ
size_sub a b = (a + size_mod - b) % size_mod

-- Text that is not empty and passes the guard.
unfoldable pub text_ok : Text → Bool
text_ok t = not (is_empty t) && not (is_hallucination t)

module _ {F : Type 0} ⦃fl : FloatOps F⦄ where
  -- Whether there is reason to decode now.
  unfoldable pub wants_inference : ℕ → ℕ → Session F → Bool
  wants_inference now current_size s =
      let elapsed_ms = (now - s.last_audio_time) / 1000000 in
      leb min_new_samples (size_sub current_size s.last_transcribed_size)
      || (ltb 400 elapsed_ms && ltb s.last_transcribed_size current_size)

  -- The texts, sizes and flags behind a decode.
  unfoldable pub absorb : ℕ → TranscribeResult → Engine F → Session F → Session F
  absorb current_size res e' s =
      let full =
        if text_ok res.committed_text
        then s.full_transcription ++ res.committed_text
        else s.full_transcription in
      record s {
        engine = some e';
        buffer_overflowed =
            if s.buffer_overflowed && ltb (get_buffer_size e') high_water_mark
            then false
            else s.buffer_overflowed;
        last_transcribed_size =
            if is_empty res.committed_text then current_size else get_buffer_size e';
        full_transcription = full;
        raw_transcription = s.raw_transcription ++ res.committed_text;
      }

  -- The partial message, if either text is fit to be shown. The source sends it with `state_mutex_`
  -- unlocked; here it belongs to the round.
  unfoldable pub report : TranscribeResult → Session F → Session F
  report res s =
      if text_ok res.committed_text || text_ok res.partial_text
      then send_message
          (transcription
            (s.full_transcription ++ (if text_ok res.partial_text then res.partial_text else []))
            false)
          s
      else s

  -- An exception of the decode leaves the thread's function, with the slot still taken.
  unfoldable pub infer : Surroundings F → Engine F → Process F → Handled (Process F)
  infer env e p =
      let (granted, limiter) = InferenceLimiter.try_acquire p.limiter in
      if not granted then done p else elim (transcribe_sliding_window env.decode false e) [
        | Outcome.throws what ↦ throws what (record p { limiter = limiter })
        | Outcome.returns (res, e') ↦ done (record p {
          limiter = InferenceLimiter.release limiter;
          session = report res (absorb (length e.audio_buffer) res e' p.session);
        })
      ]

  -- `locked` is what `try_lock` gives.
  unfoldable pub flush_cycle : Surroundings F → Bool → Process F → Handled (Process F)
  flush_cycle env locked p = elim p.session.engine [
    | none ↦ done p
    | some e ↦
        if not locked
        then done p
        else if not p.session.configured
        then done p
        else if ltb (length e.audio_buffer) min_buffer_samples
        then done p
        else if not (wants_inference env.now (length e.audio_buffer) p.session)
        then done p
        else infer env e p
  ]
