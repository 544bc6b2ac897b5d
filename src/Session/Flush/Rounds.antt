-- ===== src/Session/Flush/Rounds.antt =====
-- One round of `flushLoop` that decodes: when it does, and what becomes of the inference slot.
use transcription_api.Prelude.{
  Text, is_empty, ℕ, ◌+◌, ◌-◌, ◌/◌, ◌≤◌, ◌<◌, ◌≡◌, refl, ◌∙◌, ◌⊎◌, true, false, some, arith,
  if◌then◌else◌, length,
}
use transcription_api.Float.{FloatOps}
use transcription_api.Engine.{
  Engine, TranscribeResult, Outcome, transcribe_sliding_window, get_buffer_size, max_buffer_samples,
}
use transcription_api.InferenceLimiter
use transcription_api.InferenceLimiter.{InferenceLimiter}
use transcription_api.Session.State.{Session, Process, Surroundings, done, throws, send_message}
use transcription_api.Session.Flush.{
  absorb, report, infer, flush_cycle, wants_inference, min_new_samples, min_buffer_samples,
}

-- The triggers of a decode, on true differences: 250 ms of new audio, or some new audio and more than
-- 400 ms without a chunk.
abbrev pub Triggered : {F : Type 0} → ℕ → ℕ → Session F → Type 0
Triggered now size s =
    (min_new_samples ≤ size - s.last_transcribed_size)
    ⊎ ((400 < (now - s.last_audio_time) / 1000000) × (s.last_transcribed_size < size))

granted_slot :
    (l : InferenceLimiter)
    → l.active_count < l.max_concurrent
    → InferenceLimiter.try_acquire l ≡ (true, record l { active_count = l.active_count + 1 })
unfolding InferenceLimiter.try_acquire
granted_slot l room = ground arith

returned_slot :
    (l : InferenceLimiter)
    → InferenceLimiter.release (record l { active_count = l.active_count + 1 }) ≡ l
unfolding InferenceLimiter.release
returned_slot l = ground arith

module _ {F : Type 0} ⦃fl : FloatOps F⦄ where
  wants_inference_lem :
      (now size : ℕ) (s : Session F)
      → s.last_transcribed_size ≤ size
      → size ≤ max_buffer_samples
      → Triggered now size s
      → wants_inference now size s ≡ true
  unfolding wants_inference
  wants_inference_lem now size s le cap t = ground arith

  flush_cycle-infer :
      (env : Surroundings F) (p : Process F) (e : Engine F)
      → p.session.engine ≡ some e
      → p.session.configured ≡ true
      → min_buffer_samples ≤ length e.audio_buffer
      → wants_inference env.now (length e.audio_buffer) p.session ≡ true
      → flush_cycle env true p ≡ infer env e p
  unfolding flush_cycle
  flush_cycle-infer env p e on c long w = ground arith

  -- A round that finds the session free, configured and with 2 s of audio or more, that is triggered
  -- and gets a slot, decodes: if the decode succeeds, the slot is given back, the engine is the one
  -- behind the decode, and the size that counts as transcribed is that of the buffer behind a commit,
  -- or of the decoded buffer where nothing was committed. If the decode fails, its exception leaves
  -- the round with the slot still taken.
  pub flush_decodes :
      (env : Surroundings F) (p : Process F) (e : Engine F)
      → p.session.engine ≡ some e
      → p.session.configured ≡ true
      → min_buffer_samples ≤ length e.audio_buffer
      → length e.audio_buffer ≤ max_buffer_samples
      → p.session.last_transcribed_size ≤ length e.audio_buffer
      → Triggered env.now (length e.audio_buffer) p.session
      → p.limiter.active_count < p.limiter.max_concurrent
      → ((res : TranscribeResult) (e' : Engine F)
          → transcribe_sliding_window env.decode false e ≡ Outcome.returns (res, e')
          → (q : Process F) × (flush_cycle env true p ≡ done q)
            × (q.limiter ≡ p.limiter)
            × (q.session.engine ≡ some e')
            × (q.session.last_transcribed_size ≡ (
                if is_empty res.committed_text
                then length e.audio_buffer
                else length e'.audio_buffer)))
        × ((what : Text)
            → transcribe_sliding_window env.decode false e ≡ Outcome.throws what
            → (q : Process F) × (flush_cycle env true p ≡ throws what q)
              × (q.limiter.active_count ≡ p.limiter.active_count + 1))
  unfolding infer absorb report send_message get_buffer_size
  flush_decodes env p e on c long cap le trig room =
      let runs =
        flush_cycle-infer env p e on c long
          (wants_inference_lem env.now (length e.audio_buffer) p.session le cap trig) in
      let slot = granted_slot p.limiter room in
      (
        (λ res e' good. (
          record p { session = report res (absorb (length e.audio_buffer) res e' p.session) },
          runs ∙ ground (arith, slot, returned_slot p.limiter),
          refl,
          ground arith,
          ground arith,
        )),
        λ what bad. (
          record p { limiter = record p.limiter { active_count = p.limiter.active_count + 1 } },
          runs ∙ ground (arith, slot),
          refl,
        ),
      )
