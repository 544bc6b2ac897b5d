-- ===== src/Session/Steps/Underflow.antt =====
-- `current_size - last_transcribed_size_` never wraps around.
use transcription_api.Prelude.{
  Text, ℕ, ◌-◌, ◌≤◌, ◌≡◌, refl, sym, ap, ◌∙◌, subst, inl, inr, Bool, true, false, Option, none,
  some, List, [], arith, Bool-cases, length, List-cases, All,
}
use transcription_api.Float.{FloatOps}
use transcription_api.Engine.{
  Engine, Decoder, FullParams, TranscribeResult, Outcome, transcribe_sliding_window,
  get_buffer_size, max_buffer_samples,
}
use transcription_api.Engine.Boundary.{HasText}
use transcription_api.Engine.Transcribe.{transcribe_sizes}
use transcription_api.InferenceLimiter
use transcription_api.Session.State.{
  Session, Process, Surroundings, done, Json, new_session, WhisperOptions, send_message,
}
use transcription_api.Session.Receive.{handle_json_message, dispatch, handle_end}
use transcription_api.Session.Receive.Protocol.{replied, dispatch_cases, json_cases}
use transcription_api.Session.Flush.{
  absorb, report, infer, flush_cycle, min_buffer_samples, size_sub,
}
use transcription_api.Session.Steps.{
  Step, Reach, text, text_throws, binary, closed, flush, others, begin, next,
}
use transcription_api.Session.Steps.Sizes.{
  IsSized, handle_binary-IsSized, handle_config-IsSized, handle_end-IsSized, send_error-IsSized,
  release_model-IsSized, outcome_cases,
}
use transcription_api.Session.Steps.Outcomes.{flush_cases, with_session-done, handle_json-throws}

-- Every segment that whisper.cpp reports has some text.
abbrev pub Speaks : {F : Type 0} → Decoder F → Type 0
Speaks {F} decode = (p : FullParams F) (b : List F) → All HasText (decode p b).segments

module _ {F : Type 0} ⦃fl : FloatOps F⦄ where
  absorb-IsSized :
      (n : ℕ) (res : TranscribeResult) (e e' : Engine F) (s : Session F)
      → IsSized s
      → s.engine ≡ some e
      → n ≡ length e.audio_buffer
      → length e'.audio_buffer ≤ length e.audio_buffer
      → (res.committed_text ≡ [] → e'.audio_buffer ≡ e.audio_buffer)
      → IsSized (absorb n res e' s)
  unfolding absorb get_buffer_size
  absorb-IsSized n res e e' s v on q less silent x h = elim (List-cases res.committed_text) [
    | inl no_text ↦ ground (arith, v e on, silent no_text)
    | inr (c, cs, some_text) ↦ ground (arith, v e on)
  ]

  report-IsSized : (res : TranscribeResult) (s : Session F) → IsSized s → IsSized (report res s)
  unfolding report send_message
  report-IsSized res s v e h = ground (arith, v e)

  infer-IsSized :
      (env : Surroundings F) (e : Engine F) (p q : Process F)
      → Speaks env.decode
      → p.session.engine ≡ some e
      → IsSized p.session
      → infer env e p ≡ done q
      → IsSized q.session
  unfolding infer
  infer-IsSized env e p q sp on v h = elim (Bool-cases (InferenceLimiter.try_acquire p.limiter).0) [
    | inr busy ↦ subst (λ (x : Process F). IsSized x.session) (skipped busy) v
    | inl granted ↦ elim (outcome_cases (transcribe_sliding_window env.decode false e)) [
      | inl (what, bad) ↦ absurd (ground arith)
      | inr (res, e', good) ↦
          let (less, silent) = transcribe_sizes env.decode e e' res sp good in
          subst (λ (x : Session F). IsSized x) (decoded granted res e' good)
            (report-IsSized res _
              (absorb-IsSized (length e.audio_buffer) res e e' p.session v on refl less silent))
    ]
  ]
    where
      skipped : (InferenceLimiter.try_acquire p.limiter).0 ≡ false → p ≡ q
      skipped busy = ground arith

      decoded :
          (InferenceLimiter.try_acquire p.limiter).0 ≡ true
          → (res : TranscribeResult) (e' : Engine F)
          → transcribe_sliding_window env.decode false e ≡ Outcome.returns (res, e')
          → report res (absorb (length e.audio_buffer) res e' p.session) ≡ q.session
      decoded granted res e' good = ground arith

  flush_cycle-IsSized :
      (env : Surroundings F) (locked : Bool) (p q : Process F)
      → Speaks env.decode
      → IsSized p.session
      → flush_cycle env locked p ≡ done q
      → IsSized q.session
  unfolding flush_cycle
  flush_cycle-IsSized env locked p q sp v h = elim (flush_cases env locked p) [
    | inl e ↦ subst (λ (x : Process F). IsSized x.session) (same e) v
    | inr (e, on, _, i) ↦ infer-IsSized env e p q sp on v (sym i ∙ h)
  ]
    where
      same : flush_cycle env locked p ≡ done p → p ≡ q
      same e = ground arith

  replied-IsSized :
      (p q : Process F) (a b : Text)
      → IsSized p.session
      → replied p a b ≡ done q
      → IsSized q.session
  replied-IsSized p q a b v h e on = ground (arith, send_error-IsSized a b p.session v e)

  dispatch-IsSized :
      (env : Surroundings F) (type : Text) (msg : Json F) (p q : Process F)
      → IsSized p.session
      → dispatch env type msg p ≡ done q
      → IsSized q.session
  dispatch-IsSized env type msg p q v h = elim (dispatch_cases env type msg p) [
    | inl (_, e) ↦ handle_config-IsSized env msg p q v (sym e ∙ h)
    | inr (inl (_, e)) ↦ replied-IsSized p q _ _ v (sym e ∙ h)
    | inr (inr (inl (_, _, e))) ↦
        handle_end-IsSized env p.session q.session v
          (with_session-done p q (handle_end env p.session) (sym e ∙ h))
    | inr (inr (inr (_, e))) ↦ replied-IsSized p q _ _ v (sym e ∙ h)
  ]

  handle_json-IsSized :
      (env : Surroundings F) (msg : Option (Json F)) (p q : Process F)
      → IsSized p.session
      → handle_json_message env msg p ≡ done q
      → IsSized q.session
  unfolding handle_json_message
  handle_json-IsSized env none p q v h = replied-IsSized p q _ _ v h
  handle_json-IsSized env (some msg) p q v h = elim (json_cases env msg p) [
    | inl (_, e) ↦ replied-IsSized p q _ _ v (sym e ∙ h)
    | inr (inl (type, _, e)) ↦ dispatch-IsSized env type msg p q v (sym e ∙ h)
    | inr (inr e) ↦ absurd (ground arith)
  ]

  Step-IsSized :
      (decode : Decoder F)
      → Speaks decode
      → {p q : Process F} → Step decode p q
      → IsSized p.session
      → IsSized q.session
  Step-IsSized decode sp {p} {q} (text env msg d o h) v = handle_json-IsSized env msg p q v h
  Step-IsSized decode sp {p} {q} (text_throws env msg what p' d o h e) v = rw e (
      release_model-IsSized env.now _
        (λ x on. ground (arith, v x, handle_json-throws env msg what p p' h)))
  Step-IsSized decode sp {p} {q} (binary b now o e) v =
      rw e (handle_binary-IsSized b now p.session o v)
  Step-IsSized decode sp {p} {q} (closed now e) v =
      rw e (release_model-IsSized now _ (λ x on. ground (arith, v x on)))
  Step-IsSized decode sp {p} {q} (flush env locked d h) v =
      flush_cycle-IsSized env locked p q (rw d sp) v h
  Step-IsSized decode sp {p} {q} (others c l a e) v = rw e v

  Reach-IsSized :
      (decode : Decoder F)
      → Speaks decode
      → {p q : Process F} → Reach decode p q
      → IsSized p.session
      → IsSized q.session
  Reach-IsSized decode sp begin v = v
  Reach-IsSized decode sp (next r st) v = Step-IsSized decode sp st (Reach-IsSized decode sp r v)

  new_session-IsSized :
      (id path : Text) (o : WhisperOptions F) (now : ℕ) → IsSized (new_session id path o now)
  unfolding new_session
  new_session-IsSized id path o now e h = cc

  -- Whatever the client sends and whenever the flush thread runs: if whisper.cpp reports no segment
  -- without text, then at each decode of `flushLoop` the buffer is at least as long as what was
  -- transcribed, so the unsigned difference is the true one. The buffer never exceeds 30 s.
  pub no_underflow :
      (decode : Decoder F) (id path : Text) (o : WhisperOptions F) (now : ℕ) (p q : Process F)
      → Speaks decode
      → p.session ≡ new_session id path o now
      → Reach decode p q
      → (e : Engine F) → q.session.engine ≡ some e
      → (length e.audio_buffer ≤ max_buffer_samples)
        × (min_buffer_samples ≤ length e.audio_buffer
            → (q.session.last_transcribed_size ≤ length e.audio_buffer)
              × (size_sub (length e.audio_buffer) q.session.last_transcribed_size
                  ≡ length e.audio_buffer - q.session.last_transcribed_size))
  no_underflow decode id path o now p q sp fresh r e on =
      let v = Reach-IsSized decode sp r (rw fresh (new_session-IsSized id path o now)) e on in
      (
        v.0,
        λ long. elim v.1 [
          | inl le ↦ (le, omega arith)
          | inr (_, emptied) ↦ absurd (omega (arith, ap length emptied))
        ],
      )
