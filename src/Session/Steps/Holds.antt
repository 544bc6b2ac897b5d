-- ===== src/Session/Steps/Holds.antt =====
-- The reference to the model and the engine of a session, under what leaves them alone.
use transcription_api.Prelude.{
  Text, codes, ℕ, ◌+◌, ◌≡◌, ◌∙◌, inl, inr, Bool, true, false, Option, none, some, List, ◌++◌, arith,
  Option-cases, length, List-cases,
}
use transcription_api.Float.{FloatOps}
use transcription_api.Engine.{Engine, Decoder, Outcome, TranscribeResult, transcribe_sliding_window}
use transcription_api.Engine
use transcription_api.Session.State.{
  Session, Process, Surroundings, done, Message, CloseReason, send_message, send_error,
  close_socket,
}
use transcription_api.Session.Receive.{
  configure_engine, handle_binary_message, process_audio_chunk, floats_of, not_configured_text,
  handle_end, finish_transcription,
}
use transcription_api.Session.Flush.{infer, absorb, report, flush_cycle}
use transcription_api.Session.Steps.Outcomes.{flush_cases}
use transcription_api.Session.Steps.Sizes.{outcome_cases}

module _ {F : Type 0} where
  -- The context of the engine, if there is an engine.
  abbrev pub engine_ctx : Option (Engine F) → Option (Option ℕ)
  engine_ctx none = none
  engine_ctx (some e) = some e.ctx

  -- The path of the model, whether there is a reference to it, and the context of the
  -- engine.
  abbrev pub hold : Session F → Text × Bool × Option (Option ℕ)
  hold s = (s.model_path, s.model_acquired, engine_ctx s.engine)

  pub hold-send : (m : Message) (s : Session F) → hold (send_message m s) ≡ hold s
  unfolding send_message
  hold-send m s = ground arith

  pub hold-close : (r : CloseReason) (s : Session F) → hold (close_socket r s) ≡ hold s
  unfolding close_socket
  hold-close r s = ground arith

module _ {F : Type 0} ⦃fl : FloatOps F⦄ where
  ctx-chunk : (audio : List F) (e : Engine F) → (Engine.process_audio_chunk audio e).1.ctx ≡ e.ctx
  unfolding Engine.process_audio_chunk
  ctx-chunk audio e = ground arith

  ctx-window :
      (decode : Decoder F) (force : Bool) (e e' : Engine F) (res : TranscribeResult)
      → transcribe_sliding_window decode force e ≡ Outcome.returns (res, e')
      → e'.ctx ≡ e.ctx
  unfolding transcribe_sliding_window
  ctx-window decode force e e' res h = elim (List-cases e.audio_buffer) [
    | inl silent ↦ ground (arith, silent, h)
    | inr (x, xs, sound) ↦ ground (arith, sound, h)
  ]

  pub ctx-engine :
      (ctx : ℕ) (state : Option ℕ) (e : Engine F)
      → Engine.engine (some ctx) state ≡ Outcome.returns e
      → e.ctx ≡ some ctx
  unfolding Engine.engine
  ctx-engine ctx none e h = absurd (ground (arith, h))
  ctx-engine ctx (some state) e h = ground (arith, h)

  pub ctx-configure : (s : Session F) (x : F) (e : Engine F) → (configure_engine s x e).ctx ≡ e.ctx
  unfolding configure_engine Engine.set_language Engine.set_threads Engine.set_beam_size
      Engine.set_vad_threshold Engine.set_temperature Engine.set_temperature_inc
      Engine.set_no_speech_threshold Engine.set_logprob_threshold Engine.set_initial_prompt
  ctx-configure s x e = ground arith

  pub hold-chunk :
      (audio : List F) (now : ℕ) (s : Session F) → hold (process_audio_chunk audio now s) ≡ hold s
  unfolding process_audio_chunk send_message
  hold-chunk audio now s = elim (Option-cases s.engine) [
    | inl off ↦ ground arith
    | inr (e, on) ↦ ground (arith, ctx-chunk audio e)
  ]

  pub hold-binary :
      (b : List ℕ) (now : ℕ) (s : Session F) → hold (handle_binary_message b now s) ≡ hold s
  unfolding handle_binary_message send_error
  hold-binary b now s =
      let counted : Session F = record s {
        bytes_received_in_window = s.bytes_received_in_window + length b;
      } in
      let renewed : Session F = record s { bytes_received_in_window = 0; rate_limit_start = now } in
      ground (
        arith,
        hold-send (Message.error not_configured_text (codes "NOT_CONFIGURED")) s,
        hold-close (CloseReason.policy_error (codes "Frame too large")) s,
        hold-close (CloseReason.policy_error (codes "Rate limit exceeded")) counted,
        hold-chunk (floats_of b) now counted,
        hold-chunk (floats_of b) now renewed,
      )

  pub hold-finish : (s : Session F) → hold (finish_transcription s) ≡ hold s
  unfolding finish_transcription
  hold-finish s = hold-close _ _ ∙ hold-send _ _

  pub hold-end :
      (env : Surroundings F) (s t : Session F) → handle_end env s ≡ done t → hold t ≡ hold s
  unfolding handle_end
  hold-end env s t h = elim (Option-cases s.engine) [
    | inl off ↦ ground (arith, hold-finish s)
    | inr (e, on) ↦ elim (outcome_cases (transcribe_sliding_window env.decode true e)) [
      | inl (what, bad) ↦ absurd (ground arith)
      | inr (res, e', good) ↦ ground (
        arith,
        ctx-window env.decode true e e' res good,
        hold-finish (record s {
          engine = some e';
          full_transcription = s.full_transcription ++ res.committed_text;
        }),
      )
    ]
  ]

  pub hold-flush :
      (env : Surroundings F) (locked : Bool) (p q : Process F)
      → flush_cycle env locked p ≡ done q
      → (hold q.session ≡ hold p.session) × (q.cache ≡ p.cache)
  unfolding infer absorb report send_message
  hold-flush env locked p q h = elim (flush_cases env locked p) [
    | inl e ↦ ground arith
    | inr (e, on, _, i) ↦ elim (outcome_cases (transcribe_sliding_window env.decode false e)) [
      | inl (what, bad) ↦ ground arith
      | inr (res, e', good) ↦ ground (arith, ctx-window env.decode false e e' res good)
    ]
  ]
