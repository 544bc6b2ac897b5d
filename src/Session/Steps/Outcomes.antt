-- ===== src/Session/Steps/Outcomes.antt =====
-- How a round of the flush thread and a handler can end.
use transcription_api.Prelude.{
  Text, ◌≤◌, ◌≡◌, sym, ◌∙◌, ◌⊎◌, inl, inr, Bool, true, not, ◌&&◌, Option, none, some, arith, ltb,
  Bool-cases, Option-cases, length,
}
use transcription_api.Float.{FloatOps}
use transcription_api.Engine.{Engine, transcribe_sliding_window}
use transcription_api.Session.State.{
  Session, Process, Surroundings, Handled, done, throws, faults, Json,
}
use transcription_api.Session.Receive.{
  handle_json_message, dispatch, handle_config, handle_end, with_session,
}
use transcription_api.Session.Receive.Protocol.{authenticate_cases, dispatch_cases, json_cases}
use transcription_api.Session.Flush.{infer, flush_cycle, wants_inference, min_buffer_samples}
use transcription_api.Session.Steps.Sizes.{outcome_cases}

module _ {F : Type 0} ⦃fl : FloatOps F⦄ where
  -- A cycle does nothing, or decodes a buffer of 2 s or more.
  pub flush_cases :
      (env : Surroundings F) (locked : Bool) (p : Process F)
      → (flush_cycle env locked p ≡ done p)
        ⊎ ((e : Engine F) × (p.session.engine ≡ some e)
            × (min_buffer_samples ≤ length e.audio_buffer)
            × (flush_cycle env locked p ≡ infer env e p))
  unfolding flush_cycle
  flush_cases env locked p = elim (Option-cases p.session.engine) [
    | inl off ↦ inl (ground arith)
    | inr (e, on) ↦
        elim (Bool-cases (
          locked
          && p.session.configured
          && not (ltb (length e.audio_buffer) min_buffer_samples)
          && wants_inference env.now (length e.audio_buffer) p.session)) [
            | inl run ↦ inr (e, on, ground arith, ground arith)
            | inr skip ↦ inl (ground arith)
          ]
  ]

  pub with_session-done :
      (p q : Process F) (o : Handled (Session F)) → with_session p o ≡ done q → o ≡ done q.session
  with_session-done p q (done s) h = ground arith
  with_session-done p q (throws what s) h = cc
  with_session-done p q faults h = cc

  with_session-throws :
      (p q : Process F) (what : Text) (o : Handled (Session F))
      → with_session p o ≡ throws what q
      → o ≡ throws what q.session
  with_session-throws p q what (done s) h = cc
  with_session-throws p q what (throws w s) h = ground arith
  with_session-throws p q what faults h = cc

  handle_end-throws :
      (env : Surroundings F) (what : Text) (s t : Session F)
      → handle_end env s ≡ throws what t
      → t ≡ s
  unfolding handle_end
  handle_end-throws env what s t h = elim (Option-cases s.engine) [
    | inl off ↦ absurd (ground arith)
    | inr (e, on) ↦ elim (outcome_cases (transcribe_sliding_window env.decode true e)) [
      | inl (w, bad) ↦ ground arith
      | inr (res, e', good) ↦ absurd (ground arith)
    ]
  ]

  pub handle_config-throws :
      (env : Surroundings F) (msg : Json F) (what : Text) (p q : Process F)
      → ¬ (handle_config env msg p ≡ throws what q)
  unfolding handle_config
  handle_config-throws env msg what p q h = elim (authenticate_cases env msg p) [
    | inl (auth', e, _) ↦ ground arith
    | inr (inl (a, b, auth', e)) ↦ ground arith
    | inr (inr e) ↦ ground arith
  ]

  dispatch-throws :
      (env : Surroundings F) (type : Text) (msg : Json F) (what : Text) (p q : Process F)
      → dispatch env type msg p ≡ throws what q
      → q.session ≡ p.session
  dispatch-throws env type msg what p q h = elim (dispatch_cases env type msg p) [
    | inl (_, e) ↦ absurd (handle_config-throws env msg what p q (sym e ∙ h))
    | inr (inl (_, e)) ↦ absurd (ground arith)
    | inr (inr (inl (_, _, e))) ↦
        handle_end-throws env what p.session q.session
          (with_session-throws p q what (handle_end env p.session) (sym e ∙ h))
    | inr (inr (inr (_, e))) ↦ absurd (ground arith)
  ]

  -- An exception leaves the session as it was.
  pub handle_json-throws :
      (env : Surroundings F) (msg : Option (Json F)) (what : Text) (p q : Process F)
      → handle_json_message env msg p ≡ throws what q
      → q.session ≡ p.session
  unfolding handle_json_message
  handle_json-throws env none what p q h = cc
  handle_json-throws env (some msg) what p q h = elim (json_cases env msg p) [
    | inl (_, e) ↦ absurd (ground arith)
    | inr (inl (type, _, e)) ↦ dispatch-throws env type msg what p q (sym e ∙ h)
    | inr (inr thrown) ↦ ground arith
  ]
