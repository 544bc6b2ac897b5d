-- ===== src/Session/Steps/References.antt =====
-- What a session's steps do to the model that all sessions share.
use transcription_api.Prelude.{
  Text, ℕ, ◌≡◌, refl, sym, ap, ◌∙◌, subst, inl, inr, false, Option, none, some, arith,
}
use transcription_api.Float.{FloatOps}
use transcription_api.ModelCache.{ModelCache}
use transcription_api.Engine.{Decoder}
use transcription_api.Session.State.{
  Session, Process, Surroundings, Handled, done, throws, faults, Json, destroy_session,
}
use transcription_api.Session.Receive.{
  handle_json_message, dispatch, handle_config, handle_end, with_session,
}
use transcription_api.Session.Receive.Protocol.{dispatch_cases, json_cases}
use transcription_api.Session.Steps.{Step, text, text_throws, binary, closed, flush, others}
use transcription_api.Session.Steps.Outcomes.{handle_config-throws, handle_json-throws}
use transcription_api.Session.Steps.Authority.{IsOwn}
use transcription_api.Session.Steps.Holds.{hold, hold-binary, hold-flush}
use transcription_api.Session.Steps.Effects.{quiet, Effect, handle_json-Effect, release-Effect}

module _ {F : Type 0} ⦃fl : FloatOps F⦄ where
  -- What is thrown has left the model alone.
  abbrev pub thrown_cache : Handled (Process F) → Option ModelCache
  thrown_cache (done q) = none
  thrown_cache (throws what q) = some q.cache
  thrown_cache faults = none

  dispatch-thrown :
      (env : Surroundings F) (type : Text) (msg : Json F) (p : Process F) (c : ModelCache)
      → thrown_cache (dispatch env type msg p) ≡ some c
      → c ≡ p.cache
  dispatch-thrown env type msg p c h = elim (dispatch_cases env type msg p) [
    | inl (_, e) ↦ by_config (handle_config env msg p) refl (sym (ap thrown_cache e) ∙ h)
    | inr (inl (_, e)) ↦ absurd (ground (arith, sym (ap thrown_cache e) ∙ h))
    | inr (inr (inl (_, _, e))) ↦ by_end (handle_end env p.session) (sym (ap thrown_cache e) ∙ h)
    | inr (inr (inr (_, e))) ↦ absurd (ground (arith, sym (ap thrown_cache e) ∙ h))
  ]
    where
      by_config :
          (o : Handled (Process F))
          → handle_config env msg p ≡ o
          → thrown_cache o ≡ some c
          → c ≡ p.cache
      by_config (done q) e k = cc
      by_config (throws what q) e k = absurd (handle_config-throws env msg what p q e)
      by_config faults e k = cc

      by_end : (o : Handled (Session F)) → thrown_cache (with_session p o) ≡ some c → c ≡ p.cache
      by_end (done s) k = cc
      by_end (throws what s) k = ground (arith, k)
      by_end faults k = cc

  pub handle_json-thrown :
      (env : Surroundings F) (msg : Option (Json F)) (p : Process F) (c : ModelCache)
      → thrown_cache (handle_json_message env msg p) ≡ some c
      → c ≡ p.cache
  unfolding handle_json_message
  handle_json-thrown env none p c h = cc
  handle_json-thrown env (some msg) p c h = elim (json_cases env msg p) [
    | inl (_, e) ↦ absurd (ground (arith, sym (ap thrown_cache e) ∙ h))
    | inr (inl (type, _, e)) ↦ dispatch-thrown env type msg p c (sym (ap thrown_cache e) ∙ h)
    | inr (inr e) ↦ ground (arith, sym (ap thrown_cache e) ∙ h)
  ]

  -- Every step of a session's own is one of the four.
  pub Step-Effect :
      (decode : Decoder F) (p q : Process F) (s : Step decode p q) → IsOwn s → Effect p q
  Step-Effect decode p q (text env msg d o h) own = handle_json-Effect env msg p q h
  Step-Effect decode p q (text_throws env msg what p' d o h e) own = subst (Effect p) (sym e) (
      release-Effect env.now p p' (handle_json-thrown env msg p p'.cache (ap thrown_cache h))
        (ap hold (handle_json-throws env msg what p p' h)))
  Step-Effect decode p q (binary b now o e) own =
      quiet (ap (λ (x : Process F). x.cache) e)
        (ap (λ (x : Process F). hold x.session) e ∙ hold-binary b now p.session)
  Step-Effect decode p q (closed now e) own =
      subst (Effect p) (sym e) (release-Effect now p p refl refl)
  Step-Effect decode p q (flush env locked d h) own =
      let (same, cache) = hold-flush env locked p q h in quiet cache same
  Step-Effect decode p q (others c l a e) own = absurd own

  pub destroy_session-Effect : (now : ℕ) (p : Process F) → Effect p (destroy_session now p)
  unfolding destroy_session
  destroy_session-Effect now p =
      release-Effect now p (record p { session = record p.session { flush_running = false } }) refl
        refl
