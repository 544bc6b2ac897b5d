-- ===== src/Session/Steps/Effects.antt =====
-- What a session's handlers do to the model that all sessions share.
use transcription_api.Prelude.{
  Text, codes, ℕ, ◌≡◌, refl, sym, ap, ◌∙◌, subst, ◌⊎◌, inl, inr, true, false, Option, none, some,
  arith, Bool-cases, Option-cases,
}
use transcription_api.Float.{FloatOps}
use transcription_api.ModelCache
use transcription_api.ModelCache.{ModelCache, Loader}
use transcription_api.Session.State.{
  Session, Process, Surroundings, Handled, done, throws, faults, Json, Field, string, number, other,
  field, release_model, send_message, send_error, send_ready,
}
use transcription_api.Session.Receive.{
  handle_json_message, handle_config, handle_end, with_session, refuse, configure_session,
  load_engine, install_engine, config_error, vad_threshold,
}
use transcription_api.Session.Receive.Protocol.{
  dispatch_cases, json_cases, authenticate_cases, replied,
}
use transcription_api.Session.Steps.Outcomes.{with_session-done}
use transcription_api.Session.Steps.Sizes.{engine_cases}
use transcription_api.Session.Steps.Holds.{
  engine_ctx, ctx-engine, ctx-configure, hold, hold-send, hold-close, hold-end,
}

module _ {F : Type 0} ⦃fl : FloatOps F⦄ where
  -- What a step may do: nothing to the model; a reference that is granted or refused; a release.
  pub data Effect (p q : Process F) : Type 0 where
    quiet : q.cache ≡ p.cache → hold q.session ≡ hold p.session → Effect p q
    grants :
        (init : Loader) (h : ℕ)
        → ModelCache.acquire init p.session.model_path true p.cache ≡ (some h, q.cache)
        → q.session.model_path ≡ p.session.model_path
        → q.session.model_acquired ≡ true
        → (engine_ctx q.session.engine ≡ some (some h))
          ⊎ (engine_ctx q.session.engine ≡ engine_ctx p.session.engine)
        → Effect p q
    refuses :
        (init : Loader)
        → ModelCache.acquire init p.session.model_path true p.cache ≡ (none, q.cache)
        → hold q.session ≡ hold p.session
        → Effect p q
    gives_back :
        (now : ℕ)
        → p.session.model_acquired ≡ true
        → q.cache ≡ ModelCache.release now p.cache
        → hold q.session ≡ (p.session.model_path, false, none)
        → Effect p q

  pub install_engine-Effect :
      (env : Surroundings F) (h : ℕ) (vad : F) (p : Process F)
      → let q = install_engine env h vad p in
        (q.cache ≡ p.cache)
        × (q.session.model_path ≡ p.session.model_path)
        × (q.session.model_acquired ≡ true)
        × ((engine_ctx q.session.engine ≡ some (some h))
            ⊎ (engine_ctx q.session.engine ≡ engine_ctx p.session.engine))
  unfolding install_engine config_error send_error send_ready send_message
  install_engine-Effect env h vad p = elim (engine_cases env h) [
    | inl (what, bad) ↦
        (ground (arith, bad), ground (arith, bad), ground (arith, bad), inr (ground (arith, bad)))
    | inr (e, empty, good) ↦
        let of_ctx = ctx-engine h (env.init_state h) e good in
        let s : Session F = record p.session { model_acquired = true } in
        (
          ground (arith, good),
          ground (arith, good),
          ground (arith, good),
          inl (ground (arith, good, of_ctx, ctx-configure s vad e)),
        )
  ]

  pub load_engine-Effect :
      (env : Surroundings F) (vad : F) (p : Process F) → Effect p (load_engine env vad p)
  unfolding load_engine config_error send_error send_message
  load_engine-Effect env vad p =
      let (ctx, cache) = ModelCache.acquire env.init p.session.model_path true p.cache in
      elim (Option-cases ctx) [
        | inl e ↦ refuses env.init (ground (arith, e)) (ground (arith, e))
        | inr (h, e) ↦
            let (same, path, held, decodes) =
              install_engine-Effect env h vad (record p { cache = cache }) in
            let q = install_engine env h vad (record p { cache = cache }) in
            let is : q ≡ load_engine env vad p = ground (arith, e) in
            subst (Effect p) is (grants env.init h (ground (arith, e, same)) path held decodes)
      ]

  pub acquire_from :
      (p p' : Process F) (init : Loader)
      → p'.cache ≡ p.cache
      → hold p'.session ≡ hold p.session
      → ModelCache.acquire init p.session.model_path true p.cache
        ≡ ModelCache.acquire init p'.session.model_path true p'.cache
  acquire_from p p' init cache same =
      ap (λ (c : ModelCache). ModelCache.acquire init p.session.model_path true c) (sym cache)
      ∙ ap (λ x. ModelCache.acquire init x.0 true p'.cache) (sym same)

  -- The same effect from another session before, which holds the same.
  pub Effect-from :
      (p p' q : Process F)
      → p'.cache ≡ p.cache
      → hold p'.session ≡ hold p.session
      → Effect p' q
      → Effect p q
  Effect-from p p' q cache same (quiet a b) = quiet (a ∙ cache) (b ∙ same)
  Effect-from p p' q cache same (grants init h a b c d) =
      grants init h (acquire_from p p' init cache same ∙ a) (b ∙ ap (λ x. x.0) same) c
        (elim d [ inl new ↦ inl new | inr old ↦ inr (old ∙ ap (λ x. x.2) same) ])
  Effect-from p p' q cache same (refuses init a b) =
      refuses init (acquire_from p p' init cache same ∙ a) (b ∙ same)
  Effect-from p p' q cache same (gives_back now a b c) =
      gives_back now (sym (ap (λ x. x.1) same) ∙ a) (b ∙ ap (ModelCache.release now) cache)
        (c ∙ ap (λ x. (x.0, false, none)) same)

  pub configure_session-Effect :
      (env : Surroundings F) (msg : Json F) (p : Process F) → Effect p (configure_session env msg p)
  unfolding configure_session config_error send_error
  configure_session-Effect env msg p = by_field (field (codes "language") msg) refl
    where
      vad : F
      vad = vad_threshold (field (codes "vad_thold") msg)

      by_field :
          (o : Option (Field F))
          → field (codes "language") msg ≡ o
          → Effect p (configure_session env msg p)
      by_field none e = rw (e, configure_session) (load_engine-Effect env vad p)
      by_field (some (number x)) e = rw (e, configure_session) (quiet refl (hold-send _ _))
      by_field (some other) e = rw (e, configure_session) (quiet refl (hold-send _ _))
      by_field (some (string language)) e =
          let p' : Process F = record p { session = record p.session { language = language } } in
          rw (e, configure_session) (Effect-from p p' _ refl refl (load_engine-Effect env vad p'))

  pub handle_config-Effect :
      (env : Surroundings F) (msg : Json F) (p q : Process F)
      → handle_config env msg p ≡ done q
      → Effect p q
  unfolding handle_config refuse send_error
  handle_config-Effect env msg p q h = elim (authenticate_cases env msg p) [
    | inl (auth', e, _) ↦
        let p' : Process F = record p { auth = auth' } in
        let is : configure_session env msg p' ≡ q = ground arith in
        subst (Effect p) is (Effect-from p p' _ refl refl (configure_session-Effect env msg p'))
    | inr (inl (a, b, auth', e)) ↦
        let is : refuse a b (record p { auth = auth' }) ≡ q = ground arith in
        subst (Effect p) is (quiet refl (hold-close _ _ ∙ hold-send _ _))
    | inr (inr e) ↦ absurd (ground arith)
  ]

  pub with_session-cache :
      (p q : Process F) (o : Handled (Session F)) → with_session p o ≡ done q → q.cache ≡ p.cache
  with_session-cache p q (done s) h = ground (arith, h)
  with_session-cache p q (throws what s) h = cc
  with_session-cache p q faults h = cc

  pub with_session-Effect :
      (env : Surroundings F) (p q : Process F)
      → with_session p (handle_end env p.session) ≡ done q
      → Effect p q
  with_session-Effect env p q h =
      quiet (with_session-cache p q (handle_end env p.session) h)
        (hold-end env p.session q.session (with_session-done p q (handle_end env p.session) h))

  pub replied-Effect : (p q : Process F) (a b : Text) → replied p a b ≡ done q → Effect p q
  unfolding send_error
  replied-Effect p q a b h =
      let is : record p { session = send_error a b p.session } ≡ q = ground (arith, h) in
      subst (Effect p) is (quiet refl (hold-send _ _))

  pub handle_json-Effect :
      (env : Surroundings F) (msg : Option (Json F)) (p q : Process F)
      → handle_json_message env msg p ≡ done q
      → Effect p q
  unfolding handle_json_message
  handle_json-Effect env none p q h = replied-Effect p q _ _ h
  handle_json-Effect env (some msg) p q h = elim (json_cases env msg p) [
    | inl (_, e) ↦ replied-Effect p q _ _ (sym e ∙ h)
    | inr (inl (type, _, e)) ↦ elim (dispatch_cases env type msg p) [
      | inl (_, d) ↦ handle_config-Effect env msg p q (sym d ∙ sym e ∙ h)
      | inr (inl (_, d)) ↦ replied-Effect p q _ _ (sym d ∙ sym e ∙ h)
      | inr (inr (inl (_, _, d))) ↦ with_session-Effect env p q (sym d ∙ sym e ∙ h)
      | inr (inr (inr (_, d))) ↦ replied-Effect p q _ _ (sym d ∙ sym e ∙ h)
    ]
    | inr (inr e) ↦ absurd (ground arith)
  ]

  -- A release after a session that holds the same, and after nothing else.
  pub release-Effect :
      (now : ℕ) (p p' : Process F)
      → p'.cache ≡ p.cache
      → hold p'.session ≡ hold p.session
      → Effect p (release_model now p')
  unfolding release_model
  release-Effect now p p' cache same =
      let freed : Process F = record p' {
        session = record p'.session { engine = none; model_acquired = false };
        cache = ModelCache.release now p'.cache;
      } in
      elim (Bool-cases p'.session.model_acquired) [
        | inl held ↦
            let is : freed ≡ release_model now p' = ground (arith, held) in
            subst (Effect p) is (Effect-from p p' freed cache same (gives_back now held refl refl))
        | inr free ↦
            let is : p' ≡ release_model now p' = ground (arith, free) in
            subst (Effect p) is (quiet cache same)
      ]
