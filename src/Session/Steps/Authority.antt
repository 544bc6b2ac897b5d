-- ===== src/Session/Steps/Authority.antt =====
-- What a session's steps leave of the authentication.
use transcription_api.Prelude.{
  Text, codes, ℕ, ◌≡◌, refl, sym, ap, ◌∙◌, ◌≢◌, inl, inr, Bool, true, false, Option, none, some, [],
  arith, Option-cases,
}
use transcription_api.Float.{FloatOps}
use transcription_api.ModelCache
use transcription_api.Engine.{Decoder, transcribe_sliding_window}
use transcription_api.Auth.{AuthManager, ApiAuthConfig, AuthResult, validate}
use transcription_api.Session.State.{
  Session, Process, Surroundings, Handled, done, throws, faults, Json, Field, string, number, other,
  field, release_model,
}
use transcription_api.Session.Receive.{
  authenticate, handle_json_message, dispatch, handle_config, handle_end, with_session, refuse,
  configure_session, load_engine, install_engine, config_error, vad_threshold,
}
use transcription_api.Session.Receive.Protocol.{dispatch_cases, json_cases}
use transcription_api.Session.Flush.{infer, flush_cycle}
use transcription_api.Session.Steps.{Step, text, text_throws, binary, closed, flush, others}
use transcription_api.Session.Steps.Outcomes.{flush_cases, handle_config-throws}
use transcription_api.Session.Steps.Sizes.{outcome_cases, engine_cases}

-- No call changes the manager.
abbrev pub Steady : AuthManager → Type 0
Steady m =
    (ask : ApiAuthConfig → Text → AuthResult) (token : Text) (now answered : ℕ) (r : Bool)
    (m' : AuthManager)
    → validate ask token now answered m ≡ some (r, m')
    → m' ≡ m

-- A manager with a static token, or with nothing to authenticate by, is never changed.
pub static_Steady : (m : AuthManager) → m.static_token ≢ [] → Steady m
unfolding validate
static_Steady m st ask token now answered r m' h = ground (arith, h, st)

module _ {F : Type 0} ⦃fl : FloatOps F⦄ where
  authenticate-auth :
      (env : Surroundings F) (msg : Json F) (p q : Process F) (b : Bool)
      → Steady p.auth
      → authenticate env msg p ≡ done (b, q)
      → q.auth ≡ p.auth
  unfolding authenticate refuse
  authenticate-auth env msg p q b steady h = by_field (field (codes "token") msg) refl
    where
      by_field : (o : Option (Field F)) → field (codes "token") msg ≡ o → q.auth ≡ p.auth
      by_field none e = ground arith
      by_field (some (number x)) e = ground arith
      by_field (some other) e = ground arith
      by_field (some (string token)) e =
          elim (Option-cases (validate env.ask token env.now env.answered p.auth)) [
            | inl fault ↦ ground arith
            | inr ((r, a), ok) ↦ ground (arith, steady env.ask token env.now env.answered r a ok)
          ]

  install_engine-auth :
      (env : Surroundings F) (ctx : ℕ) (vad : F) (p : Process F)
      → (install_engine env ctx vad p).auth ≡ p.auth
  unfolding install_engine config_error
  install_engine-auth env ctx vad p = elim (engine_cases env ctx) [
    | inl (what, bad) ↦ ground (arith, bad)
    | inr (e, empty, good) ↦ ground (arith, good)
  ]

  load_engine-auth :
      (env : Surroundings F) (vad : F) (p : Process F) → (load_engine env vad p).auth ≡ p.auth
  unfolding load_engine config_error
  load_engine-auth env vad p =
      elim (Option-cases (ModelCache.acquire env.init p.session.model_path true p.cache).0) [
        | inl e ↦ ground (arith, e)
        | inr (h, e) ↦ ground (
          arith,
          e,
          install_engine-auth env h vad (record p {
            cache = (ModelCache.acquire env.init p.session.model_path true p.cache).1;
          }),
        )
      ]

  pub configure_session-auth :
      (env : Surroundings F) (msg : Json F) (p : Process F)
      → (configure_session env msg p).auth ≡ p.auth
  unfolding configure_session config_error
  configure_session-auth env msg p = by_field (field (codes "language") msg) refl
    where
      vad : F
      vad = vad_threshold (field (codes "vad_thold") msg)

      by_field :
          (o : Option (Field F))
          → field (codes "language") msg ≡ o
          → (configure_session env msg p).auth ≡ p.auth
      by_field none e = ground (arith, load_engine-auth env vad p)
      by_field (some (number x)) e = ground arith
      by_field (some other) e = ground arith
      by_field (some (string language)) e = ground (
        arith,
        load_engine-auth env vad (record p { session = record p.session { language = language } }),
      )

  handle_config-auth :
      (env : Surroundings F) (msg : Json F) (p q : Process F)
      → Steady p.auth
      → handle_config env msg p ≡ done q
      → q.auth ≡ p.auth
  unfolding handle_config
  handle_config-auth env msg p q steady h = by_end (authenticate env msg p) refl
    where
      by_end : (o : Handled (Bool × Process F)) → authenticate env msg p ≡ o → q.auth ≡ p.auth
      by_end (done (go_on, p')) e =
          ground (
            arith,
            configure_session-auth env msg p',
            authenticate-auth env msg p p' go_on steady e,
          )
      by_end (throws what (go_on, p')) e = absurd (ground arith)
      by_end faults e = absurd (ground arith)

  -- The manager behind a handler that ends or throws.
  abbrev pub manager : Handled (Process F) → Option AuthManager
  manager (done q) = some q.auth
  manager (throws what q) = some q.auth
  manager faults = none

  with_session-manager :
      (p : Process F) (o : Handled (Session F)) (a : AuthManager)
      → manager (with_session p o) ≡ some a
      → a ≡ p.auth
  with_session-manager p (done s) a h = ground (arith, h)
  with_session-manager p (throws what s) a h = ground (arith, h)
  with_session-manager p faults a h = cc

  handle_config-manager :
      (env : Surroundings F) (msg : Json F) (p : Process F) (a : AuthManager)
      → Steady p.auth
      → manager (handle_config env msg p) ≡ some a
      → a ≡ p.auth
  handle_config-manager env msg p a steady h = by_end (handle_config env msg p) refl
    where
      by_end : (o : Handled (Process F)) → handle_config env msg p ≡ o → a ≡ p.auth
      by_end (done q) e = ground (arith, h, handle_config-auth env msg p q steady e)
      by_end (throws what q) e = absurd (handle_config-throws env msg what p q e)
      by_end faults e = ground (arith, h)

  dispatch-manager :
      (env : Surroundings F) (type : Text) (msg : Json F) (p : Process F) (a : AuthManager)
      → Steady p.auth
      → manager (dispatch env type msg p) ≡ some a
      → a ≡ p.auth
  dispatch-manager env type msg p a steady h = elim (dispatch_cases env type msg p) [
    | inl (_, e) ↦ handle_config-manager env msg p a steady (sym (ap manager e) ∙ h)
    | inr (inl (_, e)) ↦ ground (arith, sym (ap manager e) ∙ h)
    | inr (inr (inl (_, _, e))) ↦
        with_session-manager p (handle_end env p.session) a (sym (ap manager e) ∙ h)
    | inr (inr (inr (_, e))) ↦ ground (arith, sym (ap manager e) ∙ h)
  ]

  handle_json-manager :
      (env : Surroundings F) (msg : Option (Json F)) (p : Process F) (a : AuthManager)
      → Steady p.auth
      → manager (handle_json_message env msg p) ≡ some a
      → a ≡ p.auth
  unfolding handle_json_message
  handle_json-manager env none p a steady h = ground (arith, h)
  handle_json-manager env (some msg) p a steady h = elim (json_cases env msg p) [
    | inl (_, e) ↦ ground (arith, sym (ap manager e) ∙ h)
    | inr (inl (type, _, e)) ↦ dispatch-manager env type msg p a steady (sym (ap manager e) ∙ h)
    | inr (inr e) ↦ ground (arith, sym (ap manager e) ∙ h)
  ]

  pub release_model-auth : (now : ℕ) (p : Process F) → (release_model now p).auth ≡ p.auth
  unfolding release_model
  release_model-auth now p = ground arith

  pub flush-auth :
      (env : Surroundings F) (locked : Bool) (p q : Process F)
      → flush_cycle env locked p ≡ done q
      → q.auth ≡ p.auth
  unfolding infer
  flush-auth env locked p q h = elim (flush_cases env locked p) [
    | inl e ↦ ground (arith, h, e)
    | inr (e, _, _, i) ↦ elim (outcome_cases (transcribe_sliding_window env.decode false e)) [
      | inl (what, bad) ↦ ground arith
      | inr (res, e', good) ↦ ground arith
    ]
  ]

  -- A step that the session makes itself.
  abbrev pub IsOwn : {decode : Decoder F} {p q : Process F} → Step decode p q → Type 0
  IsOwn (others c l a e) = ⊥
  IsOwn _ = Unit

  -- No step of a session's own changes a steady manager.
  pub Step-auth :
      (decode : Decoder F) (p q : Process F) (s : Step decode p q)
      → IsOwn s
      → Steady p.auth
      → q.auth ≡ p.auth
  Step-auth decode p q (text env msg d o h) own steady =
      handle_json-manager env msg p q.auth steady (ap manager h)
  Step-auth decode p q (text_throws env msg what p' d o h e) own steady =
      ap (λ (x : Process F). x.auth) e
      ∙ release_model-auth env.now p'
      ∙ handle_json-manager env msg p p'.auth steady (ap manager h)
  Step-auth decode p q (binary b now o e) own steady = ap (λ (x : Process F). x.auth) e
  Step-auth decode p q (closed now e) own steady =
      ap (λ (x : Process F). x.auth) e ∙ release_model-auth now p
  Step-auth decode p q (flush env locked d h) own steady = flush-auth env locked p q h
  Step-auth decode p q (others c l a e) own steady = absurd own
