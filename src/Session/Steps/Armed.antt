-- ===== src/Session/Steps/Armed.antt =====
-- Whether a handler can call the authentication API through a null pointer.
use transcription_api.Prelude.{
  Text, codes, is_empty, ℕ, ◌≡◌, refl, sym, ap, ◌∙◌, subst, inl, inr, Bool, true, false, not, ◌||◌,
  Option, none, some, arith, if◌then◌else◌, Bool-cases, Option-cases,
}
use transcription_api.Float.{FloatOps}
use transcription_api.Engine.{transcribe_sliding_window}
use transcription_api.Auth.{
  AuthManager, ApiAuthConfig, AuthResult, allowed, denied, api_unavailable, validate,
  is_auth_enabled, auth_manager, get, remember,
}
use transcription_api.Auth.Compare.{constant_time_equal}
use transcription_api.Session.State.{
  Session, Process, Surroundings, Handled, done, throws, faults, Json, Field, string, number, other,
  field,
}
use transcription_api.Session.Receive.{
  authenticate, handle_json_message, handle_config, handle_end, with_session, refuse,
  configure_session,
}
use transcription_api.Session.Receive.Protocol.{dispatch_cases, json_cases}
use transcription_api.Session.Steps.Sizes.{outcome_cases}
use transcription_api.Session.Steps.Authority.{configure_session-auth}

abbrev has_client : Option ApiAuthConfig → Bool
has_client none = false
has_client (some c) = true

-- There is a client of the API wherever one is called.
abbrev pub is_armed : AuthManager → Bool
is_armed m = not m.auth_enabled || not (is_empty m.static_token) || has_client m.api_client

pub auth_manager_armed : (config : ApiAuthConfig) → is_armed (auth_manager config) ≡ true
unfolding auth_manager
auth_manager_armed config = elim (Bool-cases (is_empty config.api_base_url)) [
  | inl without ↦ ground (arith, without)
  | inr has_url ↦ ground (arith, has_url)
]

remember_armed :
    (token : Text) (now : ℕ) (r : AuthResult) (m : AuthManager)
    → is_armed (remember token now r m).1 ≡ is_armed m
unfolding remember
remember_armed token now allowed m = refl
remember_armed token now denied m = refl
remember_armed token now api_unavailable m = refl

-- A manager that is armed answers, and stays armed.
pub validate_armed :
    (ask : ApiAuthConfig → Text → AuthResult) (token : Text) (now later : ℕ) (m : AuthManager)
    → is_armed m ≡ true
    → (r : Bool) × (m' : AuthManager) × (validate ask token now later m ≡ some (r, m'))
      × (is_armed m' ≡ true)
unfolding validate
validate_armed ask token now later m armed =
    let (cached, entries) = get token now m.cache in
    elim (Bool-cases m.auth_enabled) [
      | inr off ↦ (true, m, ground (arith, off), armed)
      | inl on ↦ elim (Bool-cases (is_empty m.static_token)) [
        | inr static ↦
            (constant_time_equal token m.static_token, m, ground (arith, on, static), armed)
        | inl none_set ↦ elim (Option-cases cached) [
          | inr (v, hit) ↦
              (v, record m { cache = entries }, ground (arith, on, none_set, hit), armed)
          | inl miss ↦ elim (Option-cases m.api_client) [
            | inl null ↦ absurd (ground (arith, armed, on, none_set, null))
            | inr (c, client) ↦
                let told = remember token later (ask c token) (record m { cache = entries }) in
                (
                  told.0,
                  told.1,
                  ground (arith, on, none_set, miss, client),
                  remember_armed token later (ask c token) (record m { cache = entries }) ∙ armed,
                )
          ]
        ]
      ]
    ]

-- What is known of the manager behind a handler: it is armed, and there was no fault.
abbrev pub Safe : {F : Type 0} → Handled (Process F) → Type 0
Safe (done q) = is_armed q.auth ≡ true
Safe (throws what q) = is_armed q.auth ≡ true
Safe faults = ⊥

module _ {F : Type 0} ⦃fl : FloatOps F⦄ where
  abbrev SafeAnswer : Handled (Bool × Process F) → Type 0
  SafeAnswer (done (b, q)) = is_armed q.auth ≡ true
  SafeAnswer (throws what (b, q)) = is_armed q.auth ≡ true
  SafeAnswer faults = ⊥

  authenticate-SafeAnswer :
      (env : Surroundings F) (msg : Json F) (p : Process F)
      → is_armed p.auth ≡ true
      → SafeAnswer (authenticate env msg p)
  unfolding authenticate refuse
  authenticate-SafeAnswer env msg p armed = elim (Bool-cases (is_auth_enabled p.auth)) [
    | inr off ↦
        let is : done (true, p) ≡ authenticate env msg p = ground (arith, off) in
        subst SafeAnswer is armed
    | inl on ↦ by_field on (field (codes "token") msg) refl
  ]
    where
      missing :
          done (false, refuse (codes "Missing or invalid 'token'") (codes "AUTH_REQUIRED") p)
            ≡ authenticate env msg p
          → SafeAnswer (authenticate env msg p)
      missing is = subst SafeAnswer is armed

      by_field :
          is_auth_enabled p.auth ≡ true
          → (o : Option (Field F)) → field (codes "token") msg ≡ o
          → SafeAnswer (authenticate env msg p)
      by_field on none e = missing (ground (arith, on, e))
      by_field on (some (number x)) e = missing (ground (arith, on, e))
      by_field on (some other) e = missing (ground (arith, on, e))
      by_field on (some (string token)) e =
          let (r, m', valid, armed') =
            validate_armed env.ask token env.now env.answered p.auth armed in
          elim (Bool-cases r) [
            | inl good ↦
                let is : done (true, record p { auth = m' }) ≡ authenticate env msg p =
                  ground (arith, on, e, valid, good) in
                subst SafeAnswer is armed'
            | inr bad ↦
                let is : done (
                  false,
                  refuse (codes "Invalid token") (codes "AUTH_FAILED") (record p { auth = m' }),
                )
                    ≡ authenticate env msg p =
                  ground (arith, on, e, valid, bad) in
                subst SafeAnswer is armed'
          ]

  handle_config-Safe :
      (env : Surroundings F) (msg : Json F) (p : Process F)
      → is_armed p.auth ≡ true
      → Safe (handle_config env msg p)
  unfolding handle_config
  handle_config-Safe env msg p armed =
      by_end (authenticate env msg p) (authenticate-SafeAnswer env msg p armed)
    where
      by_end :
          (o : Handled (Bool × Process F))
          → SafeAnswer o
          → Safe (elim o [
            | done (go_on, p') ↦ done (if go_on then configure_session env msg p' else p')
            | throws what (go_on, p') ↦ throws what p'
            | faults ↦ faults
          ])
      by_end (done (true, p')) a = ap is_armed (configure_session-auth env msg p') ∙ a
      by_end (done (false, p')) a = a
      by_end (throws what (go_on, p')) a = a
      by_end faults a = a

  with_session-Safe :
      (p : Process F) (o : Handled (Session F))
      → ¬ (o ≡ faults)
      → is_armed p.auth ≡ true
      → Safe (with_session p o)
  with_session-Safe p (done s) never armed = armed
  with_session-Safe p (throws what s) never armed = armed
  with_session-Safe p faults never armed = absurd (never refl)

  handle_end-faults : (env : Surroundings F) (s : Session F) → ¬ (handle_end env s ≡ faults)
  unfolding handle_end
  handle_end-faults env s h = elim (Option-cases s.engine) [
    | inl off ↦ ground (arith, h, off)
    | inr (e, on) ↦ elim (outcome_cases (transcribe_sliding_window env.decode true e)) [
      | inl (what, bad) ↦ ground (arith, h, on, bad)
      | inr (res, e', good) ↦ ground (arith, h, on, good)
    ]
  ]

  -- No text message makes a session with an armed manager fault, and the manager stays armed.
  pub handle_json-Safe :
      (env : Surroundings F) (msg : Option (Json F)) (p : Process F)
      → is_armed p.auth ≡ true
      → Safe (handle_json_message env msg p)
  unfolding handle_json_message
  handle_json-Safe env none p armed = armed
  handle_json-Safe env (some msg) p armed = elim (json_cases env msg p) [
    | inl (_, e) ↦ subst Safe (sym e) armed
    | inr (inl (type, _, e)) ↦ elim (dispatch_cases env type msg p) [
      | inl (_, d) ↦ subst Safe (sym (e ∙ d)) (handle_config-Safe env msg p armed)
      | inr (inl (_, d)) ↦ subst Safe (sym (e ∙ d)) armed
      | inr (inr (inl (_, _, d))) ↦
          subst Safe (sym (e ∙ d))
            (with_session-Safe p (handle_end env p.session) (handle_end-faults env p.session) armed)
      | inr (inr (inr (_, d))) ↦ subst Safe (sym (e ∙ d)) armed
    ]
    | inr (inr e) ↦ subst Safe (sym e) armed
  ]
