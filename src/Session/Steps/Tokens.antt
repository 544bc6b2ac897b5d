-- ===== src/Session/Steps/Tokens.antt =====
-- A session of a server with a static token.
use transcription_api.Prelude.{
  Text, codes, Text_discrete, ℕ, ◌≡◌, sym, ap, ◌∙◌, ◌≢◌, inl, inr, true, false, none, some, [],
  arith,
}
use transcription_api.Float.{FloatOps}
use transcription_api.Engine.{Decoder}
use transcription_api.Auth.{
  ApiAuthConfig, AuthResult, AuthManager, auth_manager, validate, is_auth_enabled,
}
use transcription_api.Auth.Compare.{IsBytes}
use transcription_api.Auth.Decisions.{validate_static}
use transcription_api.Session.State.{Process, Surroundings, Json, string, field}
use transcription_api.Session.Receive.Protocol.{Admitted}
use transcription_api.Session.Steps.{Step, text, text_throws, binary, closed, flush, others}
use transcription_api.Session.Steps.Access.{LetIn, configured_needs_auth}

-- Without authentication no token is refused.
open_to_all :
    (ask : ApiAuthConfig → Text → AuthResult) (token : Text) (now later : ℕ) (m : AuthManager)
    → is_auth_enabled m ≡ false
    → ¬ (validate ask token now later m ≡ some (false, m))
unfolding validate is_auth_enabled
open_to_all ask token now later m off h = ground (arith, off, h)

not_both :
    (ask : ApiAuthConfig → Text → AuthResult) (token : Text) (now later : ℕ) (m : AuthManager)
    {m' : AuthManager}
    → validate ask token now later m ≡ some (false, m)
    → ¬ (validate ask token now later m ≡ some (true, m'))
not_both ask token now later m refused accepted = cc

-- A message has a token that is v, if it is bytes.
abbrev Carries : {F : Type 0} → Text → Json F → Type 0
Carries v msg =
    (token : Text) × (field (codes "token") msg ≡ some (string token)) × (IsBytes token → token ≡ v)

module _ {F : Type 0} ⦃fl : FloatOps F⦄ where
  -- The step is the handling of a message that carries v.
  abbrev pub OpensWith : {decode : Decoder F} {p q : Process F} → Text → Step decode p q → Type 0
  OpensWith v (text env (some msg) d o h) = Carries v msg
  OpensWith v (text env none d o h) = ⊥
  OpensWith v (text_throws env msg what p' d o h e) = ⊥
  OpensWith v (binary b now o e) = ⊥
  OpensWith v (closed now e) = ⊥
  OpensWith v (flush env locked d h) = ⊥
  OpensWith v (others c l a e) = ⊥

  LetIn-Carries :
      (config : ApiAuthConfig) (env : Surroundings F) (msg : Json F) (auth auth' : AuthManager)
      → config.static_token ≢ []
      → IsBytes config.static_token
      → auth ≡ auth_manager config
      → Admitted env msg auth auth'
      → Carries config.static_token msg
  LetIn-Carries config env msg auth auth' full bytes same admitted =
      let only =
        λ (token : Text). validate_static env.ask config token env.now env.answered full bytes in
      elim admitted [
        | inl (off, _) ↦ absurd (
            open_to_all env.ask [] env.now env.answered (auth_manager config)
              (ap is_auth_enabled (sym same) ∙ off) ((only [] tt).1 (λ e. full (sym e))))
        | inr (token, has, valid) ↦ (
          token,
          has,
          λ is_text. elim (Text_discrete token config.static_token) [
            | yes is_v ↦ is_v
            | no differs ↦ absurd (
                not_both env.ask token env.now env.answered (auth_manager config)
                  ((only token is_text).1 differs)
                  (ap (validate env.ask token env.now env.answered) (sym same) ∙ valid))
          ],
        )
      ]

  pub static_token_opens :
      (config : ApiAuthConfig) (decode : Decoder F) (p q : Process F) (step : Step decode p q)
      → config.static_token ≢ []
      → IsBytes config.static_token
      → p.auth ≡ auth_manager config
      → p.session.configured ≡ false
      → q.session.configured ≡ true
      → OpensWith config.static_token step
  static_token_opens config decode p q step full bytes same before after =
      by_step step (configured_needs_auth decode p q step before after)
    where
      by_step : (step : Step decode p q) → LetIn step → OpensWith config.static_token step
      by_step (text env (some msg) d o h) (type, auth', typed, is_config, admitted) =
          LetIn-Carries config env msg p.auth auth' full bytes same admitted
      by_step (text env none d o h) x = x
      by_step (text_throws env msg what p' d o h e) x = x
      by_step (binary b now o e) x = x
      by_step (closed now e) x = x
      by_step (flush env locked d h) x = x
      by_step (others c l a e) x = x
