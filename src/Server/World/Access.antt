-- ===== src/Server/World/Access.antt =====
-- The authentication of the running server.
use transcription_api.Prelude.{
  Text, ℕ, ◌≡◌, refl, sym, ap, ◌∙◌, subst, ◌≢◌, true, false, Option, some, [], arith, All,
}
use transcription_api.Prelude.Dict.{Dict}
use transcription_api.Float.{FloatOps}
use transcription_api.Engine.{Decoder}
use transcription_api.Auth.{auth_manager}
use transcription_api.Auth.Compare.{IsBytes}
use transcription_api.Session.State.{Session, Process, destroy_session, release_model}
use transcription_api.Session.Steps.{Step}
use transcription_api.Session.Steps.Authority.{Steady, Step-auth, static_Steady}
use transcription_api.Session.Steps.Tokens.{OpensWith, static_token_opens}
use transcription_api.Server.Config.{ServerConfig, config_from_env, to_auth_token}
use transcription_api.Server.Args.{configured, parse_args}
use transcription_api.Server.Args.Values.{Reads}
use transcription_api.Server.Args.Assignments.{Assignments, arguments, last_of}
use transcription_api.Server.Args.Settings.{parse_args-settings}
use transcription_api.Server.Start.{Host, Started, start, serving, auth_config}
use transcription_api.Server.Start.Limits.{text_of}
use transcription_api.Server.World.{
  World, seen_by, opening, Move, opens, moves, ends, fires, Reach, begin, next,
}

module _ {F : Type 0} ⦃fl : FloatOps F⦄ where
  destroy_session-auth : (now : ℕ) (p : Process F) → (destroy_session now p).auth ≡ p.auth
  unfolding destroy_session release_model
  destroy_session-auth now p = ground arith

  Move-auth :
      (decode : Decoder F) {w x : World F} → Move decode w x → Steady w.auth → x.auth ≡ w.auth
  Move-auth decode (opens id now e) steady = ap (λ (y : World F). y.auth) e
  Move-auth decode {w} (moves i s q step at own e) steady =
      ap (λ (y : World F). y.auth) e ∙ Step-auth decode (seen_by s w) q step own steady
  Move-auth decode {w} (ends i s now at e) steady =
      ap (λ (y : World F). y.auth) e ∙ destroy_session-auth now (seen_by s w)
  Move-auth decode (fires e) steady = ap (λ (y : World F). y.auth) e

  Reach-auth :
      (decode : Decoder F) {w x : World F} → Reach decode w x → Steady w.auth → x.auth ≡ w.auth
  Reach-auth decode begin steady = refl
  Reach-auth decode (next r m) steady =
      let same = Reach-auth decode r steady in
      Move-auth decode m (subst Steady (sym same) steady) ∙ same

  configured_inj : (c d : ServerConfig F) → configured c ≡ configured d → c ≡ d
  configured_inj c d e = cc

  start-serving :
      (host : Host) (c : ServerConfig F) (r : Started F) → start host c ≡ some r → r ≡ serving c
  unfolding start
  start-serving host c r e = ground (arith, e)

  -- Let the arguments be options with values that can be read, the last `--auth-token` of them with a text
  -- v of bytes that is not empty, and let the server that they configure have started. Whatever its
  -- sessions and their clients have done since then, a step that makes a session configured is the
  -- handling of a text message, and this very message has a token: if the token is bytes, it is v.
  pub token_guards_server :
      (host : Host) (stof : Text → Option F) (vars : Dict Text) (ss : Assignments)
      (c c' : ServerConfig F) (v : Text) (r : Started F) (decode : Decoder F) (w : World F)
      (s : Session F) (q : Process F) (step : Step decode (seen_by s w) q)
      → config_from_env stof vars ≡ some c
      → All (Reads stof) ss
      → last_of to_auth_token ss ≡ some v
      → v ≢ []
      → IsBytes v
      → parse_args stof vars (arguments ss) ≡ configured c'
      → start host c' ≡ some r
      → Reach decode (opening r) w
      → s.configured ≡ false
      → q.session.configured ≡ true
      → OpensWith v step
  unfolding auth_manager auth_config serving
  token_guards_server host stof vars ss c c' v r decode w s q step e reads given full bytes parsed
        starts reached before after =
      let (d, parsed_d, settings) = parse_args-settings stof vars ss c e reads in
      let same = configured_inj d c' (sym parsed_d ∙ parsed) in
      let token_is : c'.auth_token ≡ v =
        ap (λ (x : ServerConfig F). x.auth_token) (sym same)
        ∙ ap text_of (settings to_auth_token)
        ∙ rw given refl in
      let config = auth_config c' in
      let not_empty : config.static_token ≢ [] = λ empty. full (sym token_is ∙ empty) in
      let auth_is : r.auth ≡ auth_manager config =
        ap (λ (x : Started F). x.auth) (start-serving host c' r starts) in
      let steady : Steady r.auth =
        subst Steady (sym auth_is) (static_Steady (auth_manager config) not_empty) in
      subst (λ (x : Text). OpensWith x step) token_is
        (static_token_opens config decode (seen_by s w) q step not_empty
          (subst IsBytes (sym token_is) bytes) (Reach-auth decode reached steady ∙ auth_is) before
          after)
