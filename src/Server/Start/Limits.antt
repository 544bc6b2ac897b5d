-- ===== src/Server/Start/Limits.antt =====
-- From the command line to the server that runs.
use transcription_api.Prelude.{
  Text, codes, ℕ, ◌≤◌, ◌≡◌, refl, sym, ap, ◌∙◌, subst, ◌≢◌, true, false, Option, none, some, List,
  [], arith, length, All,
}
use transcription_api.Prelude.Dict.{Dict}
use transcription_api.Float.{FloatOps}
use transcription_api.Auth.{ApiAuthConfig, AuthResult, auth_manager, validate}
use transcription_api.Auth.Compare.{IsBytes}
use transcription_api.Auth.Decisions.{validate_static}
use transcription_api.Server.Numbers.{stoul}
use transcription_api.Server.DotEnv.{env}
use transcription_api.Server.Config.{
  ServerConfig, config_from_env, default_config, to_auth_token, to_auth_api_url, to_max_connections,
}
use transcription_api.Server.Args.{configured, parse_args}
use transcription_api.Server.Args.Names.{Flag_discrete}
use transcription_api.Server.Args.Values.{Reads, Value, text, natural}
use transcription_api.Server.Args.Assignments.{Assignments, arguments, last_of}
use transcription_api.Server.Args.Settings.{parse_args-settings}
use transcription_api.Server.Accept.{Event, run, listening}
use transcription_api.Server.Accept.Slots.{accept_refines}
use transcription_api.Server.Start.{Host, Started, start, serving, says_auth, auth_config}

-- The host lets every server start.
pub record Permits (host : Host) : Type 0 where
  pub loads : (cert key : Text) → host.tls_loads cert key ≡ true
  pub binds : (address : Text) (port : ℕ) → host.listens address port ≡ true

abbrev number_of : {F : Type 0} → Option (Value F) → ℕ
number_of (some (natural n)) = n
number_of _ = 0

abbrev pub text_of : {F : Type 0} → Option (Value F) → Text
text_of (some (text t)) = t
text_of _ = []

-- The server that a configuration starts.
abbrev pub StartsAs : {F : Type 0} → Host → ServerConfig F → Type 0
StartsAs host c =
    (r : Started _) × (start host c ≡ some r)
    × (r.acceptor ≡ listening c.max_connections c.max_connections_per_ip)
    × (r.auth ≡ auth_manager (auth_config c))

pub start-StartsAs :
    {F : Type 0} (host : Host) (c : ServerConfig F) → Permits host → StartsAs host c
unfolding start serving auth_config
start-StartsAs host c p = (
  serving c,
  ground (arith, p.loads c.cert_path c.key_path, p.binds c.bind_address c.port),
  refl,
  refl,
)

module _ {F : Type 0} ⦃fl : FloatOps F⦄ where
  -- Let the environment be readable, and let the arguments be options with values that can be read, the
  -- last `--max-connections` of them with the number n. On a host that lets it, the server starts, and
  -- whatever its accept loop meets, at most n connections are live.
  pub max_connections_holds :
      (host : Host) (stof : Text → Option F) (vars : Dict Text) (ss : Assignments)
      (c : ServerConfig F) (v : Text) (n : ℕ)
      → Permits host
      → config_from_env stof vars ≡ some c
      → All (Reads stof) ss
      → last_of to_max_connections ss ≡ some v
      → stoul v ≡ some n
      → (c' : ServerConfig F) × (parse_args stof vars (arguments ss) ≡ configured c')
        × (r : Started F) × (start host c' ≡ some r)
        × ((es : List Event) → length (run r.acceptor es).doorman.guards ≤ n)
  max_connections_holds host stof vars ss c v n permits e reads given is_n =
      let (c', parsed, settings) = parse_args-settings stof vars ss c e reads in
      let (r, starts, listens, _) = start-StartsAs host c' permits in
      let limit : c'.max_connections ≡ n =
        ap number_of (settings to_max_connections) ∙ rw given (rw is_n refl) in
      (
        c',
        parsed,
        r,
        starts,
        λ es. rw listens (
            subst
              (λ (k : ℕ).
                length
                  (run (listening c'.max_connections c'.max_connections_per_ip) es).doorman.guards
                ≤ k)
              limit (accept_refines c'.max_connections c'.max_connections_per_ip es).2),
      )

  -- What a last option `--auth-token v` makes of the server that starts.
  pub token_start :
      (host : Host) (stof : Text → Option F) (vars : Dict Text) (ss : Assignments)
      (c : ServerConfig F) (v : Text)
      → Permits host
      → config_from_env stof vars ≡ some c
      → All (Reads stof) ss
      → last_of to_auth_token ss ≡ some v
      → (c' : ServerConfig F) × (parse_args stof vars (arguments ss) ≡ configured c')
        × (r : Started F) × (start host c' ≡ some r)
        × (r.auth ≡ auth_manager (auth_config c'))
        × ((auth_config c').static_token ≡ v)
        × (last_of to_auth_api_url ss ≡ none
            → env (codes "AUTH_API_URL") vars ≡ []
            → c'.auth_api_url ≡ [])
  unfolding default_config Flag_discrete auth_config
  token_start host stof vars ss c v permits e reads given =
      let (c', parsed, settings) = parse_args-settings stof vars ss c e reads in
      let (r, starts, _, auth_is) = start-StartsAs host c' permits in
      (
        c',
        parsed,
        r,
        starts,
        auth_is,
        ap text_of (settings to_auth_token) ∙ rw given refl,
        λ no_option no_variable.
            ap text_of (settings to_auth_api_url) ∙ rw no_option (rw no_variable refl),
      )

  -- Let the environment be readable, and let the arguments be options with values that can be read, the
  -- last `--auth-token` of them with the text v, not empty. On a host that lets it, the server starts and
  -- lets in exactly the token v, whatever an API says. Where neither an option nor a variable gives the
  -- URL of an API, its log says that authentication is disabled.
  pub auth_token_holds :
      (host : Host) (stof : Text → Option F) (vars : Dict Text) (ss : Assignments)
      (c : ServerConfig F) (v : Text)
      → Permits host
      → config_from_env stof vars ≡ some c
      → All (Reads stof) ss
      → last_of to_auth_token ss ≡ some v
      → v ≢ []
      → IsBytes v
      → (c' : ServerConfig F) × (parse_args stof vars (arguments ss) ≡ configured c')
        × (r : Started F) × (start host c' ≡ some r)
        × ((ask : ApiAuthConfig → Text → AuthResult) (token : Text) (now later : ℕ)
            → IsBytes token
            → (token ≡ v → validate ask token now later r.auth ≡ some (true, r.auth))
              × (token ≢ v → validate ask token now later r.auth ≡ some (false, r.auth)))
        × (last_of to_auth_api_url ss ≡ none
            → env (codes "AUTH_API_URL") vars ≡ []
            → says_auth c' ≡ false)
  unfolding says_auth
  auth_token_holds host stof vars ss c v permits e reads given full bytes =
      let (c', parsed, r, starts, auth_is, token_is, no_url) =
        token_start host stof vars ss c v permits e reads given in
      (
        c',
        parsed,
        r,
        starts,
        λ ask token now later is_text.
            let (same, other) =
              validate_static ask (auth_config c') token now later
                (λ empty. full (sym token_is ∙ empty)) (subst IsBytes (sym token_is) bytes)
                is_text in
            (
              (λ is_v. rw auth_is (same (is_v ∙ sym token_is))),
              (λ not_v. rw auth_is (other (λ is_c. not_v (is_c ∙ token_is)))),
            ),
        λ no_option no_variable. rw (no_url no_option no_variable) refl,
      )
