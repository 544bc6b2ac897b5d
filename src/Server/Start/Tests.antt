-- ===== src/Server/Start/Tests.antt =====
-- A server with a limit and a token on its command line.
use transcription_api.Prelude.{
  Text, codes, Text_discrete, ℕ, ◌≤◌, ◌≡◌, refl, ◌≢◌, inr, true, false, Option, none, some, List,
  [], ◌∷◌, arith, length,
}
use transcription_api.Prelude.Dict.{Dict}
use transcription_api.Float.{coarse}
use transcription_api.Auth.{ApiAuthConfig, AuthResult, validate}
use transcription_api.Auth.Compare.{IsBytes}
use transcription_api.Server.Numbers.{stoul}
use transcription_api.Server.DotEnv.{env}
use transcription_api.Server.Config.{
  ServerConfig, default_config, config_from_env, to_auth_token, to_auth_api_url, to_max_connections,
  set_flag,
}
use transcription_api.Server.Args.{parse_args, configured}
use transcription_api.Server.Args.Names.{Flag_discrete}
use transcription_api.Server.Args.Values.{natural, text}
use transcription_api.Server.Args.Assignments.{Assignments, arguments, last_of}
use transcription_api.Server.Accept.{Event, run}
use transcription_api.Server.Start.{Host, Started, start, says_auth}
use transcription_api.Server.Start.Limits.{Permits, max_connections_holds, auth_token_holds}

abbrev host : Host
host = record { tls_loads = λ cert key. true; listens = λ address port. true }

permits : Permits host
permits = record { loads = λ cert key. refl; binds = λ address port. refl }

abbrev stof : Text → Option ℕ
stof t = some (length t)

abbrev vars : Dict Text
vars = (codes "MAX_CONNECTIONS", codes "9") ∷ []

abbrev options : Assignments
options = (to_max_connections, codes "3") ∷ (to_auth_token, codes "secret") ∷ []

abbrev from_vars : ServerConfig ℕ
from_vars = record default_config { max_connections = 9 }

environment : config_from_env stof vars ≡ some from_vars
unfolding config_from_env env Text_discrete set_flag stoul
environment = refl

max_connections_holds_example :
    (c' : ServerConfig ℕ) × (parse_args stof vars (arguments options) ≡ configured c')
    × (r : Started ℕ) × (start host c' ≡ some r)
    × ((es : List Event) → length (run r.acceptor es).doorman.guards ≤ 3)
unfolding stoul Flag_discrete
max_connections_holds_example =
    max_connections_holds host stof vars options from_vars (codes "3") 3 permits environment
      (inr (natural 3, refl), (inr (text (codes "secret"), refl), tt)) refl refl

secret_IsBytes : IsBytes (codes "secret")
secret_IsBytes =
    (omega arith, (omega arith, (omega arith, (omega arith, (omega arith, (omega arith, tt))))))

auth_token_holds_example :
    (c' : ServerConfig ℕ) × (parse_args stof vars (arguments options) ≡ configured c')
    × (r : Started ℕ) × (start host c' ≡ some r)
    × ((ask : ApiAuthConfig → Text → AuthResult) (token : Text) (now later : ℕ)
        → IsBytes token
        → (token ≡ codes "secret" → validate ask token now later r.auth ≡ some (true, r.auth))
          × (token ≢ codes "secret" → validate ask token now later r.auth ≡ some (false, r.auth)))
    × (last_of to_auth_api_url options ≡ none
        → env (codes "AUTH_API_URL") vars ≡ []
        → says_auth c' ≡ false)
unfolding stoul Flag_discrete
auth_token_holds_example =
    auth_token_holds host stof vars options from_vars (codes "secret") permits environment
      (inr (natural 3, refl), (inr (text (codes "secret"), refl), tt)) refl (λ e. cc) secret_IsBytes
