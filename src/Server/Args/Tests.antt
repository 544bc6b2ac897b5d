-- ===== src/Server/Args/Tests.antt =====
-- A command line.
use transcription_api.Prelude.{
  Text, codes, Text_discrete, ℕ, ◌≡◌, refl, inl, inr, Option, none, some, [], ◌∷◌, ◌++◌, length,
}
use transcription_api.Prelude.Dict.{Dict}
use transcription_api.Float.{coarse}
use transcription_api.Server.Config.{
  ServerConfig, Flag, default_config, config_from_env, env_settings, to_env_file, to_port,
  to_auth_token, set_flag,
}
use transcription_api.Server.Numbers.{stoul}
use transcription_api.Server.Args.{Parsed, parse_args, parse_loop, configured, unknown, flag_of}
use transcription_api.Server.DotEnv.{env}
use transcription_api.Server.Args.Names.{Flag_discrete}
use transcription_api.Server.Args.Values.{natural, text, setting}
use transcription_api.Server.Args.Assignments.{Assignments, arguments, last_of, value_of}
use transcription_api.Server.Args.Settings.{from_env, variable_in, parse_args-settings}
use transcription_api.Server.Args.Positional.{positional_rejected}

abbrev stof : Text → Option ℕ
stof t = some (length t)

abbrev vars : Dict Text
vars = (codes "PORT", codes "80") ∷ (codes "MODEL_PATH", []) ∷ []

abbrev options : Assignments
options =
    (to_port, codes "81")
    ∷ (to_env_file, codes ".env")
    ∷ (to_auth_token, codes "x")
    ∷ (to_port, codes "65618")
    ∷ []

abbrev parsed_port : Parsed ℕ → Option ℕ
parsed_port (configured c) = some c.port
parsed_port _ = none

-- A port of more than 16 bits wraps around.
last_port : parsed_port (parse_args stof vars (arguments options)) ≡ some 82
unfolding parse_args config_from_env env Text_discrete set_flag stoul parse_loop flag_of
last_port = refl

abbrev from_vars : ServerConfig ℕ
from_vars = record default_config { port = 80 }

environment : config_from_env stof vars ≡ some from_vars
unfolding config_from_env env Text_discrete set_flag stoul
environment = refl

parse_args-settings_example :
    (c' : ServerConfig ℕ) × (parse_args stof vars (arguments options) ≡ configured c')
    × ((f : Flag)
        → setting f c'
          ≡ value_of stof f (last_of f options) (
              value_of stof f
                (from_env vars (variable_in f env_settings))
                (setting f default_config)))
unfolding stoul
parse_args-settings_example = parse_args-settings stof vars options from_vars environment (
  inr (natural 81, refl),
  (inl refl, (inr (text (codes "x"), refl), (inr (natural 82, refl), tt))),
)

positional_rejected_example :
    parse_args stof vars (arguments options ++ codes "model.bin" ∷ codes "--help" ∷ [])
    ≡ unknown (codes "model.bin")
unfolding stoul env Text_discrete Flag_discrete flag_of
positional_rejected_example =
    positional_rejected stof vars options from_vars (codes "model.bin") (codes "--help" ∷ [])
      environment
      (
        inr (natural 81, refl),
        (inl refl, (inr (text (codes "x"), refl), (inr (natural 82, refl), tt))),
      )
      refl refl refl refl refl
