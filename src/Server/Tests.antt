-- ===== src/Server/Tests.antt =====
-- A small file of settings, and a short history of sessions.
use transcription_api.Prelude.{Text, codes, Text_discrete, ◌≡◌, refl, none, some, [], ◌∷◌, ◌++◌}
use transcription_api.Prelude.Dict.{Dict, lookup}
use transcription_api.Server.DotEnv.{
  load_dot_env, load_dot_env_lem, or_else, first_value, lines_from, load_line, split_eq, unquote,
  extract_env_file,
}

-- A comment, PORT="80" with a carriage return, PORT=81 and KEY=a=b.
abbrev settings : Text
settings =
    codes "#x"
    ++ 10 ∷ codes "PORT="
    ++ 34 ∷ codes "80"
    ++ 34 ∷ 13 ∷ 10 ∷ codes "PORT=81"
    ++ 10 ∷ codes "KEY=a=b"

abbrev vars : Dict Text
vars = (codes "HOME", codes "/") ∷ []

loaded_vars :
    load_dot_env (some settings) vars
    ≡ (codes "HOME", codes "/") ∷ (codes "PORT", codes "80") ∷ (codes "KEY", codes "a=b") ∷ []
unfolding load_dot_env load_line split_eq Text_discrete unquote
loaded_vars = refl

env_file : extract_env_file (codes "--port" ∷ codes "--env-file" ∷ codes "x" ∷ []) ≡ codes "x"
unfolding extract_env_file Text_discrete
env_file = refl

load_dot_env_lem_example :
    lookup (codes "PORT") (load_dot_env (some settings) vars)
    ≡ or_else none (first_value (codes "PORT") (lines_from [] settings))
unfolding Text_discrete
load_dot_env_lem_example = load_dot_env_lem (codes "PORT") settings vars
