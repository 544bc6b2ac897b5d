-- ===== src/Server/Main/Tests.antt =====
-- A server with a timeout of 3 s that is told to stop, and programs that do not start.
use transcription_api.Prelude.{
  Text, codes, Text_discrete, pos, ℕ, ◌≤◌, ◌<◌, ◌≡◌, refl, ◌⊎◌, inr, true, Option, none, some, List,
  [], ◌∷◌, ◌++◌, length,
}
use transcription_api.Float.{coarse}
use transcription_api.Server.Numbers.{stoi}
use transcription_api.Server.DotEnv.{
  load_dot_env, extract_env_file, env, load_line, split_eq, unquote,
}
use transcription_api.Server.Config.{
  ServerConfig, default_config, config_from_env, set_flag, to_shutdown_timeout_sec,
}
use transcription_api.Server.Args.{read_config, parse_args, parse_loop, plain}
use transcription_api.Server.Args.Values.{integer}
use transcription_api.Server.Args.Names.{Flag_discrete}
use transcription_api.Server.Args.Assignments.{Assignments, arguments}
use transcription_api.Server.Accept.{Event, client, tested, accept_returns}
use transcription_api.Server.Start.{Host}
use transcription_api.Server.Start.Limits.{Permits}
use transcription_api.Server.Join.{returned, forced}
use transcription_api.Server.Join.Deadline.{AllEndBy}
use transcription_api.Server.Main.{exit_status, main, exits, shuts_down}
use transcription_api.Server.Main.Status.{interrupted_by_signal, main_stops}

abbrev host : Host
host = record { tls_loads = λ cert key. true; listens = λ address port. true }

permits : Permits host
permits = record { loads = λ cert key. refl; binds = λ address port. refl }

abbrev stof : Text → Option ℕ
stof t = some (length t)

abbrev files : Text → Option Text
files path = some (codes "MODEL_PATH=m.bin\n")

abbrev options : Assignments
options = (to_shutdown_timeout_sec, codes "3") ∷ []

abbrev one_client : List Event
one_client = tested ∷ accept_returns (client (codes "a") true) ∷ tested ∷ []

abbrev from_file : ServerConfig ℕ
from_file = record default_config { model_path = codes "m.bin" }

environment :
    config_from_env stof (load_dot_env (files (extract_env_file (arguments options))) [])
    ≡ some from_file
unfolding config_from_env env Text_discrete set_flag load_dot_env extract_env_file load_line
    split_eq unquote
environment = refl

main_stops_example :
    let ended =
      main host stof files []
        (arguments options)
        (one_client ++ interrupted_by_signal)
        (some 250 ∷ []) in
    (exit_status ended ≡ some 0)
    × (((t : ℕ) × (ended ≡ shuts_down (returned t)) × (t < 3100) × AllEndBy t (some 250 ∷ []))
        ⊎ ((t : ℕ) × (ended ≡ shuts_down (forced t))
            × (3000 ≤ t)
            × (t < 3100)
            × (AllEndBy t (some 250 ∷ []) → ⊥)))
unfolding stoi Flag_discrete
main_stops_example =
    main_stops host stof files [] options from_file (codes "3") (pos 3) one_client (some 250 ∷ [])
      permits environment (inr (integer (pos 3), refl), tt) refl refl (refl, (refl, (refl, tt)))

helps : main host stof (λ path. none) [] (codes "--help" ∷ []) [] [] ≡ exits 0
unfolding main read_config parse_args parse_loop config_from_env env Text_discrete load_dot_env
    extract_env_file
helps = refl

rejects : main host stof (λ path. none) [] (codes "--fast" ∷ []) [] [] ≡ exits 1
unfolding main read_config parse_args parse_loop config_from_env env Text_discrete load_dot_env
    extract_env_file plain default_config
rejects = refl
