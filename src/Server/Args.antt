-- ===== src/Server/Args.antt =====
-- src/server.cpp: `parseArgs` and what `main` reads at its start. The arguments are those behind the program's name.
pub mod Names
pub mod Usage
pub mod Values
pub mod Assignments
pub mod Settings
pub mod Positional
mod Tests
use transcription_api.Prelude.{
  Text, codes, text_eq, Bool, false, not, ◌&&◌, Option, none, some, List, [], ◌∷◌, ◌==◌,
  if◌then◌else◌,
}
use transcription_api.Prelude.Dict.{Dict}
use transcription_api.Float.{FloatOps}
use transcription_api.Server.DotEnv.{extract_env_file, load_dot_env}
use transcription_api.Server.Config.{
  ServerConfig, Flag, set_flag, config_from_env, to_env_file, to_model_path, to_bind_address,
  to_port, to_auth_token, to_auth_api_url, to_auth_api_secret, to_auth_cache_ttl,
  to_auth_api_timeout, to_cert_path, to_key_path, to_max_connections, to_max_connections_per_ip,
  to_whisper_beam_size, to_whisper_threads, to_max_concurrent_inference, to_model_cache_ttl,
  to_whisper_initial_prompt, to_session_timeout_sec, to_shutdown_timeout_sec,
  to_whisper_temperature, to_whisper_temperature_inc, to_whisper_no_speech_thold,
  to_whisper_logprob_thold,
}

-- The tests on `arg` of the options that take a value, in their order.
unfoldable pub flag_of : Text → Option Flag
flag_of arg =
    if text_eq arg (codes "--env-file")
    then some to_env_file
    else if text_eq arg (codes "--model")
    then some to_model_path
    else if text_eq arg (codes "--bind")
    then some to_bind_address
    else if text_eq arg (codes "--port")
    then some to_port
    else if text_eq arg (codes "--auth-token")
    then some to_auth_token
    else if text_eq arg (codes "--auth-api-url")
    then some to_auth_api_url
    else if text_eq arg (codes "--auth-api-secret")
    then some to_auth_api_secret
    else if text_eq arg (codes "--auth-cache-ttl")
    then some to_auth_cache_ttl
    else if text_eq arg (codes "--auth-api-timeout")
    then some to_auth_api_timeout
    else if text_eq arg (codes "--cert")
    then some to_cert_path
    else if text_eq arg (codes "--key")
    then some to_key_path
    else if text_eq arg (codes "--max-connections")
    then some to_max_connections
    else if text_eq arg (codes "--max-connections-per-ip")
    then some to_max_connections_per_ip
    else if text_eq arg (codes "--whisper-beam-size")
    then some to_whisper_beam_size
    else if text_eq arg (codes "--whisper-threads")
    then some to_whisper_threads
    else if text_eq arg (codes "--max-concurrent-inference")
    then some to_max_concurrent_inference
    else if text_eq arg (codes "--model-cache-ttl")
    then some to_model_cache_ttl
    else if text_eq arg (codes "--whisper-initial-prompt")
    then some to_whisper_initial_prompt
    else if text_eq arg (codes "--session-timeout-sec")
    then some to_session_timeout_sec
    else if text_eq arg (codes "--shutdown-timeout-sec")
    then some to_shutdown_timeout_sec
    else if text_eq arg (codes "--whisper-temperature")
    then some to_whisper_temperature
    else if text_eq arg (codes "--whisper-temperature-inc")
    then some to_whisper_temperature_inc
    else if text_eq arg (codes "--whisper-no-speech-thold")
    then some to_whisper_no_speech_thold
    else if text_eq arg (codes "--whisper-logprob-thold")
    then some to_whisper_logprob_thold
    else none

-- The end of the loop, `--help`, an argument that is not known, or the exception of a number.
pub data Parsed (F : Type 0) : Type 0 where
  configured : ServerConfig F → Parsed F
  usage bad_number : Parsed F
  unknown : Text → Parsed F

-- `arg.rfind("--", 0) == 0`
abbrev pub is_option : Text → Bool
is_option (c ∷ d ∷ s) = c == b'-' && d == b'-'
is_option _ = false

module _ {F : Type 0} where
  -- The tests behind the options: `--thread-safe`, and a model path where the path is the one that the
  -- source names.
  unfoldable pub plain : Text → ServerConfig F → Option (ServerConfig F)
  plain arg c =
      if text_eq arg (codes "--thread-safe")
      then some c
      else if not (is_option arg)
          && text_eq c.model_path (codes "third_party/whisper.cpp/models/ggml-base.bin")
      then some (record c { model_path = arg })
      else none

  -- The loop. The last argument has no value behind it, so it is no option.
  unfoldable pub parse_loop : (Text → Option F) → ServerConfig F → List Text → Parsed F
  parse_loop stof c [] = configured c
  parse_loop stof c (arg ∷ []) =
      if text_eq arg (codes "--help")
      then usage
      else elim (plain arg c) [ none ↦ unknown arg | some c' ↦ configured c' ]
  parse_loop stof c (arg ∷ v ∷ rest) =
      if text_eq arg (codes "--help") then usage else elim (flag_of arg) [
        | none ↦ elim (plain arg c) [ none ↦ unknown arg | some c' ↦ parse_loop stof c' (v ∷ rest) ]
        | some f ↦ elim (set_flag stof f v c) [
          | none ↦ bad_number
          | some c' ↦ parse_loop stof c' rest
        ]
      ]

module _ {F : Type 0} ⦃fl : FloatOps F⦄ where
  unfoldable pub parse_args : (Text → Option F) → Dict Text → List Text → Parsed F
  parse_args stof vars args = elim (config_from_env stof vars) [
    | none ↦ bad_number
    | some c ↦ parse_loop stof c args
  ]

  -- The start of `main`: the file of settings, then the environment, then the arguments.
  unfoldable pub read_config :
      (Text → Option F) → (Text → Option Text) → Dict Text → List Text → Parsed F
  read_config stof files vars args =
      parse_args stof (load_dot_env (files (extract_env_file args)) vars) args
