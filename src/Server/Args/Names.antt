-- ===== src/Server/Args/Names.antt =====
-- The options by their names.
use transcription_api.Prelude.{Text, codes, text_eq, Text_discrete, ◌≡◌, refl, false, some}
use transcription_api.Server.Config.{
  Flag, to_env_file, to_model_path, to_bind_address, to_port, to_auth_token, to_auth_api_url,
  to_auth_api_secret, to_auth_cache_ttl, to_auth_api_timeout, to_cert_path, to_key_path,
  to_max_connections, to_max_connections_per_ip, to_whisper_beam_size, to_whisper_threads,
  to_max_concurrent_inference, to_model_cache_ttl, to_whisper_initial_prompt,
  to_session_timeout_sec, to_shutdown_timeout_sec, to_whisper_temperature,
  to_whisper_temperature_inc, to_whisper_no_speech_thold, to_whisper_logprob_thold,
}
use transcription_api.Server.Args.{flag_of}

abbrev pub flag_name : Flag → Text
flag_name to_env_file = codes "--env-file"
flag_name to_model_path = codes "--model"
flag_name to_bind_address = codes "--bind"
flag_name to_port = codes "--port"
flag_name to_auth_token = codes "--auth-token"
flag_name to_auth_api_url = codes "--auth-api-url"
flag_name to_auth_api_secret = codes "--auth-api-secret"
flag_name to_auth_cache_ttl = codes "--auth-cache-ttl"
flag_name to_auth_api_timeout = codes "--auth-api-timeout"
flag_name to_cert_path = codes "--cert"
flag_name to_key_path = codes "--key"
flag_name to_max_connections = codes "--max-connections"
flag_name to_max_connections_per_ip = codes "--max-connections-per-ip"
flag_name to_whisper_beam_size = codes "--whisper-beam-size"
flag_name to_whisper_threads = codes "--whisper-threads"
flag_name to_max_concurrent_inference = codes "--max-concurrent-inference"
flag_name to_model_cache_ttl = codes "--model-cache-ttl"
flag_name to_whisper_initial_prompt = codes "--whisper-initial-prompt"
flag_name to_session_timeout_sec = codes "--session-timeout-sec"
flag_name to_shutdown_timeout_sec = codes "--shutdown-timeout-sec"
flag_name to_whisper_temperature = codes "--whisper-temperature"
flag_name to_whisper_temperature_inc = codes "--whisper-temperature-inc"
flag_name to_whisper_no_speech_thold = codes "--whisper-no-speech-thold"
flag_name to_whisper_logprob_thold = codes "--whisper-logprob-thold"

pub flag_of-flag_name : (f : Flag) → flag_of (flag_name f) ≡ some f
unfolding flag_of Text_discrete
flag_of-flag_name to_env_file = refl
flag_of-flag_name to_model_path = refl
flag_of-flag_name to_bind_address = refl
flag_of-flag_name to_port = refl
flag_of-flag_name to_auth_token = refl
flag_of-flag_name to_auth_api_url = refl
flag_of-flag_name to_auth_api_secret = refl
flag_of-flag_name to_auth_cache_ttl = refl
flag_of-flag_name to_auth_api_timeout = refl
flag_of-flag_name to_cert_path = refl
flag_of-flag_name to_key_path = refl
flag_of-flag_name to_max_connections = refl
flag_of-flag_name to_max_connections_per_ip = refl
flag_of-flag_name to_whisper_beam_size = refl
flag_of-flag_name to_whisper_threads = refl
flag_of-flag_name to_max_concurrent_inference = refl
flag_of-flag_name to_model_cache_ttl = refl
flag_of-flag_name to_whisper_initial_prompt = refl
flag_of-flag_name to_session_timeout_sec = refl
flag_of-flag_name to_shutdown_timeout_sec = refl
flag_of-flag_name to_whisper_temperature = refl
flag_of-flag_name to_whisper_temperature_inc = refl
flag_of-flag_name to_whisper_no_speech_thold = refl
flag_of-flag_name to_whisper_logprob_thold = refl

-- An option that takes a value is not `--help`.
pub text_eq-flag_name : (f : Flag) → text_eq (flag_name f) (codes "--help") ≡ false
unfolding Text_discrete
text_eq-flag_name to_env_file = refl
text_eq-flag_name to_model_path = refl
text_eq-flag_name to_bind_address = refl
text_eq-flag_name to_port = refl
text_eq-flag_name to_auth_token = refl
text_eq-flag_name to_auth_api_url = refl
text_eq-flag_name to_auth_api_secret = refl
text_eq-flag_name to_auth_cache_ttl = refl
text_eq-flag_name to_auth_api_timeout = refl
text_eq-flag_name to_cert_path = refl
text_eq-flag_name to_key_path = refl
text_eq-flag_name to_max_connections = refl
text_eq-flag_name to_max_connections_per_ip = refl
text_eq-flag_name to_whisper_beam_size = refl
text_eq-flag_name to_whisper_threads = refl
text_eq-flag_name to_max_concurrent_inference = refl
text_eq-flag_name to_model_cache_ttl = refl
text_eq-flag_name to_whisper_initial_prompt = refl
text_eq-flag_name to_session_timeout_sec = refl
text_eq-flag_name to_shutdown_timeout_sec = refl
text_eq-flag_name to_whisper_temperature = refl
text_eq-flag_name to_whisper_temperature_inc = refl
text_eq-flag_name to_whisper_no_speech_thold = refl
text_eq-flag_name to_whisper_logprob_thold = refl

unfoldable pub Flag_discrete : Discrete Flag
Flag_discrete = hlevel
