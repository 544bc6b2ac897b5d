-- ===== src/Server/Args/Usage.antt =====
-- src/server.cpp: `printUsage`, and which options and variables it names.
use transcription_api.Prelude.{
  Text, codes, text_eq, Text_discrete, ℕ, ◌≡◌, refl, Bool, true, false, not, ◌&&◌, ◌||◌, List, [],
  ◌∷◌, ◌++◌, map, ◌==◌, if◌then◌else◌,
}
use transcription_api.Server.Config.{
  Flag, env_settings, to_env_file, to_model_path, to_bind_address, to_port, to_auth_token,
  to_auth_api_url, to_auth_api_secret, to_auth_cache_ttl, to_auth_api_timeout, to_cert_path,
  to_key_path, to_max_connections, to_max_connections_per_ip, to_whisper_beam_size,
  to_whisper_threads, to_max_concurrent_inference, to_model_cache_ttl, to_whisper_initial_prompt,
  to_session_timeout_sec, to_shutdown_timeout_sec, to_whisper_temperature,
  to_whisper_temperature_inc, to_whisper_no_speech_thold, to_whisper_logprob_thold,
}
use transcription_api.Server.Args.Names.{flag_name}

-- The first line, behind the name of the program.
abbrev pub options_line : Text
options_line =
    codes " [--model path] [--bind address] [--port N]"
    ++ codes " [--auth-token TOKEN]"
    ++ codes " [--auth-api-url URL] [--auth-api-secret SECRET]"
    ++ codes " [--auth-cache-ttl N] [--auth-api-timeout N]"
    ++ codes " [--cert cert.pem] [--key key.pem]"
    ++ codes " [--max-connections N] [--max-connections-per-ip N]"
    ++ codes " [--whisper-beam-size N] [--whisper-threads N]"
    ++ codes " [--max-concurrent-inference N] [--model-cache-ttl N]"
    ++ codes " [--whisper-initial-prompt TEXT] [--session-timeout-sec N] [--shutdown-timeout-sec N]"
    ++ codes " [--env-file path]"

abbrev pub variables_lines : List Text
variables_lines =
    codes "  MODEL_PATH, BIND_ADDRESS, PORT,"
    ∷ codes "  AUTH_TOKEN, AUTH_API_URL, AUTH_API_SECRET, AUTH_CACHE_TTL, AUTH_API_TIMEOUT,"
    ∷ codes "  TLS_CERT, TLS_KEY, MAX_CONNECTIONS, MAX_CONNECTIONS_PER_IP,"
    ∷ codes "  WHISPER_BEAM_SIZE, WHISPER_THREADS, MAX_CONCURRENT_INFERENCE,"
    ∷ codes "  MODEL_CACHE_TTL, WHISPER_INITIAL_PROMPT, SESSION_TIMEOUT_SEC, SHUTDOWN_TIMEOUT_SEC,"
    ∷ codes "  WHISPER_TEMPERATURE, WHISPER_TEMPERATURE_INC,"
    ∷ codes "  WHISPER_NO_SPEECH_THOLD, WHISPER_LOGPROB_THOLD"
    ∷ []

unfoldable pub print_usage : Text → List Text
print_usage binary =
    (codes "Usage: " ++ binary ++ options_line)
      ∷ codes "All options can also be set via environment variables (or a .env file):"
      ∷ variables_lines
    ++ codes "CLI arguments override environment variables." ∷ []

-- A name, up to the first blank, comma or bracket.
abbrev is_name_byte : ℕ → Bool
is_name_byte c = not (c == 32) && not (c == b',') && not (c == b'[') && not (c == b']')

-- The names on a line; `acc` is the one that is being read.
unfoldable names_from : Text → Text → List Text
names_from acc [] = acc ∷ []
names_from acc (c ∷ s) =
    let on = names_from (acc ++ c ∷ []) s in
    let next = names_from [] s in if is_name_byte c then on else acc ∷ next

abbrev has : Text → List Text → Bool
has t [] = false
has t (x ∷ xs) = text_eq t x || has t xs

abbrev has_all : List Text → List Text → Bool
has_all [] xs = true
has_all (t ∷ ts) xs = has t xs && has_all ts xs

abbrev is_listed : Flag → Bool
is_listed to_whisper_temperature = false
is_listed to_whisper_temperature_inc = false
is_listed to_whisper_no_speech_thold = false
is_listed to_whisper_logprob_thold = false
is_listed _ = true

-- The options line names the options, but for the four `--whisper-temperature`,
-- `--whisper-temperature-inc`, `--whisper-no-speech-thold` and `--whisper-logprob-thold`.
usage_names : (f : Flag) → has (flag_name f) (names_from [] options_line) ≡ is_listed f
unfolding names_from Text_discrete
usage_names to_env_file = refl
usage_names to_model_path = refl
usage_names to_bind_address = refl
usage_names to_port = refl
usage_names to_auth_token = refl
usage_names to_auth_api_url = refl
usage_names to_auth_api_secret = refl
usage_names to_auth_cache_ttl = refl
usage_names to_auth_api_timeout = refl
usage_names to_cert_path = refl
usage_names to_key_path = refl
usage_names to_max_connections = refl
usage_names to_max_connections_per_ip = refl
usage_names to_whisper_beam_size = refl
usage_names to_whisper_threads = refl
usage_names to_max_concurrent_inference = refl
usage_names to_model_cache_ttl = refl
usage_names to_whisper_initial_prompt = refl
usage_names to_session_timeout_sec = refl
usage_names to_shutdown_timeout_sec = refl
usage_names to_whisper_temperature = refl
usage_names to_whisper_temperature_inc = refl
usage_names to_whisper_no_speech_thold = refl
usage_names to_whisper_logprob_thold = refl

abbrev joined : List Text → Text
joined [] = []
joined (l ∷ ls) = l ++ joined ls

-- The lines behind it name every variable that is read.
usage_names_variables :
    has_all (map (λ (v : Text × Flag). v.0) env_settings) (names_from [] (joined variables_lines))
    ≡ true
unfolding names_from Text_discrete
usage_names_variables = refl
