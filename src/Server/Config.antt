-- ===== src/Server/Config.antt =====
-- src/server/ServerConfig.h, and `configFromEnv` of src/server.cpp. `std::stof` is an argument; `none` is
-- the exception of a number that cannot be read.
use transcription_api.Prelude.{
  Text, codes, is_empty, ℤ, pos, ℕ, ◌%◌, ◌^◌, Option, none, some, List, [], ◌∷◌, if◌then◌else◌,
}
use transcription_api.Prelude.Dict.{Dict}
use transcription_api.Float.{FloatOps}
use transcription_api.Server.DotEnv.{env}
use transcription_api.Server.Numbers.{stoi, stoul}

pub record ServerConfig (F : Type 0) : Type 0 where
  pub model_path : Text
  pub bind_address : Text
  pub port : ℕ
  pub cert_path : Text
  pub key_path : Text
  pub max_connections : ℕ
  pub max_connections_per_ip : ℕ
  pub session_timeout_sec : ℤ
  pub auth_token : Text
  pub auth_api_url : Text
  pub auth_api_secret : Text
  pub auth_cache_ttl : ℤ
  pub auth_api_timeout : ℤ
  pub whisper_beam_size : ℤ
  pub whisper_threads : ℤ
  pub max_concurrent_inference : ℤ
  pub model_cache_ttl : ℤ
  pub whisper_initial_prompt : Text
  pub whisper_temperature : F
  pub whisper_temperature_inc : F
  pub whisper_no_speech_thold : F
  pub whisper_logprob_thold : F
  pub shutdown_timeout_sec : ℤ

-- `static_cast<unsigned short>`
abbrev pub port_of : Text → Option ℕ
port_of t = elim (stoul t) [ none ↦ none | some n ↦ some (n % 2 ^ 16) ]

infixl 5 ◌>>=◌
abbrev pub ◌>>=◌ : {A B : Type 0} → Option A → (A → Option B) → Option B
none >>= f = none
some a >>= f = f a

-- The settings that an option or a variable gives a value; `to_env_file` has none in the record.
pub data Flag : Type 0 where
  to_env_file to_model_path to_bind_address : Flag
  to_port to_auth_token to_auth_api_url : Flag
  to_auth_api_secret to_auth_cache_ttl to_auth_api_timeout : Flag
  to_cert_path to_key_path to_max_connections : Flag
  to_max_connections_per_ip to_whisper_beam_size to_whisper_threads : Flag
  to_max_concurrent_inference to_model_cache_ttl to_whisper_initial_prompt : Flag
  to_session_timeout_sec to_shutdown_timeout_sec to_whisper_temperature : Flag
  to_whisper_temperature_inc to_whisper_no_speech_thold to_whisper_logprob_thold : Flag

module _ {F : Type 0} where
  -- The assignment of a text to a setting, as `configFromEnv` and `parseArgs` both make it.
  unfoldable pub set_flag :
      (Text → Option F) → Flag → Text → ServerConfig F → Option (ServerConfig F)
  set_flag stof to_env_file v c = some c
  set_flag stof to_model_path v c = some (record c { model_path = v })
  set_flag stof to_bind_address v c = some (record c { bind_address = v })
  set_flag stof to_port v c = port_of v >>= λ x. some (record c { port = x })
  set_flag stof to_auth_token v c = some (record c { auth_token = v })
  set_flag stof to_auth_api_url v c = some (record c { auth_api_url = v })
  set_flag stof to_auth_api_secret v c = some (record c { auth_api_secret = v })
  set_flag stof to_auth_cache_ttl v c = stoi v >>= λ x. some (record c { auth_cache_ttl = x })
  set_flag stof to_auth_api_timeout v c = stoi v >>= λ x. some (record c { auth_api_timeout = x })
  set_flag stof to_cert_path v c = some (record c { cert_path = v })
  set_flag stof to_key_path v c = some (record c { key_path = v })
  set_flag stof to_max_connections v c = stoul v >>= λ x. some (record c { max_connections = x })
  set_flag stof to_max_connections_per_ip v c =
      stoul v >>= λ x. some (record c { max_connections_per_ip = x })
  set_flag stof to_whisper_beam_size v c = stoi v >>= λ x. some (record c { whisper_beam_size = x })
  set_flag stof to_whisper_threads v c = stoi v >>= λ x. some (record c { whisper_threads = x })
  set_flag stof to_max_concurrent_inference v c =
      stoi v >>= λ x. some (record c { max_concurrent_inference = x })
  set_flag stof to_model_cache_ttl v c = stoi v >>= λ x. some (record c { model_cache_ttl = x })
  set_flag stof to_whisper_initial_prompt v c = some (record c { whisper_initial_prompt = v })
  set_flag stof to_session_timeout_sec v c =
      stoi v >>= λ x. some (record c { session_timeout_sec = x })
  set_flag stof to_shutdown_timeout_sec v c =
      stoi v >>= λ x. some (record c { shutdown_timeout_sec = x })
  set_flag stof to_whisper_temperature v c =
      stof v >>= λ x. some (record c { whisper_temperature = x })
  set_flag stof to_whisper_temperature_inc v c =
      stof v >>= λ x. some (record c { whisper_temperature_inc = x })
  set_flag stof to_whisper_no_speech_thold v c =
      stof v >>= λ x. some (record c { whisper_no_speech_thold = x })
  set_flag stof to_whisper_logprob_thold v c =
      stof v >>= λ x. some (record c { whisper_logprob_thold = x })

  -- `if (auto v = env(...); !v.empty())` for each of some variables.
  unfoldable pub load_env :
      (Text → Option F) → Dict Text → List (Text × Flag) → ServerConfig F → Option (ServerConfig F)
  load_env stof vars [] c = some c
  load_env stof vars ((name, f) ∷ rest) c =
      (if is_empty (env name vars) then some c else set_flag stof f (env name vars) c) >>= λ c'.
      load_env stof vars rest c'

-- The variables in the order of the source, with the setting of each.
abbrev pub env_settings : List (Text × Flag)
env_settings =
    (codes "MODEL_PATH", to_model_path)
    ∷ (codes "BIND_ADDRESS", to_bind_address)
    ∷ (codes "PORT", to_port)
    ∷ (codes "AUTH_TOKEN", to_auth_token)
    ∷ (codes "AUTH_API_URL", to_auth_api_url)
    ∷ (codes "AUTH_API_SECRET", to_auth_api_secret)
    ∷ (codes "AUTH_CACHE_TTL", to_auth_cache_ttl)
    ∷ (codes "AUTH_API_TIMEOUT", to_auth_api_timeout)
    ∷ (codes "TLS_CERT", to_cert_path)
    ∷ (codes "TLS_KEY", to_key_path)
    ∷ (codes "MAX_CONNECTIONS", to_max_connections)
    ∷ (codes "MAX_CONNECTIONS_PER_IP", to_max_connections_per_ip)
    ∷ (codes "WHISPER_BEAM_SIZE", to_whisper_beam_size)
    ∷ (codes "WHISPER_THREADS", to_whisper_threads)
    ∷ (codes "MAX_CONCURRENT_INFERENCE", to_max_concurrent_inference)
    ∷ (codes "MODEL_CACHE_TTL", to_model_cache_ttl)
    ∷ (codes "WHISPER_INITIAL_PROMPT", to_whisper_initial_prompt)
    ∷ (codes "SESSION_TIMEOUT_SEC", to_session_timeout_sec)
    ∷ (codes "WHISPER_TEMPERATURE", to_whisper_temperature)
    ∷ (codes "WHISPER_TEMPERATURE_INC", to_whisper_temperature_inc)
    ∷ (codes "WHISPER_NO_SPEECH_THOLD", to_whisper_no_speech_thold)
    ∷ (codes "WHISPER_LOGPROB_THOLD", to_whisper_logprob_thold)
    ∷ (codes "SHUTDOWN_TIMEOUT_SEC", to_shutdown_timeout_sec)
    ∷ []

module _ {F : Type 0} ⦃fl : FloatOps F⦄ where
  unfoldable pub default_config : ServerConfig F
  default_config = record {
    model_path = codes "third_party/whisper.cpp/models/ggml-small.bin";
    bind_address = codes "0.0.0.0";
    port = 9001;
    cert_path = [];
    key_path = [];
    max_connections = 8;
    max_connections_per_ip = 2;
    session_timeout_sec = pos 30;
    auth_token = [];
    auth_api_url = [];
    auth_api_secret = [];
    auth_cache_ttl = pos 300;
    auth_api_timeout = pos 5;
    whisper_beam_size = pos 1;
    whisper_threads = pos 4;
    max_concurrent_inference = pos 4;
    model_cache_ttl = pos 300;
    whisper_initial_prompt = [];
    whisper_temperature = fl.literal 0 1;
    whisper_temperature_inc = fl.literal 0 1;
    whisper_no_speech_thold = fl.literal 3 10;
    whisper_logprob_thold = fl.sub (fl.literal 0 1) (fl.literal 7 10);
    shutdown_timeout_sec = pos 10;
  }

  unfoldable pub config_from_env : (Text → Option F) → Dict Text → Option (ServerConfig F)
  unfolding load_env default_config
  config_from_env stof vars = load_env stof vars env_settings default_config
