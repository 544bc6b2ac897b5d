-- ===== src/Server/Start.antt =====
-- src/server.cpp: `main` from the configuration to the first test of the accept loop.
pub mod Limits
pub mod Banner
mod Tests
use transcription_api.Prelude.{
  Text, is_empty, ℕ, Bool, not, ◌&&◌, Option, none, some, if◌then◌else◌,
}
use transcription_api.ModelCache.{ModelCache, model_cache, configure}
use transcription_api.InferenceLimiter.{InferenceLimiter, inference_limiter, set_max_concurrency}
use transcription_api.Auth.{ApiAuthConfig, AuthManager, auth_manager}
use transcription_api.Session.State.{WhisperOptions}
use transcription_api.Server.Config.{ServerConfig}
use transcription_api.Server.Accept.{Acceptor, listening}

-- What outside of the program can make the start fail: whether the certificate and the key can be used,
-- and whether the server can listen on an address and a port.
pub record Host : Type 0 where
  pub tls_loads : Text → Text → Bool
  pub listens : Text → ℕ → Bool

-- The server that listens, and what it gives each session.
pub record Started (F : Type 0) : Type 0 where
  pub use_ssl : Bool
  pub cache : ModelCache
  pub inference : InferenceLimiter
  pub auth : AuthManager
  pub acceptor : Acceptor
  pub model_path : Text
  pub options : WhisperOptions F

unfoldable pub auth_config : {F : Type 0} → ServerConfig F → ApiAuthConfig
auth_config c = record {
  api_base_url = c.auth_api_url;
  api_secret_key = c.auth_api_secret;
  timeout_seconds = c.auth_api_timeout;
  cache_ttl_seconds = c.auth_cache_ttl;
  static_token = c.auth_token;
}

module _ {F : Type 0} where
  -- What the threads of `handleSession` are given.
  unfoldable pub whisper_options : ServerConfig F → WhisperOptions F
  whisper_options c = record {
    beam_size = c.whisper_beam_size;
    threads = c.whisper_threads;
    initial_prompt = c.whisper_initial_prompt;
    session_timeout_sec = c.session_timeout_sec;
    temperature = c.whisper_temperature;
    temperature_inc = c.whisper_temperature_inc;
    no_speech_thold = c.whisper_no_speech_thold;
    logprob_thold = c.whisper_logprob_thold;
  }

  abbrev pub uses_ssl : ServerConfig F → Bool
  uses_ssl c = not (is_empty c.cert_path) && not (is_empty c.key_path)

  -- The objects that `main` makes from the configuration.
  unfoldable pub serving : ServerConfig F → Started F
  unfolding auth_config whisper_options
  serving c = record {
    use_ssl = uses_ssl c;
    cache = configure c.model_cache_ttl model_cache;
    inference = set_max_concurrency c.max_concurrent_inference inference_limiter;
    auth = auth_manager (auth_config c);
    acceptor = listening c.max_connections c.max_connections_per_ip;
    model_path = c.model_path;
    options = whisper_options c;
  }

  -- `none` is the exit with status 1.
  unfoldable pub start : Host → ServerConfig F → Option (Started F)
  unfolding serving
  start host c =
      if uses_ssl c && not (host.tls_loads c.cert_path c.key_path)
      then none
      else if host.listens c.bind_address c.port
      then some (serving c)
      else none

  -- What the log says of the authentication.
  unfoldable pub says_auth : ServerConfig F → Bool
  says_auth c = not (is_empty c.auth_api_url)
