-- ===== src/Session/Samples.antt =====
-- A session over numbers in place of floats.
use transcription_api.Prelude.{Text, codes, pos, ℕ, none, some, [], ◌∷◌}
use transcription_api.Float.{coarse}
use transcription_api.Engine.{Decoder}
use transcription_api.ModelCache.{model_cache}
use transcription_api.InferenceLimiter.{inference_limiter}
use transcription_api.Auth.{ApiAuthConfig, denied, auth_manager}
use transcription_api.Session.State.{
  Process, Surroundings, Handled, done, Json, object, string, WhisperOptions, new_session,
}

abbrev pub options : WhisperOptions ℕ
options = record {
  beam_size = pos 5;
  threads = pos 4;
  initial_prompt = [];
  session_timeout_sec = pos 30;
  temperature = 0;
  temperature_inc = 0;
  no_speech_thold = 0;
  logprob_thold = 0;
}

abbrev pub model : Text
model = codes "m.bin"

-- Every decode hears one word.
abbrev pub one_word : Decoder ℕ
one_word params buffer = record {
  result = pos 0;
  detected = none;
  segments = record { t1 = pos 100; text = some (codes " si") } ∷ [];
}

abbrev pub env : Surroundings ℕ
env = record {
  now = 1000;
  answered = 1001;
  ask = λ config token. denied;
  init = λ path params. some 7;
  init_state = λ ctx. some 8;
  decode = one_word;
}

abbrev pub token_config : ApiAuthConfig
token_config = record {
  api_base_url = [];
  api_secret_key = [];
  timeout_seconds = pos 5;
  cache_ttl_seconds = pos 300;
  static_token = codes "abc";
}

abbrev pub connected : Process ℕ
connected = record {
  session = new_session (codes "s") model options 0;
  cache = model_cache;
  limiter = inference_limiter;
  auth = auth_manager token_config;
}

abbrev pub config_message : Json ℕ
config_message =
    object ((codes "type", string (codes "config")) ∷ (codes "token", string (codes "abc")) ∷ [])

abbrev pub after : Handled (Process ℕ) → Process ℕ
after (done q) = q
after _ = connected
