-- ===== src/Server/Args/Values.antt =====
-- The settings by the options, and how an assignment changes them.
use transcription_api.Prelude.{
  Text, ℤ, ℕ, ◌≡◌, refl, ◌≢◌, ◌⊎◌, inl, inr, Option, none, some, arith, Option-cases,
}
use mathlib.Core.Option
use transcription_api.Server.Numbers.{stoi, stoul}
use transcription_api.Server.Config.{
  ServerConfig, port_of, Flag, set_flag, to_env_file, to_model_path, to_bind_address, to_port,
  to_auth_token, to_auth_api_url, to_auth_api_secret, to_auth_cache_ttl, to_auth_api_timeout,
  to_cert_path, to_key_path, to_max_connections, to_max_connections_per_ip, to_whisper_beam_size,
  to_whisper_threads, to_max_concurrent_inference, to_model_cache_ttl, to_whisper_initial_prompt,
  to_session_timeout_sec, to_shutdown_timeout_sec, to_whisper_temperature,
  to_whisper_temperature_inc, to_whisper_no_speech_thold, to_whisper_logprob_thold,
}

-- A value of a setting.
pub data Value (F : Type 0) : Type 0 where
  text : Text → Value F
  natural : ℕ → Value F
  integer : ℤ → Value F
  real : F → Value F

module _ {F : Type 0} where
  -- The setting of an option; `--env-file` has none.
  abbrev pub setting : Flag → ServerConfig F → Option (Value F)
  setting to_env_file c = none
  setting to_model_path c = some (text c.model_path)
  setting to_bind_address c = some (text c.bind_address)
  setting to_port c = some (natural c.port)
  setting to_auth_token c = some (text c.auth_token)
  setting to_auth_api_url c = some (text c.auth_api_url)
  setting to_auth_api_secret c = some (text c.auth_api_secret)
  setting to_auth_cache_ttl c = some (integer c.auth_cache_ttl)
  setting to_auth_api_timeout c = some (integer c.auth_api_timeout)
  setting to_cert_path c = some (text c.cert_path)
  setting to_key_path c = some (text c.key_path)
  setting to_max_connections c = some (natural c.max_connections)
  setting to_max_connections_per_ip c = some (natural c.max_connections_per_ip)
  setting to_whisper_beam_size c = some (integer c.whisper_beam_size)
  setting to_whisper_threads c = some (integer c.whisper_threads)
  setting to_max_concurrent_inference c = some (integer c.max_concurrent_inference)
  setting to_model_cache_ttl c = some (integer c.model_cache_ttl)
  setting to_whisper_initial_prompt c = some (text c.whisper_initial_prompt)
  setting to_session_timeout_sec c = some (integer c.session_timeout_sec)
  setting to_shutdown_timeout_sec c = some (integer c.shutdown_timeout_sec)
  setting to_whisper_temperature c = some (real c.whisper_temperature)
  setting to_whisper_temperature_inc c = some (real c.whisper_temperature_inc)
  setting to_whisper_no_speech_thold c = some (real c.whisper_no_speech_thold)
  setting to_whisper_logprob_thold c = some (real c.whisper_logprob_thold)

  -- How the text behind an option is read.
  abbrev pub reading : (Text → Option F) → Flag → Text → Option (Value F)
  reading stof to_env_file v = none
  reading stof to_model_path v = some (text v)
  reading stof to_bind_address v = some (text v)
  reading stof to_port v = Option.map natural (port_of v)
  reading stof to_auth_token v = some (text v)
  reading stof to_auth_api_url v = some (text v)
  reading stof to_auth_api_secret v = some (text v)
  reading stof to_auth_cache_ttl v = Option.map integer (stoi v)
  reading stof to_auth_api_timeout v = Option.map integer (stoi v)
  reading stof to_cert_path v = some (text v)
  reading stof to_key_path v = some (text v)
  reading stof to_max_connections v = Option.map natural (stoul v)
  reading stof to_max_connections_per_ip v = Option.map natural (stoul v)
  reading stof to_whisper_beam_size v = Option.map integer (stoi v)
  reading stof to_whisper_threads v = Option.map integer (stoi v)
  reading stof to_max_concurrent_inference v = Option.map integer (stoi v)
  reading stof to_model_cache_ttl v = Option.map integer (stoi v)
  reading stof to_whisper_initial_prompt v = some (text v)
  reading stof to_session_timeout_sec v = Option.map integer (stoi v)
  reading stof to_shutdown_timeout_sec v = Option.map integer (stoi v)
  reading stof to_whisper_temperature v = Option.map real (stof v)
  reading stof to_whisper_temperature_inc v = Option.map real (stof v)
  reading stof to_whisper_no_speech_thold v = Option.map real (stof v)
  reading stof to_whisper_logprob_thold v = Option.map real (stof v)

  -- An option gives its setting the value that its text reads as.
  pub setting-set_flag_self :
      (stof : Text → Option F) (f : Flag) (v : Text) (c c' : ServerConfig F)
      → set_flag stof f v c ≡ some c'
      → setting f c' ≡ reading stof f v
  unfolding set_flag
  setting-set_flag_self stof to_env_file v c c' h = refl
  setting-set_flag_self stof to_model_path v c c' h = ground arith
  setting-set_flag_self stof to_bind_address v c c' h = ground arith
  setting-set_flag_self stof to_port v c c' h = ground arith
  setting-set_flag_self stof to_auth_token v c c' h = ground arith
  setting-set_flag_self stof to_auth_api_url v c c' h = ground arith
  setting-set_flag_self stof to_auth_api_secret v c c' h = ground arith
  setting-set_flag_self stof to_auth_cache_ttl v c c' h = ground arith
  setting-set_flag_self stof to_auth_api_timeout v c c' h = ground arith
  setting-set_flag_self stof to_cert_path v c c' h = ground arith
  setting-set_flag_self stof to_key_path v c c' h = ground arith
  setting-set_flag_self stof to_max_connections v c c' h = ground arith
  setting-set_flag_self stof to_max_connections_per_ip v c c' h = ground arith
  setting-set_flag_self stof to_whisper_beam_size v c c' h = ground arith
  setting-set_flag_self stof to_whisper_threads v c c' h = ground arith
  setting-set_flag_self stof to_max_concurrent_inference v c c' h = ground arith
  setting-set_flag_self stof to_model_cache_ttl v c c' h = ground arith
  setting-set_flag_self stof to_whisper_initial_prompt v c c' h = ground arith
  setting-set_flag_self stof to_session_timeout_sec v c c' h = ground arith
  setting-set_flag_self stof to_shutdown_timeout_sec v c c' h = ground arith
  setting-set_flag_self stof to_whisper_temperature v c c' h = ground arith
  setting-set_flag_self stof to_whisper_temperature_inc v c c' h = ground arith
  setting-set_flag_self stof to_whisper_no_speech_thold v c c' h = ground arith
  setting-set_flag_self stof to_whisper_logprob_thold v c c' h = ground arith

  -- It changes no other.
  pub setting-set_flag_ne :
      (stof : Text → Option F) (f g : Flag) (v : Text) (c c' : ServerConfig F)
      → set_flag stof f v c ≡ some c'
      → g ≢ f
      → setting g c' ≡ setting g c
  unfolding set_flag
  setting-set_flag_ne stof to_env_file g v c c' h ne = ground arith
  setting-set_flag_ne stof to_model_path g v c c' h ne = ground arith
  setting-set_flag_ne stof to_bind_address g v c c' h ne = ground arith
  setting-set_flag_ne stof to_port g v c c' h ne = ground arith
  setting-set_flag_ne stof to_auth_token g v c c' h ne = ground arith
  setting-set_flag_ne stof to_auth_api_url g v c c' h ne = ground arith
  setting-set_flag_ne stof to_auth_api_secret g v c c' h ne = ground arith
  setting-set_flag_ne stof to_auth_cache_ttl g v c c' h ne = ground arith
  setting-set_flag_ne stof to_auth_api_timeout g v c c' h ne = ground arith
  setting-set_flag_ne stof to_cert_path g v c c' h ne = ground arith
  setting-set_flag_ne stof to_key_path g v c c' h ne = ground arith
  setting-set_flag_ne stof to_max_connections g v c c' h ne = ground arith
  setting-set_flag_ne stof to_max_connections_per_ip g v c c' h ne = ground arith
  setting-set_flag_ne stof to_whisper_beam_size g v c c' h ne = ground arith
  setting-set_flag_ne stof to_whisper_threads g v c c' h ne = ground arith
  setting-set_flag_ne stof to_max_concurrent_inference g v c c' h ne = ground arith
  setting-set_flag_ne stof to_model_cache_ttl g v c c' h ne = ground arith
  setting-set_flag_ne stof to_whisper_initial_prompt g v c c' h ne = ground arith
  setting-set_flag_ne stof to_session_timeout_sec g v c c' h ne = ground arith
  setting-set_flag_ne stof to_shutdown_timeout_sec g v c c' h ne = ground arith
  setting-set_flag_ne stof to_whisper_temperature g v c c' h ne = ground arith
  setting-set_flag_ne stof to_whisper_temperature_inc g v c c' h ne = ground arith
  setting-set_flag_ne stof to_whisper_no_speech_thold g v c c' h ne = ground arith
  setting-set_flag_ne stof to_whisper_logprob_thold g v c c' h ne = ground arith

  -- It fails only where its text cannot be read.
  set_flag_reads :
      (stof : Text → Option F) (f : Flag) (v : Text) (c : ServerConfig F) (x : Value F)
      → reading stof f v ≡ some x
      → (c' : ServerConfig F) × (set_flag stof f v c ≡ some c')
  unfolding set_flag
  set_flag_reads stof f v c x h = elim (Option-cases (set_flag stof f v c)) [
    | inl failed ↦ absurd (unread f failed h)
    | inr (c', e) ↦ (c', e)
  ]
    where
      unread : (f : Flag) → set_flag stof f v c ≡ none → reading stof f v ≡ some x → ⊥
      unread to_env_file e r = ground arith
      unread to_model_path e r = ground arith
      unread to_bind_address e r = ground arith
      unread to_port e r = ground arith
      unread to_auth_token e r = ground arith
      unread to_auth_api_url e r = ground arith
      unread to_auth_api_secret e r = ground arith
      unread to_auth_cache_ttl e r = ground arith
      unread to_auth_api_timeout e r = ground arith
      unread to_cert_path e r = ground arith
      unread to_key_path e r = ground arith
      unread to_max_connections e r = ground arith
      unread to_max_connections_per_ip e r = ground arith
      unread to_whisper_beam_size e r = ground arith
      unread to_whisper_threads e r = ground arith
      unread to_max_concurrent_inference e r = ground arith
      unread to_model_cache_ttl e r = ground arith
      unread to_whisper_initial_prompt e r = ground arith
      unread to_session_timeout_sec e r = ground arith
      unread to_shutdown_timeout_sec e r = ground arith
      unread to_whisper_temperature e r = ground arith
      unread to_whisper_temperature_inc e r = ground arith
      unread to_whisper_no_speech_thold e r = ground arith
      unread to_whisper_logprob_thold e r = ground arith

  -- An option with a text that can be read: that of `--env-file` always can.
  abbrev pub Reads : (Text → Option F) → Flag × Text → Type 0
  Reads stof (f, v) = (f ≡ to_env_file) ⊎ ((x : Value F) × (reading stof f v ≡ some x))

  pub set_flag-Reads :
      (stof : Text → Option F) (f : Flag) (v : Text) (c : ServerConfig F)
      → Reads stof (f, v)
      → (c' : ServerConfig F) × (set_flag stof f v c ≡ some c')
  unfolding set_flag
  set_flag-Reads stof f v c (inl is_file) = (c, rw is_file refl)
  set_flag-Reads stof f v c (inr (x, e)) = set_flag_reads stof f v c x e
