-- ===== src/Server/Start/Banner.antt =====
-- src/server.cpp: what `main` logs of the configuration. `show` is `std::to_string` of a float.
use transcription_api.Prelude.{Text, codes, is_empty, ◌≡◌, refl, List, [], ◌∷◌, ◌++◌, if◌then◌else◌}
use transcription_api.Log.{Level, info}
use transcription_api.Server.Numbers.{to_string, to_string_ℤ}
use transcription_api.Server.Config.{ServerConfig}
use transcription_api.Server.Start.{uses_ssl, says_auth}

module _ {F : Type 0} where
  unfoldable auth_line : ServerConfig F → Text
  unfolding says_auth
  auth_line c =
      if says_auth c
      then codes "Auth:    API "
        ++ c.auth_api_url
        ++ codes "  cache="
        ++ to_string_ℤ c.auth_cache_ttl
        ++ codes "s"
        ++ codes "  timeout="
        ++ to_string_ℤ c.auth_api_timeout
        ++ codes "s"
      else codes "Auth:    disabled"

  -- The lines up to the objects that `main` makes, in their order.
  unfoldable pub banner : (F → Text) → ServerConfig F → List (Level × Text)
  unfolding auth_line
  banner show c =
      (info, codes "Model:   " ++ c.model_path)
      ∷ (info, codes "Bind:    " ++ c.bind_address ++ codes ":" ++ to_string c.port)
      ∷ (info, codes "SSL:     " ++ (if uses_ssl c then codes "enabled" else codes "disabled"))
      ∷ (info, auth_line c)
      ∷ (
        info,
        codes "Limits:  "
            ++ to_string c.max_connections
            ++ codes " total, "
            ++ to_string c.max_connections_per_ip
            ++ codes " per IP",
      )
      ∷ (
        info,
        codes "Whisper: beam_size="
            ++ to_string_ℤ c.whisper_beam_size
            ++ codes "  threads="
            ++ to_string_ℤ c.whisper_threads
            ++ codes "  max_concurrent="
            ++ to_string_ℤ c.max_concurrent_inference
            ++ codes "  cache_ttl="
            ++ to_string_ℤ c.model_cache_ttl
            ++ codes "s",
      )
      ∷ (
        info,
        codes "Whisper: temperature="
            ++ show c.whisper_temperature
            ++ codes "  temperature_inc="
            ++ show c.whisper_temperature_inc
            ++ codes "  no_speech_thold="
            ++ show c.whisper_no_speech_thold
            ++ codes "  logprob_thold="
            ++ show c.whisper_logprob_thold,
      )
      ∷ (if is_empty c.whisper_initial_prompt
          then []
          else (info, codes "Whisper: initial_prompt=\"" ++ c.whisper_initial_prompt ++ codes "\"")
            ∷ [])

  unfoldable pub listening_line : ServerConfig F → Text
  listening_line c =
      codes "Listening on "
      ++ (if uses_ssl c then codes "wss" else codes "ws")
      ++ codes "://"
      ++ c.bind_address
      ++ codes ":"
      ++ to_string c.port

  -- Two configurations that differ in the token and in the secret of the API only are not told apart by
  -- the log of the start.
  banner_hides_secrets :
      (show : F → Text) (c : ServerConfig F) (token secret : Text)
      → let c' = record c { auth_token = token; auth_api_secret = secret } in
        (banner show c' ≡ banner show c) × (listening_line c' ≡ listening_line c)
  unfolding banner listening_line
  banner_hides_secrets show c token secret = (refl, refl)
