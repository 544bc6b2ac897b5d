-- ===== src/Session/Receive.antt =====
-- src/server/StreamingSession.h: the handlers of the receive loop.
pub mod Binary
pub mod Protocol
pub mod Reconfigure
pub mod Rate
use transcription_api.Prelude.{
  Text, codes, text_eq, is_empty, ℕ, ◌+◌, ◌-◌, ◌*◌, ◌/◌, ◌%◌, Bool, true, false, not, ◌&&◌, Option,
  none, some, List, [], ◌∷◌, ◌++◌, ltb, leb, ◌==◌, if◌then◌else◌, length,
}
use transcription_api.Float.{FloatOps}
use transcription_api.Engine
use transcription_api.Engine.{Engine, Outcome, transcribe_sliding_window}
use transcription_api.ModelCache
use transcription_api.Auth.{is_auth_enabled, validate, second}
use transcription_api.Session.State.{
  warning, transcription, normal, policy_error, Session, Process, Surroundings, Handled, done,
  throws, faults, Field, string, number, other, Json, field, send_message, send_error, send_ready,
  close_socket,
}

-- 1 MB, and 600 KB.
abbrev pub max_frame_bytes : ℕ
max_frame_bytes = 1 * 1024 * 1024

abbrev pub max_bytes_per_window : ℕ
max_bytes_per_window = 200 * 1024 * 3

abbrev pub not_configured_text : Text
not_configured_text = codes "Session not configured. Send 'config' first."

module _ {F : Type 0} ⦃fl : FloatOps F⦄ where
  -- `processAudioChunk`: a warning at the first chunk that finds the buffer full.
  unfoldable pub process_audio_chunk : List F → ℕ → Session F → Session F
  process_audio_chunk audio now s = elim s.engine [
    | none ↦ s
    | some e ↦
        let (overflow, e') = Engine.process_audio_chunk audio e in
        let s' : Session F = record s {
          last_audio_time = now;
          engine = some e';
          buffer_overflowed = overflow;
        } in
        if not s.configured
        then s
        else if overflow && not s.buffer_overflowed
        then send_message
            (warning (codes "buffer_full") (codes "Audio buffer full, dropping incoming audio")) s'
        else s'
  ]

  -- `reinterpret_cast<const float*>`
  unfoldable pub floats_of : List ℕ → List F
  floats_of (a ∷ b ∷ c ∷ d ∷ rest) = fl.of_bytes a b c d ∷ floats_of rest
  floats_of _ = []

  -- Close with a reason, as the guards of `handleBinaryMessage` do.
  unfoldable pub handle_binary_message : List ℕ → ℕ → Session F → Session F
  handle_binary_message data_bytes now s =
      let size = length data_bytes in
      let elapsed_s = (now - s.rate_limit_start) / second in
      let received = s.bytes_received_in_window + size in
      let counted : Session F = record s { bytes_received_in_window = received } in
      let renewed : Session F = record s { bytes_received_in_window = 0; rate_limit_start = now } in
      if ltb max_frame_bytes size
      then close_socket (policy_error (codes "Frame too large")) s
      else if ltb size 4
      then s
      else if not s.configured
      then send_error not_configured_text (codes "NOT_CONFIGURED") s
      else if not (size % 4 == 0)
      then s
      else if leb 3 elapsed_s
      then if ltb max_bytes_per_window received
        then close_socket (policy_error (codes "Rate limit exceeded")) counted
        else process_audio_chunk (floats_of data_bytes) now renewed
      else process_audio_chunk (floats_of data_bytes) now counted

  -- An error message, then `ws_.close(policy_error)`.
  unfoldable pub refuse : Text → Text → Process F → Process F
  refuse message code p = record p {
    session = close_socket (policy_error []) (send_error message code p.session);
  }

  -- The authentication of `handleConfig`: the session behind it, and whether to go on.
  unfoldable pub authenticate : Surroundings F → Json F → Process F → Handled (Bool × Process F)
  authenticate env msg p =
      if not (is_auth_enabled p.auth) then done (true, p) else elim (field (codes "token") msg) [
        | some (string token) ↦ elim (validate env.ask token env.now env.answered p.auth) [
          | none ↦ faults
          | some (valid, auth) ↦
              if valid
              then done (true, record p { auth = auth })
              else done (
                false,
                refuse (codes "Invalid token") (codes "AUTH_FAILED") (record p { auth = auth }),
              )
        ]
        | _ ↦ done (false, refuse (codes "Missing or invalid 'token'") (codes "AUTH_REQUIRED") p)
      ]

  -- The settings of a new engine, in the order of the calls.
  unfoldable pub configure_engine : Session F → F → Engine F → Engine F
  configure_engine s vad_thold e0 =
      let e1 = Engine.set_language s.language e0 in
      let e2 = Engine.set_threads s.whisper_threads e1 in
      let e3 = Engine.set_beam_size s.whisper_beam_size e2 in
      let e4 = Engine.set_vad_threshold vad_thold e3 in
      let e5 = Engine.set_temperature s.whisper_temperature e4 in
      let e6 = Engine.set_temperature_inc s.whisper_temperature_inc e5 in
      let e7 = Engine.set_no_speech_threshold s.whisper_no_speech_thold e6 in
      let e8 = Engine.set_logprob_threshold s.whisper_logprob_thold e7 in
      if is_empty s.whisper_initial_prompt
      then e8
      else Engine.set_initial_prompt s.whisper_initial_prompt e8

  -- The `catch` of `handleConfig`.
  unfoldable pub config_error : Text → Process F → Process F
  config_error what p = record p {
    session = send_error (codes "Configuration failed: " ++ what) (codes "CONFIG_ERROR") p.session;
  }

  -- The block under `state_mutex_`, for the context that the cache gave.
  unfoldable pub install_engine : Surroundings F → ℕ → F → Process F → Process F
  install_engine env ctx vad_thold p =
      let s : Session F = record p.session { model_acquired = true } in
      elim (Engine.engine (some ctx) (env.init_state ctx)) [
        | Outcome.throws what ↦ config_error what (record p { session = s })
        | Outcome.returns e ↦ record p {
          session = send_ready (record s {
            engine = some (configure_engine s vad_thold e);
            configured = true;
            last_transcribed_size = 0;
            full_transcription = [];
            raw_transcription = [];
            last_audio_time = env.now;
          });
        }
      ]

  -- 0 unless the message has a number.
  abbrev pub vad_threshold : Option (Field F) → F
  vad_threshold (some (number x)) = x
  vad_threshold (some (string t)) = fl.literal 0 1
  vad_threshold (some other) = fl.literal 0 1
  vad_threshold none = fl.literal 0 1

  -- From `acquire` on.
  unfoldable pub load_engine : Surroundings F → F → Process F → Process F
  load_engine env vad_thold p =
      let (ctx, cache) = ModelCache.acquire env.init p.session.model_path true p.cache in
      elim ctx [
        | none ↦ config_error (codes "Failed to load whisper model") (record p { cache = cache })
        | some h ↦ install_engine env h vad_thold (record p { cache = cache })
      ]

  -- `handleConfig` behind the authentication. A language that is no string throws a `type_error`.
  unfoldable pub configure_session : Surroundings F → Json F → Process F → Process F
  configure_session env msg p =
      let vad = vad_threshold (field (codes "vad_thold") msg) in
      elim (field (codes "language") msg) [
        | none ↦ load_engine env vad p
        | some (string language) ↦
            load_engine env vad (record p { session = record p.session { language = language } })
        | some _ ↦ config_error (codes "type_error") p
      ]

  unfoldable pub handle_config : Surroundings F → Json F → Process F → Handled (Process F)
  handle_config env msg p = elim (authenticate env msg p) [
    | done (go_on, p') ↦ done (if go_on then configure_session env msg p' else p')
    | throws what (go_on, p') ↦ throws what p'
    | faults ↦ faults
  ]

  -- `handleEnd` behind the last decode: the fallback, the final message and the close.
  unfoldable pub finish_transcription : Session F → Session F
  finish_transcription s =
      let full =
        if is_empty s.full_transcription && not (is_empty s.raw_transcription)
        then s.raw_transcription
        else s.full_transcription in
      close_socket normal
        (send_message (transcription full true) (record s { full_transcription = full }))

  -- The exception of a failed decode leaves `handleEnd`.
  unfoldable pub handle_end : Surroundings F → Session F → Handled (Session F)
  handle_end env s = elim s.engine [
    | none ↦ done (finish_transcription s)
    | some e ↦ elim (transcribe_sliding_window env.decode true e) [
      | Outcome.throws what ↦ throws what s
      | Outcome.returns (res, e') ↦ done (
          finish_transcription (record s {
            engine = some e';
            full_transcription = s.full_transcription ++ res.committed_text;
          }))
    ]
  ]

  abbrev pub with_session : Process F → Handled (Session F) → Handled (Process F)
  with_session p (done s) = done (record p { session = s })
  with_session p (throws what s) = throws what (record p { session = s })
  with_session p faults = faults

  -- What `handleJsonMessage` does by the type of the message.
  unfoldable pub dispatch : Surroundings F → Text → Json F → Process F → Handled (Process F)
  dispatch env type msg p =
      if text_eq type (codes "config")
      then handle_config env msg p
      else if not p.session.configured
      then done
          (record p { session = send_error not_configured_text (codes "NOT_CONFIGURED") p.session })
      else if text_eq type (codes "end")
      then with_session p (handle_end env p.session)
      else done (record p {
        session =
            send_error (codes "Unknown message type: " ++ type) (codes "UNKNOWN_TYPE") p.session;
      })

  -- `none` is a parse error. A type that is no string throws a `type_error`, which is not caught here.
  unfoldable pub handle_json_message :
      Surroundings F → Option (Json F) → Process F → Handled (Process F)
  handle_json_message env none p =
      done
        (record p { session = send_error (codes "Invalid JSON: ") (codes "PARSE_ERROR") p.session })
  handle_json_message env (some msg) p = elim (field (codes "type") msg) [
    | none ↦ done (record p {
      session = send_error (codes "Missing 'type' field") (codes "INVALID_MESSAGE") p.session;
    })
    | some (string type) ↦ dispatch env type msg p
    | some _ ↦ throws (codes "type_error") p
  ]
