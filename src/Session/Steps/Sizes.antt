-- ===== src/Session/Steps/Sizes.antt =====
-- The sizes that the flush thread subtracts.
use transcription_api.Prelude.{
  Text, codes, ℕ, ◌+◌, ◌≤◌, ◌≡◌, refl, subst, ◌⊎◌, inl, inr, true, false, Option, none, some, List,
  [], ◌++◌, arith, Option-cases, length,
}
use transcription_api.Float.{FloatOps}
use transcription_api.Engine
use transcription_api.ModelCache
use transcription_api.Engine.{
  Engine, initial_engine, Outcome, TranscribeResult, max_buffer_samples, transcribe_sliding_window,
  set_language, set_threads, set_beam_size, set_vad_threshold, set_temperature, set_temperature_inc,
  set_no_speech_threshold, set_logprob_threshold, set_initial_prompt,
}
use transcription_api.Engine.Buffer.{process_audio_chunk_bounds}
use transcription_api.Engine.Transcribe.{transcribe_forced}
use transcription_api.Session.State.{
  Session, Process, Surroundings, done, Json, Field, field, send_message, send_error, send_ready,
  close_socket, release_model, Message, CloseReason,
}
use transcription_api.Session.Receive.{
  not_configured_text, process_audio_chunk, floats_of, handle_binary_message, handle_end,
  finish_transcription, install_engine, configure_engine, config_error, load_engine, refuse,
  configure_session, authenticate, handle_config,
}
use transcription_api.Auth.{AuthManager}
use transcription_api.Session.Receive.Protocol.{authenticate_cases}

module _ {F : Type 0} where
  -- The engine holds at most 30 s, and no less than what was transcribed; only behind the final
  -- decode, on a closed stream, it may be empty.
  abbrev pub IsSized : Session F → Type 0
  IsSized s =
      (e : Engine F)
      → s.engine ≡ some e
      → (length e.audio_buffer ≤ max_buffer_samples)
        × ((s.last_transcribed_size ≤ length e.audio_buffer)
            ⊎ ((s.socket_open ≡ false) × (e.audio_buffer ≡ [])))

  send_message-IsSized : (m : Message) (s : Session F) → IsSized s → IsSized (send_message m s)
  unfolding send_message
  send_message-IsSized m s v e h = ground (arith, v e)

  pub send_error-IsSized : (a b : Text) (s : Session F) → IsSized s → IsSized (send_error a b s)
  unfolding send_error
  send_error-IsSized a b s v = send_message-IsSized (Message.error a b) s v

  send_ready-IsSized : (s : Session F) → IsSized s → IsSized (send_ready s)
  unfolding send_ready
  send_ready-IsSized s v = send_message-IsSized _ s v

  close_socket-IsSized : (r : CloseReason) (s : Session F) → IsSized s → IsSized (close_socket r s)
  unfolding close_socket
  close_socket-IsSized r s v e h = ground (arith, v e)

  pub release_model-IsSized :
      (now : ℕ) (p : Process F) → IsSized p.session → IsSized (release_model now p).session
  unfolding release_model
  release_model-IsSized now p v e h = ground (arith, v e)

module _ {F : Type 0} ⦃fl : FloatOps F⦄ where
  finish_transcription-IsSized : (s : Session F) → IsSized s → IsSized (finish_transcription s)
  unfolding finish_transcription
  finish_transcription-IsSized s v =
      close_socket-IsSized CloseReason.normal _ (send_message-IsSized _ _ (λ e h. v e h))

  -- Behind the final decode the stream is closed, so an empty buffer is fine.
  finish_emptied :
      (s : Session F)
      → ((e : Engine F) → s.engine ≡ some e → e.audio_buffer ≡ [])
      → IsSized (finish_transcription s)
  unfolding finish_transcription close_socket send_message
  finish_emptied s v e h = ground (arith, v e)

  process_audio_chunk-IsSized :
      (audio : List F) (now : ℕ) (s : Session F)
      → s.socket_open ≡ true
      → IsSized s
      → IsSized (process_audio_chunk audio now s)
  unfolding process_audio_chunk send_message
  process_audio_chunk-IsSized audio now s o v e h = elim (Option-cases s.engine) [
    | inl off ↦ ground (arith, v e)
    | inr (e0, on) ↦ ground (arith, v e, v e0 on, process_audio_chunk_bounds audio e0)
  ]

  pub handle_binary-IsSized :
      (data_bytes : List ℕ) (now : ℕ) (s : Session F)
      → s.socket_open ≡ true
      → IsSized s
      → IsSized (handle_binary_message data_bytes now s)
  unfolding handle_binary_message
  handle_binary-IsSized data_bytes now s o v e h =
      let counted : Session F = record s {
        bytes_received_in_window = s.bytes_received_in_window + length data_bytes;
      } in
      let renewed : Session F = record s { bytes_received_in_window = 0; rate_limit_start = now } in
      ground (
        arith,
        v e,
        close_socket-IsSized (CloseReason.policy_error (codes "Frame too large")) s v e,
        close_socket-IsSized (CloseReason.policy_error (codes "Rate limit exceeded")) counted v e,
        send_error-IsSized not_configured_text (codes "NOT_CONFIGURED") s v e,
        process_audio_chunk-IsSized (floats_of data_bytes) now counted o v e,
        process_audio_chunk-IsSized (floats_of data_bytes) now renewed o v e,
      )

  pub outcome_cases :
      (o : Outcome (TranscribeResult × Engine F))
      → ((what : Text) × (o ≡ Outcome.throws what))
        ⊎ ((res : TranscribeResult) × (e' : Engine F) × (o ≡ Outcome.returns (res, e')))
  outcome_cases (Outcome.throws what) = inl (what, refl)
  outcome_cases (Outcome.returns (res, e')) = inr (res, e', refl)

  pub engine_cases :
      (env : Surroundings F) (ctx : ℕ)
      → ((what : Text) × (Engine.engine {F = F} (some ctx) (env.init_state ctx)
            ≡ Outcome.throws what))
        ⊎ ((e0 : Engine F) × (e0.audio_buffer ≡ [])
            × (Engine.engine {F = F} (some ctx) (env.init_state ctx) ≡ Outcome.returns e0))
  unfolding Engine.engine initial_engine
  engine_cases env ctx = elim (Option-cases (env.init_state ctx)) [
    | inl no_state ↦
        inl (codes "[StreamingWhisperEngine] Failed to create whisper state", rw no_state)
    | inr (st, some_state) ↦ inr (record initial_engine { ctx = some ctx }, refl, rw some_state)
  ]

  configure_engine-audio_buffer :
      (s : Session F) (x : F) (e0 : Engine F)
      → (configure_engine s x e0).audio_buffer ≡ e0.audio_buffer
  unfolding configure_engine set_language set_threads set_beam_size set_vad_threshold
      set_temperature set_temperature_inc set_no_speech_threshold set_logprob_threshold
      set_initial_prompt
  configure_engine-audio_buffer s x e0 = ground arith

  config_error-IsSized :
      (what : Text) (p : Process F) → IsSized p.session → IsSized (config_error what p).session
  unfolding config_error
  config_error-IsSized what p v = send_error-IsSized _ _ p.session v

  install_engine-IsSized :
      (env : Surroundings F) (ctx : ℕ) (x : F) (p : Process F)
      → IsSized p.session
      → IsSized (install_engine env ctx x p).session
  unfolding install_engine
  install_engine-IsSized env ctx x p v = elim (engine_cases env ctx) [
    | inl (what, bad) ↦
        rw (bad, install_engine)
          (config_error-IsSized what
            (record p { session = record p.session { model_acquired = true } }) (λ e h. v e h))
    | inr (e0, empty, good) ↦
        rw (good, install_engine)
          (send_ready-IsSized _ (λ e h. ground (
            arith,
            configure_engine-audio_buffer (record p.session { model_acquired = true }) x e0,
          )))
  ]

  load_engine-IsSized :
      (env : Surroundings F) (x : F) (p : Process F)
      → IsSized p.session
      → IsSized (load_engine env x p).session
  unfolding load_engine
  load_engine-IsSized env x p v =
      elim (Option-cases (ModelCache.acquire env.init p.session.model_path true p.cache).0) [
        | inl e ↦ rw (e, load_engine) (config_error-IsSized _ _ v)
        | inr (h, e) ↦ rw (e, load_engine) (install_engine-IsSized env h x _ v)
      ]

  configure_session-IsSized :
      (env : Surroundings F) (msg : Json F) (p : Process F)
      → IsSized p.session
      → IsSized (configure_session env msg p).session
  unfolding configure_session
  configure_session-IsSized env msg p v = language_cases (field (codes "language") msg) refl
    where
      language_cases :
          (o : Option (Field F))
          → field (codes "language") msg ≡ o
          → IsSized (configure_session env msg p).session
      language_cases none e = rw (e, configure_session) (load_engine-IsSized env _ p v)
      language_cases (some (Field.string l)) e =
          rw (e, configure_session) (load_engine-IsSized env _ _ (λ x h. v x h))
      language_cases (some (Field.number x)) e =
          rw (e, configure_session) (config_error-IsSized _ p v)
      language_cases (some Field.other) e = rw (e, configure_session) (config_error-IsSized _ p v)

  refuse-IsSized : (a b : Text) (p : Process F) → IsSized p.session → IsSized (refuse a b p).session
  unfolding refuse
  refuse-IsSized a b p v = close_socket-IsSized _ _ (send_error-IsSized a b p.session v)

  pub handle_config-IsSized :
      (env : Surroundings F) (msg : Json F) (p q : Process F)
      → IsSized p.session
      → handle_config env msg p ≡ done q
      → IsSized q.session
  unfolding handle_config
  handle_config-IsSized env msg p q v h = elim (authenticate_cases env msg p) [
    | inl (auth', e, _) ↦
        subst (λ (x : Process F). IsSized x.session) (gone_on e)
          (configure_session-IsSized env msg (record p { auth = auth' }) v)
    | inr (inl (a, b, auth', e)) ↦
        subst (λ (x : Process F). IsSized x.session) (refused e)
          (refuse-IsSized a b (record p { auth = auth' }) v)
    | inr (inr e) ↦ absurd (ground arith)
  ]
    where
      gone_on :
          {auth' : AuthManager}
          → authenticate env msg p ≡ done (true, record p { auth = auth' })
          → configure_session env msg (record p { auth = auth' }) ≡ q
      gone_on e = ground arith

      refused : {r : Process F} → authenticate env msg p ≡ done (false, r) → r ≡ q
      refused e = ground arith

  pub handle_end-IsSized :
      (env : Surroundings F) (s t : Session F) → IsSized s → handle_end env s ≡ done t → IsSized t
  unfolding handle_end
  handle_end-IsSized env s t v h = elim (Option-cases s.engine) [
    | inl off ↦ subst IsSized (ended off h) (finish_transcription-IsSized s v)
    | inr (e, on) ↦ elim (outcome_cases (transcribe_sliding_window env.decode true e)) [
      | inl (what, bad) ↦ absurd (ground arith)
      | inr (res, e', good) ↦
          subst IsSized (decoded e on res e' good)
            (flushed e on res e' (transcribe_forced env.decode e e' res good))
    ]
  ]
    where
      ended : s.engine ≡ none → handle_end env s ≡ done t → finish_transcription s ≡ t
      ended off h = ground arith

      decoded :
          (e : Engine F)
          → s.engine ≡ some e
          → (res : TranscribeResult) (e' : Engine F)
          → transcribe_sliding_window env.decode true e ≡ Outcome.returns (res, e')
          → finish_transcription (record s {
            engine = some e';
            full_transcription = s.full_transcription ++ res.committed_text;
          })
            ≡ t
      decoded e on res e' good = ground arith

      flushed :
          (e : Engine F)
          → s.engine ≡ some e
          → (res : TranscribeResult) (e' : Engine F)
          → (e'.audio_buffer ≡ []) ⊎ (e'.audio_buffer ≡ e.audio_buffer)
          → IsSized (
              finish_transcription (record s {
                engine = some e';
                full_transcription = s.full_transcription ++ res.committed_text;
              }))
      flushed e on res e' (inl emptied) = finish_emptied _ (λ x h. ground arith)
      flushed e on res e' (inr same) =
          finish_transcription-IsSized _ (λ x h. ground (arith, v e on))
