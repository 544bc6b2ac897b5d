-- ===== src/Session/Steps/Tests.antt =====
-- The theorems on the steps of a session, at a run of one.
use transcription_api.Prelude.{
  codes, Text_discrete, pos, ℕ, ◌-◌, ◌≤◌, ◌≡◌, refl, true, false, Option, none, some, List, [], ◌∷◌,
  length,
}
use transcription_api.Float.{coarse}
use transcription_api.AudioPreprocessor.{process, gain, filter_loop, filter_sample}
use transcription_api.Engine
use transcription_api.Engine.{Engine, initial_engine, max_buffer_samples}
use transcription_api.ModelCache
use transcription_api.Auth.{auth_manager, is_auth_enabled, validate}
use transcription_api.Session.State.{
  Message, transcription, Process, done, Json, object, string, new_session, send_message,
  send_ready, close_socket,
}
use transcription_api.Session.Receive.{
  configure_engine, handle_json_message, dispatch, handle_config, authenticate, configure_session,
  load_engine, install_engine, handle_binary_message, process_audio_chunk, handle_end,
  finish_transcription, floats_of,
}
use transcription_api.Session.Flush.{size_sub, min_buffer_samples}
use transcription_api.Session.Samples.{
  options, model, one_word, env, connected, config_message, after,
}
use transcription_api.Session.Steps.{Step, Reach, text, binary, begin, next}
use transcription_api.Session.Steps.Underflow.{no_underflow}
use transcription_api.Session.Steps.Access.{LetIn, configured_needs_auth}

abbrev ready : Process ℕ
ready = after (handle_json_message env (some config_message) connected)

config_done : handle_json_message env (some config_message) connected ≡ done ready
unfolding handle_json_message Text_discrete dispatch handle_config authenticate is_auth_enabled
    auth_manager validate
config_done = refl

config_step : Step one_word connected ready
unfolding new_session
config_step = text env (some config_message) refl refl config_done

starts_closed : connected.session.configured ≡ false
unfolding new_session
starts_closed = refl

ready_configured : ready.session.configured ≡ true
unfolding handle_json_message Text_discrete dispatch handle_config authenticate is_auth_enabled
    auth_manager validate configure_session load_engine ModelCache.acquire install_engine
    Engine.engine send_ready send_message new_session
ready_configured = refl

configured_needs_auth_example : LetIn config_step
configured_needs_auth_example =
    configured_needs_auth one_word connected ready config_step starts_closed ready_configured

abbrev frame : List ℕ
frame = 1 ∷ 0 ∷ 0 ∷ 0 ∷ 2 ∷ 0 ∷ 0 ∷ 0 ∷ []

abbrev fed : Process ℕ
fed = record ready { session = handle_binary_message frame 2000 ready.session }

abbrev engine_of : Option (Engine ℕ) → Engine ℕ
engine_of none = initial_engine
engine_of (some e) = e

ready_open : ready.session.socket_open ≡ true
unfolding handle_json_message Text_discrete dispatch handle_config authenticate is_auth_enabled
    auth_manager validate configure_session load_engine ModelCache.acquire install_engine
    Engine.engine send_ready send_message new_session
ready_open = refl

fed_engine : fed.session.engine ≡ some (engine_of fed.session.engine)
unfolding handle_json_message Text_discrete dispatch handle_config authenticate is_auth_enabled
    auth_manager validate configure_session load_engine ModelCache.acquire install_engine
    Engine.engine send_ready send_message new_session handle_binary_message process_audio_chunk
    Engine.process_audio_chunk configure_engine Engine.set_logprob_threshold
    Engine.set_no_speech_threshold Engine.set_temperature_inc Engine.set_temperature
    Engine.set_vad_threshold Engine.set_beam_size Engine.set_threads Engine.set_language
    initial_engine
fed_engine = refl

fed_reached : Reach one_word connected fed
fed_reached = next (next begin config_step) (binary frame 2000 ready_open refl)

no_underflow_example :
    let e = engine_of fed.session.engine in
    (length e.audio_buffer ≤ max_buffer_samples)
    × (min_buffer_samples ≤ length e.audio_buffer
        → (fed.session.last_transcribed_size ≤ length e.audio_buffer)
          × (size_sub (length e.audio_buffer) fed.session.last_transcribed_size
              ≡ length e.audio_buffer - fed.session.last_transcribed_size))
no_underflow_example =
    no_underflow one_word (codes "s") model options 0 connected fed
      (λ p b. ((codes " si", refl, λ e. cc), tt)) refl fed_reached (engine_of fed.session.engine)
      fed_engine

abbrev end_message : Json ℕ
end_message = object ((codes "type", string (codes "end")) ∷ [])

abbrev ended : Process ℕ
ended = after (handle_json_message env (some end_message) fed)

-- The final message of a session that heard one word.
ended_run :
    (fed.session.socket_open ≡ true)
    × (handle_json_message env (some end_message) fed ≡ done ended)
    × (ended.session.outbox
        ≡ Message.ready (codes "s") (codes "es") (pos 5) ∷ transcription (codes " si") true ∷ [])
unfolding handle_json_message Text_discrete dispatch handle_config authenticate is_auth_enabled
    auth_manager validate configure_session load_engine ModelCache.acquire install_engine
    Engine.engine send_ready send_message new_session handle_binary_message process_audio_chunk
    Engine.process_audio_chunk configure_engine Engine.set_logprob_threshold
    Engine.set_no_speech_threshold Engine.set_temperature_inc Engine.set_temperature
    Engine.set_vad_threshold Engine.set_beam_size Engine.set_threads Engine.set_language
    initial_engine handle_end finish_transcription close_socket Engine.transcribe_sliding_window
    Engine.append_capped process gain filter_loop floats_of filter_sample
ended_run = (refl, refl, refl)
