-- ===== src/Session/State.antt =====
-- src/server/StreamingSession.h: the members, the outgoing messages, and what every handler uses.
use transcription_api.Prelude.{
  Text, codes, ℤ, ℕ, Bool, true, false, Option, none, List, [], ◌∷◌, ◌++◌, if◌then◌else◌,
}
use transcription_api.Prelude.Dict.{Dict, lookup}
use transcription_api.Float.{FloatOps}
use transcription_api.Engine.{Engine, Decoder}
use transcription_api.ModelCache.{ModelCache, Loader}
use transcription_api.ModelCache
use transcription_api.InferenceLimiter.{InferenceLimiter}
use transcription_api.Auth.{AuthManager, ApiAuthConfig, AuthResult}

pub data Message : Type 0 where
  error : Text → Text → Message
  ready : Text → Text → ℤ → Message
  warning : Text → Text → Message
  -- the text, and `is_final`
  transcription : Text → Bool → Message

pub data CloseReason : Type 0 where
  normal : CloseReason
  policy_error : Text → CloseReason

pub record Session (F : Type 0) : Type 0 where
  pub socket_open : Bool
  pub outbox : List Message
  pub closes : List CloseReason
  pub model_path : Text
  pub engine : Option (Engine F)
  pub session_id : Text
  pub configured : Bool
  pub buffer_overflowed : Bool
  pub last_transcribed_size : ℕ
  pub language : Text
  pub whisper_beam_size : ℤ
  pub whisper_threads : ℤ
  pub whisper_initial_prompt : Text
  pub session_timeout_sec : ℤ
  pub whisper_temperature : F
  pub whisper_temperature_inc : F
  pub whisper_no_speech_thold : F
  pub whisper_logprob_thold : F
  pub model_acquired : Bool
  pub bytes_received_in_window : ℕ
  pub rate_limit_start : ℕ
  pub flush_running : Bool
  pub last_audio_time : ℕ
  pub full_transcription : Text
  pub raw_transcription : Text

-- The session and the shared objects that its handlers reach.
pub record Process (F : Type 0) : Type 0 where
  pub session : Session F
  pub cache : ModelCache
  pub limiter : InferenceLimiter
  pub auth : AuthManager

-- The parameters of the constructor that `handleSession` passes on.
pub record WhisperOptions (F : Type 0) : Type 0 where
  pub beam_size : ℤ
  pub threads : ℤ
  pub initial_prompt : Text
  pub session_timeout_sec : ℤ
  pub temperature : F
  pub temperature_inc : F
  pub no_speech_thold : F
  pub logprob_thold : F

-- What surrounds one call: the steady clock in nanoseconds, and again when the authentication API has
-- answered, that API, whisper.cpp.
pub record Surroundings (F : Type 0) : Type 0 where
  pub now : ℕ
  pub answered : ℕ
  pub ask : ApiAuthConfig → Text → AuthResult
  pub init : Loader
  pub init_state : ℕ → Option ℕ
  pub decode : Decoder F

-- A handler ends, or an exception leaves it; `faults` is a null pointer dereference.
pub data Handled {ℓ} (A : Type ℓ) : Type ℓ where
  done : A → Handled A
  throws : Text → A → Handled A
  faults : Handled A

-- A parsed message, as far as the handlers look into it.
pub data Field (F : Type 0) : Type 0 where
  string : Text → Field F
  number : F → Field F
  other : Field F

pub data Json (F : Type 0) : Type 0 where
  object : Dict (Field F) → Json F
  not_object : Json F

-- `contains`, with the value.
abbrev pub field : {F : Type 0} → Text → Json F → Option (Field F)
field k (object d) = lookup k d
field k not_object = none

module _ {F : Type 0} ⦃fl : FloatOps F⦄ where
  -- The constructor: the stream is the one that `handleSession` hands over.
  unfoldable pub new_session : Text → Text → WhisperOptions F → ℕ → Session F
  new_session session_id model_path o now = record {
    socket_open = true;
    outbox = [];
    closes = [];
    model_path = model_path;
    engine = none;
    session_id = session_id;
    configured = false;
    buffer_overflowed = false;
    last_transcribed_size = 0;
    language = codes "es";
    whisper_beam_size = o.beam_size;
    whisper_threads = o.threads;
    whisper_initial_prompt = o.initial_prompt;
    session_timeout_sec = o.session_timeout_sec;
    whisper_temperature = o.temperature;
    whisper_temperature_inc = o.temperature_inc;
    whisper_no_speech_thold = o.no_speech_thold;
    whisper_logprob_thold = o.logprob_thold;
    model_acquired = false;
    bytes_received_in_window = 0;
    rate_limit_start = now;
    flush_running = false;
    last_audio_time = now;
    full_transcription = [];
    raw_transcription = [];
  }

module _ {F : Type 0} where
  -- `sendMessage`: an exception is caught and logged. A write on a closed stream throws; one on an open
  -- stream, and `dump`, are taken to succeed.
  unfoldable pub send_message : Message → Session F → Session F
  send_message msg s = if s.socket_open then record s { outbox = s.outbox ++ msg ∷ [] } else s

  unfoldable pub send_error : Text → Text → Session F → Session F
  send_error message code = send_message (error message code)

  unfoldable pub send_ready : Session F → Session F
  send_ready s = send_message (ready s.session_id s.language s.whisper_beam_size) s

  -- `ws_.close`
  unfoldable pub close_socket : CloseReason → Session F → Session F
  close_socket reason s =
      if s.socket_open
      then record s { socket_open = false; closes = s.closes ++ reason ∷ [] }
      else s

  -- `releaseModel`
  unfoldable pub release_model : ℕ → Process F → Process F
  release_model now p =
      if p.session.model_acquired
      then record p {
        session = record p.session { engine = none; model_acquired = false };
        cache = ModelCache.release now p.cache;
      }
      else p

  -- The destructor, behind the join of the flush thread.
  unfoldable pub destroy_session : ℕ → Process F → Process F
  destroy_session now p =
      release_model now (record p { session = record p.session { flush_running = false } })
