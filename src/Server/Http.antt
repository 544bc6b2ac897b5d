-- ===== src/Server/Http.antt =====
-- src/server.cpp: the endpoints of `handleSession`, with the three `getMetrics` that they call.
pub mod Lines
pub mod Gauges
pub mod Ready
mod Tests
use transcription_api.Prelude.{
  Text, codes, text_eq, ℕ, Bool, not, ◌&&◌, Option, none, some, [], ◌∷◌, ◌++◌, if◌then◌else◌,
}
use transcription_api.Float.{FloatOps}
use transcription_api.ConnectionLimiter.{ConnectionLimiter}
use transcription_api.InferenceLimiter.{InferenceLimiter, has_capacity}
use transcription_api.ModelCache.{ModelCache}
use transcription_api.Session.State.{Session, WhisperOptions, new_session}
use transcription_api.Server.Numbers.{to_string}

abbrev pub newline : Text
newline = 10 ∷ []

-- src/whisper/InferenceLimiter.h
unfoldable pub inference_metrics : InferenceLimiter → Text
inference_metrics l =
    codes "transcription_active_inferences "
    ++ to_string l.active_count
    ++ newline
    ++ codes "transcription_max_inferences "
    ++ to_string l.max_concurrent
    ++ newline

-- src/whisper/ModelCache.h
unfoldable pub cache_metrics : ModelCache → Text
cache_metrics c =
    codes "transcription_model_loaded "
    ++ to_string (elim c.ctx [ none ↦ 0 | some h ↦ 1 ])
    ++ newline
    ++ codes "transcription_model_ref_count "
    ++ to_string c.ref_count
    ++ newline

-- src/server/ConnectionLimiter.cpp
unfoldable pub connection_metrics : ConnectionLimiter → Text
connection_metrics l =
    codes "transcription_active_connections "
    ++ to_string l.total
    ++ newline
    ++ codes "transcription_max_connections "
    ++ to_string l.max_total
    ++ newline

-- The objects that a connection's thread reaches.
pub record Shared : Type 0 where
  pub limiter : ConnectionLimiter
  pub inference : InferenceLimiter
  pub cache : ModelCache

pub record Response : Type 0 where
  pub status : ℕ
  pub content_type : Text
  pub body : Text

unfoldable pub combined : Shared → Text
unfolding inference_metrics cache_metrics connection_metrics
combined s =
    codes "# HELP transcription_active_inferences Number of concurrent inferences"
    ++ newline
    ++ codes "# TYPE transcription_active_inferences gauge"
    ++ newline
    ++ inference_metrics s.inference
    ++ codes
        "# HELP transcription_model_loaded Whether the model is currently in memory (1=yes, 0=no)"
    ++ newline
    ++ codes "# TYPE transcription_model_loaded gauge"
    ++ newline
    ++ cache_metrics s.cache
    ++ codes "# HELP transcription_active_connections Number of active WebSocket connections"
    ++ newline
    ++ codes "# TYPE transcription_active_connections gauge"
    ++ newline
    ++ connection_metrics s.limiter

abbrev quoted : Text → Text
quoted t = b'"' ∷ t ++ b'"' ∷ []

-- `{"status": ...}`
abbrev pub status_body : Text → Text
status_body t = codes "{" ++ quoted (codes "status") ++ codes ": " ++ quoted t ++ codes "}"

-- The answer to a request that is no WebSocket's; `none`: the function returns false.
unfoldable pub handle_http_request : Text → Shared → Option Response
unfolding combined
handle_http_request target s =
    if text_eq target (codes "/metrics")
    then some (record {
      status = 200;
      content_type = codes "text/plain; version=0.0.4";
      body = combined s;
    })
    else if text_eq target (codes "/health")
    then some (record {
      status = 200;
      content_type = codes "application/json";
      body = status_body (codes "ok");
    })
    else if text_eq target (codes "/ready")
    then (let is_busy = not (has_capacity s.inference) in
        some (record {
          status = if is_busy then 503 else 200;
          content_type = codes "application/json";
          body = status_body (if is_busy then codes "busy" else codes "ready");
        }))
    else none

-- A connection until its request has been read: whether the TLS handshake succeeds, and the request's
-- target; `none` is an exception of the read.
pub record Peer : Type 0 where
  pub handshake : Bool
  pub request : Option Text

-- How `handleSession` goes on: it answers, it makes a session, which then runs, or it logs an exception.
pub data Ending (F : Type 0) : Type 0 where
  answered : Response → Ending F
  upgraded : Session F → Ending F
  failed : Ending F

module _ {F : Type 0} ⦃fl : FloatOps F⦄ where
  unfoldable pub handle_request :
      Text → Text → WhisperOptions F → ℕ → Shared → Option Text → Ending F
  handle_request session_id model_path o now s none = failed
  handle_request session_id model_path o now s (some target) = elim (handle_http_request target s) [
    | some r ↦ answered r
    | none ↦ upgraded (new_session session_id model_path o now)
  ]

  -- The body of the thread, with TLS or without. The destructor of its guard comes behind each of the
  -- endings: the `hang_up` of a connection.
  unfoldable pub handle_session :
      Bool → Peer → Text → Text → WhisperOptions F → ℕ → Shared → Ending F
  unfolding handle_request
  handle_session use_ssl peer session_id model_path o now s =
      if use_ssl && not peer.handshake
      then failed
      else handle_request session_id model_path o now s peer.request
