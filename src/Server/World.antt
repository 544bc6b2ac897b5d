-- ===== src/Server/World.antt =====
-- src/server.cpp: the running server. Every thread of `handleSession` runs a session of its own, and all of
-- them share the authentication, the model cache and the inference limiter.
pub mod Access
pub mod Backed
pub mod Backing
pub mod Kept
pub mod Decoding
pub mod Model
mod Tests
use transcription_api.Prelude.{Text, ℕ, zero, suc, ◌≡◌, some, List, [], ◌∷◌, ◌++◌, get_elem?}
use transcription_api.Float.{FloatOps}
use transcription_api.Engine.{Decoder}
use transcription_api.ModelCache.{ModelCache}
use transcription_api.ModelCache
use transcription_api.InferenceLimiter.{InferenceLimiter}
use transcription_api.Auth.{AuthManager}
use transcription_api.Session.State.{Session, Process, WhisperOptions, new_session, destroy_session}
use transcription_api.Session.Steps.{Step}
use transcription_api.Session.Steps.Authority.{IsOwn}
use transcription_api.Server.Start.{Started}

pub record World (F : Type 0) : Type 0 where
  pub auth : AuthManager
  pub cache : ModelCache
  pub inference : InferenceLimiter
  pub sessions : List (Session F)
  -- what `handleSession` hands to each session
  pub model_path : Text
  pub options : WhisperOptions F

abbrev pub replaced {ℓ} : {A : Type ℓ} → ℕ → A → List A → List A
replaced i x [] = []
replaced zero x (y ∷ ys) = x ∷ ys
replaced (suc i) x (y ∷ ys) = y ∷ replaced i x ys

abbrev pub dropped {ℓ} : {A : Type ℓ} → ℕ → List A → List A
dropped i [] = []
dropped zero (y ∷ ys) = ys
dropped (suc i) (y ∷ ys) = y ∷ dropped i ys

module _ {F : Type 0} where
  -- What the threads of one session reach.
  abbrev pub seen_by : Session F → World F → Process F
  seen_by s w = record { session = s; cache = w.cache; limiter = w.inference; auth = w.auth }

  abbrev pub after_step : ℕ → Process F → World F → World F
  after_step i q w = record w {
    auth = q.auth;
    cache = q.cache;
    inference = q.limiter;
    sessions = replaced i q.session w.sessions;
  }

  -- The server before its first connection.
  abbrev pub opening : Started F → World F
  opening r = record {
    auth = r.auth;
    cache = r.cache;
    inference = r.inference;
    sessions = [];
    model_path = r.model_path;
    options = r.options;
  }

module _ {F : Type 0} ⦃fl : FloatOps F⦄ where
  -- A connection's thread makes its session; a session makes a step of its own; a session ends and is
  -- destroyed; a timer of the model cache fires.
  pub data Move (decode : Decoder F) (w x : World F) : Type 0 where
    opens :
        (session_id : Text) (now : ℕ)
        → x ≡ record w {
          sessions = w.sessions ++ new_session session_id w.model_path w.options now ∷ [];
        }
        → Move decode w x
    moves :
        (i : ℕ) (s : Session F) (q : Process F) (step : Step decode (seen_by s w) q)
        → get_elem? w.sessions i ≡ some s
        → IsOwn step
        → x ≡ after_step i q w
        → Move decode w x
    ends :
        (i : ℕ) (s : Session F) (now : ℕ)
        → get_elem? w.sessions i ≡ some s
        → x ≡ record (after_step i (destroy_session now (seen_by s w)) w) {
          sessions = dropped i w.sessions;
        }
        → Move decode w x
    fires : x ≡ record w { cache = ModelCache.timer_body w.cache } → Move decode w x

  pub data Reach (decode : Decoder F) (w : World F) : World F → Type 0 where
    begin : Reach decode w w
    next : {x y : World F} → Reach decode w x → Move decode x y → Reach decode w y
