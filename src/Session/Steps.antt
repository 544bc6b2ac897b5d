-- ===== src/Session/Steps.antt =====
-- The two threads of a session, in any interleaving: the receive loop of `run` and the flush thread,
-- while other sessions use the shared objects.
pub mod Sizes
pub mod Outcomes
pub mod Underflow
pub mod Access
pub mod Authority
pub mod Tokens
pub mod Holds
pub mod Effects
pub mod References
pub mod Armed
mod Tests
use transcription_api.Prelude.{Text, ℕ, ◌≡◌, Bool, true, Option, List}
use transcription_api.Float.{FloatOps}
use transcription_api.Engine.{Decoder}
use transcription_api.ModelCache.{ModelCache}
use transcription_api.InferenceLimiter.{InferenceLimiter}
use transcription_api.Auth.{AuthManager}
use transcription_api.Session.State.{Process, Surroundings, done, throws, Json, release_model}
use transcription_api.Session.Receive.{handle_binary_message, handle_json_message}
use transcription_api.Session.Flush.{flush_cycle}

module _ {F : Type 0} ⦃fl : FloatOps F⦄ where
  -- An exception ends the receive loop, which then releases the model; that nothing is read behind it is
  -- not asked for here. A read succeeds only on a stream that is open. A handler is one step, with its
  -- sends behind `state_mutex_`; a flush thread that throws ends the program, so it makes no step.
  pub data Step (decode : Decoder F) (p q : Process F) : Type 0 where
    text :
        (env : Surroundings F) (msg : Option (Json F))
        → env.decode ≡ decode
        → p.session.socket_open ≡ true
        → handle_json_message env msg p ≡ done q
        → Step decode p q
    text_throws :
        (env : Surroundings F) (msg : Option (Json F)) (what : Text) (p' : Process F)
        → env.decode ≡ decode
        → p.session.socket_open ≡ true
        → handle_json_message env msg p ≡ throws what p'
        → q ≡ release_model env.now p'
        → Step decode p q
    binary :
        (data_bytes : List ℕ) (now : ℕ)
        → p.session.socket_open ≡ true
        → q ≡ record p { session = handle_binary_message data_bytes now p.session }
        → Step decode p q
    closed : (now : ℕ) → q ≡ release_model now p → Step decode p q
    flush :
        (env : Surroundings F) (locked : Bool)
        → env.decode ≡ decode
        → flush_cycle env locked p ≡ done q
        → Step decode p q
    others :
        (cache : ModelCache) (limiter : InferenceLimiter) (auth : AuthManager)
        → q ≡ record p { cache = cache; limiter = limiter; auth = auth }
        → Step decode p q

  pub data Reach (decode : Decoder F) (p : Process F) : Process F → Type 0 where
    begin : Reach decode p p
    next : {q r : Process F} → Reach decode p q → Step decode q r → Reach decode p r
