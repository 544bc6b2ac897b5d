-- ===== src/Session/Run.antt =====
-- src/server/StreamingSession.h: `run` and the thread of `flushLoop`, on a schedule of what the reads give
-- and when the flush thread wakes up.
pub mod Rules
pub mod Ends
pub mod Faults
pub mod Balance
pub mod References
mod Tests
use transcription_api.Prelude.{Text, ℕ, Bool, true, not, Option, List, [], ◌∷◌, if◌then◌else◌}
use transcription_api.Float.{FloatOps}
use transcription_api.ModelCache.{ModelCache}
use transcription_api.InferenceLimiter.{InferenceLimiter}
use transcription_api.Auth.{AuthManager}
use transcription_api.Session.State.{
  Process, Surroundings, done, throws, faults, Json, release_model,
}
use transcription_api.Session.Receive.{handle_binary_message, handle_json_message}
use transcription_api.Session.Flush.{flush_cycle}

-- The next that happens: `ws_.read` gives a text message or a frame, or it throws; the flush thread has
-- slept 200 ms; other sessions have used the shared objects.
pub data Event (F : Type 0) : Type 0 where
  receives_text : Surroundings F → Option (Json F) → Event F
  receives_frame : ℕ → List ℕ → Event F
  read_fails : ℕ → Event F
  wakes : Surroundings F → Bool → Event F
  others_move : ModelCache → InferenceLimiter → AuthManager → Event F

-- `run` is in its loop, or it has returned; an exception has left the flush thread, which ends the
-- program, or a null pointer was dereferenced.
pub data Life (F : Type 0) : Type 0 where
  reading : Process F → Life F
  returned : Process F → Life F
  terminated : Text → Process F → Life F
  crashed : Life F

module _ {F : Type 0} ⦃fl : FloatOps F⦄ where
  -- An exception has ended the loop of `run`.
  unfoldable pub leave_loop : ℕ → Process F → Life F
  leave_loop now p = returned (release_model now p)

  -- One round of `flushLoop`, while `flush_running_`; `go_on` is where `run` stands.
  unfoldable pub flush_round : (Process F → Life F) → Surroundings F → Bool → Process F → Life F
  flush_round go_on env locked p =
      if not p.session.flush_running then go_on p else elim (flush_cycle env locked p) [
        | done q ↦ go_on q
        | throws what q ↦ terminated what q
        | faults ↦ crashed
      ]

  -- A read on a stream that is closed throws.
  unfoldable pub on_event : Event F → Life F → Life F
  on_event _ (terminated what p) = terminated what p
  on_event _ crashed = crashed
  on_event (receives_text env msg) (reading p) =
      if not p.session.socket_open
      then leave_loop env.now p
      else elim (handle_json_message env msg p) [
        | done q ↦ reading q
        | throws what q ↦ leave_loop env.now q
        | faults ↦ crashed
      ]
  on_event (receives_frame now data_bytes) (reading p) =
      if not p.session.socket_open
      then leave_loop now p
      else reading (record p { session = handle_binary_message data_bytes now p.session })
  on_event (read_fails now) (reading p) = leave_loop now p
  on_event (wakes env locked) (reading p) = flush_round reading env locked p
  on_event (wakes env locked) (returned p) = flush_round returned env locked p
  on_event (others_move cache limiter auth) (reading p) =
      reading (record p { cache = cache; limiter = limiter; auth = auth })
  on_event (others_move cache limiter auth) (returned p) =
      returned (record p { cache = cache; limiter = limiter; auth = auth })
  on_event _ (returned p) = returned p

  unfoldable pub live_on : List (Event F) → Life F → Life F
  live_on [] life = life
  live_on (e ∷ es) life = live_on es (on_event e life)

  -- `run` up to its loop: the handshake may throw, and else the flush thread starts.
  unfoldable pub begin_run : ℕ → Bool → Process F → Life F
  begin_run now accepts p =
      if accepts
      then reading (record p { session = record p.session { flush_running = true } })
      else leave_loop now p

  unfoldable pub run : ℕ → Bool → List (Event F) → Process F → Life F
  run now accepts events p = live_on events (begin_run now accepts p)
