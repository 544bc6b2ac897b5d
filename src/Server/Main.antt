-- ===== src/Server/Main.antt =====
-- src/server.cpp: the whole of `main`, and how its process ends.
pub mod Status
mod Tests
use transcription_api.Prelude.{Text, ℤ, ℕ, Option, none, some, List}
use transcription_api.Prelude.Dict.{Dict}
use transcription_api.Float.{FloatOps}
use transcription_api.Server.Args.{configured, usage, bad_number, unknown, read_config}
use transcription_api.Server.Start.{Host, start}
use transcription_api.Server.Accept.{testing, accepting, joining, broken, Acceptor, Event, run}
use transcription_api.Server.Join.{Exit, returned, forced, still_polling, shut_down}

-- `exit`, or the return of `main`; the shutdown, with its time; an exception in the accept loop, which
-- leaves the scope of `ioc_thread`, a thread that nobody has joined; or the loop goes on.
pub data Ended : Type 0 where
  exits : ℕ → Ended
  shuts_down : Exit → Ended
  aborts : Ended
  accepts_on : Acceptor → Ended

-- The status that the process reports; `none`: it is aborted, or runs on.
unfoldable pub exit_status : Ended → Option ℕ
exit_status (exits n) = some n
exit_status (shuts_down (returned t)) = some 0
exit_status (shuts_down (forced t)) = some 0
exit_status (shuts_down still_polling) = none
exit_status aborts = none
exit_status (accepts_on a) = none

-- Behind the accept loop.
unfoldable pub behind_loop : ℤ → List (Option ℕ) → Acceptor → Ended
behind_loop timeout ends a = elim a.phase [
  | testing ↦ accepts_on a
  | accepting ↦ accepts_on a
  | joining ↦ shuts_down (shut_down timeout ends)
  | broken ↦ aborts
]

module _ {F : Type 0} ⦃fl : FloatOps F⦄ where
  -- What happens to the accept loop, and when the threads end behind it, are arguments.
  unfoldable pub main :
      Host
      → (Text → Option F)
      → (Text → Option Text)
      → Dict Text
      → List Text
      → List Event
      → List (Option ℕ)
      → Ended
  main host stof files vars args events ends = elim (read_config stof files vars args) [
    | usage ↦ exits 0
    | unknown arg ↦ exits 1
    | bad_number ↦ exits 1
    | configured config ↦ elim (start host config) [
      | none ↦ exits 1
      | some r ↦ behind_loop config.shutdown_timeout_sec ends (run r.acceptor events)
    ]
  ]
