-- ===== src/Server/Accept/Tests.antt =====
-- A server with two slots: one connection's thread cannot be started, one is accepted, then a signal.
use transcription_api.Prelude.{
  Text, codes, Text_discrete, ◌+◌, ◌≤◌, ◌≡◌, refl, true, false, List, [], ◌∷◌, ◌++◌, length,
}
use transcription_api.ConnectionLimiter.{opened}
use transcription_api.ConnectionLimiter
use transcription_api.ConnectionLimiter.Holders.{count}
use transcription_api.Server.Accept.{
  testing, accepting, joining, broken, Acceptor, Accepted, vanished, client, Event, signalled,
  tested, accept_returns, session_created, step, run, listening,
}
use transcription_api.Server.Accept.Shutdown.{
  steps_left, loop_steps, shutdown_terminates, late_sessions_run_on,
}
use transcription_api.Server.Accept.Slots.{history, accept_refines}

abbrev events : List Event
events =
    tested
    ∷ accept_returns (client (codes "a") false)
    ∷ tested
    ∷ accept_returns (client (codes "a") true)
    ∷ session_created 7
    ∷ tested
    ∷ []

-- The signal arrives while the loop is in `accept`, and a second client is accepted all the same.
abbrev later : List Event
later = accept_returns (client (codes "b") true) ∷ session_created 8 ∷ tested ∷ []

unfoldable before : Acceptor
unfolding run listening
before = run (listening 2 1) events

before_slots : before.doorman.guards ≡ codes "a" ∷ []
unfolding before step ConnectionLimiter.try_acquire opened ConnectionLimiter.release Text_discrete
before_slots = refl

ended : (run before (signalled ∷ later)).phase ≡ joining
unfolding before run step ConnectionLimiter.try_acquire opened ConnectionLimiter.release
    Text_discrete
ended = refl

-- A client that resets its connection at once ends the server.
reset_ends_server : (run before (accept_returns vanished ∷ [])).phase ≡ broken
unfolding before run step ConnectionLimiter.try_acquire opened ConnectionLimiter.release
    Text_discrete
reset_ends_server = refl

shutdown_terminates_example :
    let b = run before (signalled ∷ later) in
    (loop_steps before (signalled ∷ later) + steps_left b.phase ≤ 2)
    × (b.phase ≡ testing → (step b tested).phase ≡ joining)
    × (b.phase ≡ accepting → (r : Accepted) → steps_left (step b (accept_returns r)).phase ≤ 1)
unfolding before run step ConnectionLimiter.try_acquire opened ConnectionLimiter.release
    Text_discrete
shutdown_terminates_example = shutdown_terminates before later refl

late_sessions_run_on_example :
    (run before (signalled ∷ later)).cancelled ≡ before.cancelled ++ before.tracker
unfolding before run step ConnectionLimiter.try_acquire opened ConnectionLimiter.release
    Text_discrete
late_sessions_run_on_example = late_sessions_run_on before later refl

accept_refines_example :
    let b = run (listening 2 1) events in
    (b.doorman ≡ ConnectionLimiter.run (opened 2 1) (history (listening 2 1) events))
    × (b.doorman.limiter.total ≡ length b.doorman.guards)
    × (length b.doorman.guards ≤ 2)
    × ((ip : Text) → count ip b.doorman.guards ≤ 1)
accept_refines_example = accept_refines 2 1 events
