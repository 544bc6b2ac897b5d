-- ===== src/Server/Accept.antt =====
-- src/server.cpp: the accept loop of `main` and the handler of SIGINT and SIGTERM, which runs in the thread
-- of `ioc`, between any two steps of the loop. TLS and the spawned threads are in Server/Http.antt.
pub mod Shutdown
pub mod Slots
mod Tests
use transcription_api.Prelude.{
  Text, ℕ, ◌+◌, Bool, true, false, not, List, [], ◌∷◌, ◌++◌, if◌then◌else◌,
}
use transcription_api.ConnectionLimiter.{
  ConnectionLimiter, Doorman, try_acquire, release, opened, hang_up,
}
use transcription_api.ConnectionLimiter
use transcription_api.Server.Tracker.{Tracker, add, remove, shutdown_all}

-- Where the loop stands: before the test of `is_open`, in `accept`, behind the loop, or left by an
-- exception, which ends `main`.
pub data Phase : Type 0 where
  testing accepting joining broken : Phase

pub record Acceptor : Type 0 where
  pub is_open : Bool
  pub phase : Phase
  -- whether the signal handler waits, which it does once
  pub waits : Bool
  pub doorman : Doorman
  -- `session_threads.size()`
  pub threads : ℕ
  pub tracker : Tracker
  -- the sessions whose `shutdown` was called
  pub cancelled : List ℕ

-- What `accept` gives: `operation_aborted`, `interrupted`, another error, a connection that is gone already,
-- so that `remote_endpoint` throws, or a connection from an address, with whether its thread can be
-- started.
pub data Accepted : Type 0 where
  aborted interrupted failed vanished : Accepted
  client : Text → Bool → Accepted

-- A signal; the two steps of the loop; the constructor and the destructor of a session; the end of the
-- i-th live connection's thread.
pub data Event : Type 0 where
  signalled tested : Event
  accept_returns : Accepted → Event
  session_created session_destroyed thread_ends : ℕ → Event

unfoldable pub on_client : Text → Bool → Acceptor → Acceptor
on_client ip starts a =
    let (admitted, l) = try_acquire ip a.doorman.limiter in
    let rejected : Acceptor = record a {
      phase = testing;
      doorman = record a.doorman { limiter = l };
    } in
    let started : Acceptor = record a {
      phase = testing;
      doorman = record { limiter = l; guards = ip ∷ a.doorman.guards };
      threads = a.threads + 1;
    } in
    let not_started : Acceptor = record a {
      phase = testing;
      doorman = record a.doorman { limiter = release ip l };
    } in
    if not admitted then rejected else if starts then started else not_started

unfoldable pub on_accept : Accepted → Acceptor → Acceptor
unfolding on_client
on_accept aborted a = record a { phase = joining }
on_accept interrupted a = record a { phase = joining }
on_accept failed a = record a { phase = testing }
on_accept vanished a = record a { phase = broken }
on_accept (client ip starts) a = on_client ip starts a

unfoldable pub on_signal : Acceptor → Acceptor
on_signal a = record a {
  is_open = false;
  waits = false;
  cancelled = a.cancelled ++ shutdown_all a.tracker;
}

-- An event that cannot happen changes nothing.
unfoldable pub step : Acceptor → Event → Acceptor
unfolding on_accept on_signal
step a signalled = if a.waits then on_signal a else a
step a tested = elim a.phase [
  | testing ↦ record a { phase = if a.is_open then accepting else joining }
  | accepting ↦ a
  | joining ↦ a
  | broken ↦ a
]
step a (accept_returns r) = elim a.phase [
  | testing ↦ a
  | accepting ↦ on_accept r a
  | joining ↦ a
  | broken ↦ a
]
step a (session_created n) = record a { tracker = add n a.tracker }
step a (session_destroyed n) = record a { tracker = remove n a.tracker }
step a (thread_ends i) = record a { doorman = ConnectionLimiter.step a.doorman (hang_up i) }

unfoldable pub run : Acceptor → List Event → Acceptor
run a [] = a
run a (e ∷ es) = run (step a e) es

-- The state at the first test of the loop.
unfoldable pub listening : ℕ → ℕ → Acceptor
listening max_connections max_connections_per_ip = record {
  is_open = true;
  phase = testing;
  waits = true;
  doorman = opened max_connections max_connections_per_ip;
  threads = 0;
  tracker = [];
  cancelled = [];
}
