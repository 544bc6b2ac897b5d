-- ===== src/Server/Accept/Slots.antt =====
-- The slots of the connections through the accept loop, as a history of the limiter.
use transcription_api.Prelude.{
  Text, ℕ, ◌≤◌, ◌≡◌, refl, sym, ap, ◌∙◌, subst, inl, inr, Bool, not, ◌&&◌, List, [], ◌∷◌, ◌++◌,
  arith, if◌then◌else◌, Bool-cases, length,
}
use transcription_api.ConnectionLimiter.{Doorman, try_acquire, connect, hang_up, opened}
use transcription_api.ConnectionLimiter
use transcription_api.ConnectionLimiter.Holders.{count}
use transcription_api.ConnectionLimiter.History.{run_limits}
use transcription_api.Server.Accept.Shutdown.{Phase-cases}
use transcription_api.Server.Accept.{
  Phase, accepting, Acceptor, aborted, interrupted, failed, vanished, client, Event, signalled,
  tested, accept_returns, session_created, session_destroyed, thread_ends, step, run, on_accept,
  on_signal, on_client, listening,
}

-- What a connection is to the limiter: it connects, and where its thread cannot be started, it hangs up.
abbrev pub client_history : Text → Bool → Doorman → List ConnectionLimiter.Event
client_history ip starts d =
    if (try_acquire ip d.limiter).0 && not starts
    then connect ip ∷ hang_up 0 ∷ []
    else connect ip ∷ []

-- What an event is to the limiter.
abbrev pub event_history : Phase → Event → Doorman → List ConnectionLimiter.Event
event_history accepting (accept_returns (client ip starts)) d = client_history ip starts d
event_history _ (thread_ends i) d = hang_up i ∷ []
event_history _ _ d = []

abbrev pub history : Acceptor → List Event → List ConnectionLimiter.Event
history a [] = []
history a (e ∷ es) = event_history a.phase e a.doorman ++ history (step a e) es

on_client-history :
    (ip : Text) (starts : Bool) (a : Acceptor)
    → (on_client ip starts a).doorman
      ≡ ConnectionLimiter.run a.doorman (client_history ip starts a.doorman)
unfolding on_client ConnectionLimiter.run ConnectionLimiter.step
on_client-history ip starts a = elim (Bool-cases (try_acquire ip a.doorman.limiter).0) [
  | inl e ↦ elim (Bool-cases starts) [ inl y ↦ ground (arith, e, y) | inr n ↦ ground (arith, e, n) ]
  | inr e ↦ ground (arith, e)
]

run-append :
    (d : Doorman) (h k : List ConnectionLimiter.Event)
    → ConnectionLimiter.run d (h ++ k) ≡ ConnectionLimiter.run (ConnectionLimiter.run d h) k
unfolding ConnectionLimiter.run
run-append d [] k = refl
run-append d (e ∷ h) k = run-append (ConnectionLimiter.step d e) h k

step-history :
    (a : Acceptor) (e : Event)
    → (step a e).doorman ≡ ConnectionLimiter.run a.doorman (event_history a.phase e a.doorman)
unfolding step on_accept on_signal ConnectionLimiter.run
step-history a signalled = ground (arith, Phase-cases a.phase)
step-history a tested = ground (arith, Phase-cases a.phase)
step-history a (accept_returns aborted) = ground (arith, Phase-cases a.phase)
step-history a (accept_returns interrupted) = ground (arith, Phase-cases a.phase)
step-history a (accept_returns failed) = ground (arith, Phase-cases a.phase)
step-history a (accept_returns vanished) = ground (arith, Phase-cases a.phase)
step-history a (session_created n) = ground (arith, Phase-cases a.phase)
step-history a (session_destroyed n) = ground (arith, Phase-cases a.phase)
step-history a (thread_ends i) = ground (arith, Phase-cases a.phase)
step-history a (accept_returns (client ip starts)) =
    ground (arith, Phase-cases a.phase, on_client-history ip starts a)

run-history :
    (a : Acceptor) (es : List Event)
    → (run a es).doorman ≡ ConnectionLimiter.run a.doorman (history a es)
unfolding run ConnectionLimiter.run
run-history a [] = refl
run-history a (e ∷ es) =
    run-history (step a e) es
    ∙ ap (λ d. ConnectionLimiter.run d (history (step a e) es)) (step-history a e)
    ∙ sym (run-append a.doorman (event_history a.phase e a.doorman) (history (step a e) es))

-- The accept loop, with its errors, threads that cannot be started, signals and sessions, does to the
-- limiter what a history of plain connections and hang-ups does. So at any time the slots taken are the
-- live connections', within both limits: no path of the loop loses a slot or gives one back twice.
pub accept_refines :
    (m n : ℕ) (es : List Event)
    → let b = run (listening m n) es in
      (b.doorman ≡ ConnectionLimiter.run (opened m n) (history (listening m n) es))
      × (b.doorman.limiter.total ≡ length b.doorman.guards)
      × (length b.doorman.guards ≤ m)
      × ((ip : Text) → count ip b.doorman.guards ≤ n)
unfolding listening
accept_refines m n es =
    let same = run-history (listening m n) es in
    let (counted, within, shared) =
      subst
        (λ (d : Doorman).
          (d.limiter.total ≡ length d.guards)
          × (length d.guards ≤ m)
          × ((ip : Text) → count ip d.guards ≤ n))
        (sym same) (run_limits m n (history (listening m n) es)) in
    (same, counted, within, shared)
