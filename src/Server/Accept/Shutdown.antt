-- ===== src/Server/Accept/Shutdown.antt =====
-- The end of the accept loop.
use transcription_api.Prelude.{
  ℕ, ◌+◌, ◌≤◌, ◌≡◌, refl, ◌∙◌, ◌⊎◌, inl, inr, true, false, List, [], ◌∷◌, ◌++◌, arith,
}
use transcription_api.Server.Tracker.{shutdown_all}
use transcription_api.Server.Accept.{
  Phase, testing, accepting, joining, broken, Acceptor, Accepted, aborted, interrupted, failed,
  vanished, client, Event, signalled, tested, accept_returns, session_created, session_destroyed,
  thread_ends, step, run, on_accept, on_signal, on_client,
}

-- How many steps the loop can still make once the acceptor is closed.
abbrev pub steps_left : Phase → ℕ
steps_left accepting = 2
steps_left testing = 1
steps_left joining = 0
steps_left broken = 0

pub Phase-cases : (p : Phase) → (p ≡ testing) ⊎ (p ≡ accepting) ⊎ (p ≡ joining) ⊎ (p ≡ broken)
Phase-cases testing = inl refl
Phase-cases accepting = inr (inl refl)
Phase-cases joining = inr (inr (inl refl))
Phase-cases broken = inr (inr (inr refl))

-- 1 for an event that is a step of the loop and not ignored.
abbrev pub is_loop_step : Phase → Event → ℕ
is_loop_step testing tested = 1
is_loop_step accepting (accept_returns r) = 1
is_loop_step _ _ = 0

abbrev pub loop_steps : Acceptor → List Event → ℕ
loop_steps a [] = 0
loop_steps a (e ∷ es) = is_loop_step a.phase e + loop_steps (step a e) es

-- A closed acceptor stays closed.
step_closed : (a : Acceptor) (e : Event) → a.is_open ≡ false → (step a e).is_open ≡ false
unfolding step on_accept on_signal on_client
step_closed a signalled h = ground (arith, h)
step_closed a tested h = ground (arith, h)
step_closed a (accept_returns aborted) h = ground (arith, h)
step_closed a (accept_returns interrupted) h = ground (arith, h)
step_closed a (accept_returns failed) h = ground (arith, h)
step_closed a (accept_returns vanished) h = ground (arith, h)
step_closed a (accept_returns (client ip starts)) h = ground (arith, h)
step_closed a (session_created n) h = h
step_closed a (session_destroyed n) h = h
step_closed a (thread_ends i) h = h

-- However `accept` returns, the loop is at its test or behind it.
left_accept : (r : Accepted) (a : Acceptor) → steps_left (on_accept r a).phase ≤ 1
unfolding on_accept on_client
left_accept aborted a = ground arith
left_accept interrupted a = ground arith
left_accept failed a = ground arith
left_accept vanished a = ground arith
left_accept (client ip starts) a = ground arith

-- One step of a loop whose acceptor is closed.
closed_step :
    (a : Acceptor) (e : Event)
    → a.is_open ≡ false
    → is_loop_step a.phase e + steps_left (step a e).phase ≤ steps_left a.phase
unfolding step on_accept on_signal on_client
closed_step a signalled h = ground arith
closed_step a tested h = ground (arith, h, Phase-cases a.phase)
closed_step a (accept_returns r) h = ground (arith, Phase-cases a.phase, left_accept r a)
closed_step a (session_created n) h = ground arith
closed_step a (session_destroyed n) h = ground arith
closed_step a (thread_ends i) h = ground arith

closed_run :
    (a : Acceptor) (es : List Event)
    → a.is_open ≡ false
    → loop_steps a es + steps_left (run a es).phase ≤ steps_left a.phase
unfolding run
closed_run a [] h = ground arith
closed_run a (e ∷ es) h =
    let later = closed_run (step a e) es (step_closed a e h) in
    let first = closed_step a e h in omega (arith, later, first)

closed_stays : (a : Acceptor) (es : List Event) → a.is_open ≡ false → (run a es).is_open ≡ false
unfolding run
closed_stays a [] h = h
closed_stays a (e ∷ es) h = closed_stays (step a e) es (step_closed a e h)

ignored : (p : Phase) → is_loop_step p signalled ≡ 0
ignored testing = refl
ignored accepting = refl
ignored joining = refl
ignored broken = refl

at_most_two : (p : Phase) → steps_left p ≤ 2
at_most_two p = ground (arith, Phase-cases p)

-- From the signal on, whatever else happens in between, the loop makes at most two steps more: the end of
-- the `accept` that is under way, however it ends, and the test. A loop that has not ended can make its
-- step: the test ends the loop, and an `accept` that returns leads to the test or ends the loop.
pub shutdown_terminates :
    (a : Acceptor) (es : List Event)
    → a.waits ≡ true
    → let b = run a (signalled ∷ es) in
      (loop_steps a (signalled ∷ es) + steps_left b.phase ≤ 2)
      × (b.phase ≡ testing → (step b tested).phase ≡ joining)
      × (b.phase ≡ accepting → (r : Accepted) → steps_left (step b (accept_returns r)).phase ≤ 1)
unfolding run step on_signal
shutdown_terminates a es h =
    let s = step a signalled in
    let b = run s es in
    let closed : s.is_open ≡ false = ground (arith, h) in
    let still = closed_stays s es closed in
    (
      omega (arith, closed_run s es closed, ignored a.phase, at_most_two s.phase),
      λ e. ground (arith, e, still),
      λ e r. ground (arith, e, left_accept r b),
    )

no_second_signal :
    (a : Acceptor) (e : Event)
    → a.waits ≡ false
    → ((step a e).waits ≡ false) × ((step a e).cancelled ≡ a.cancelled)
unfolding step on_accept on_client
no_second_signal a signalled h = ground (arith, h)
no_second_signal a tested h = ground (arith, h)
no_second_signal a (accept_returns aborted) h = ground (arith, h)
no_second_signal a (accept_returns interrupted) h = ground (arith, h)
no_second_signal a (accept_returns failed) h = ground (arith, h)
no_second_signal a (accept_returns vanished) h = ground (arith, h)
no_second_signal a (accept_returns (client ip starts)) h = ground (arith, h)
no_second_signal a (session_created n) h = (h, refl)
no_second_signal a (session_destroyed n) h = (h, refl)
no_second_signal a (thread_ends i) h = (h, refl)

no_later_cancel :
    (a : Acceptor) (es : List Event) → a.waits ≡ false → (run a es).cancelled ≡ a.cancelled
unfolding run
no_later_cancel a [] h = refl
no_later_cancel a (e ∷ es) h =
    let (waits, same) = no_second_signal a e h in no_later_cancel (step a e) es waits ∙ same

-- The sessions that are cancelled are those that stand in the tracker at the first signal. A session that
-- is created later is not cancelled, though its connection may have been accepted before the signal, and
-- no later signal cancels it.
pub late_sessions_run_on :
    (a : Acceptor) (es : List Event)
    → a.waits ≡ true
    → (run a (signalled ∷ es)).cancelled ≡ a.cancelled ++ a.tracker
unfolding run step on_signal shutdown_all
late_sessions_run_on a es h =
    let s = step a signalled in no_later_cancel s es (ground (arith, h)) ∙ ground (arith, h)
