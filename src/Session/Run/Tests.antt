-- ===== src/Session/Run/Tests.antt =====
-- `run` on one schedule: a configuration, a frame, a round of the flush thread, and a read that fails.
use transcription_api.Prelude.{
  Text_discrete, ℕ, ◌≤◌, ◌≡◌, refl, inl, Bool, true, false, some, List, [], ◌∷◌, ◌++◌, arith,
}
use transcription_api.Float.{coarse}
use transcription_api.Session.State.{Process, new_session, release_model}
use transcription_api.Session.Samples.{token_config, env, connected, config_message}
use transcription_api.Session.Run.{
  Event, receives_text, receives_frame, read_fails, wakes, Life, returned, run, begin_run,
  leave_loop, live_on, on_event, flush_round,
}
use transcription_api.Session.Run.Rules.{Living}
use transcription_api.Session.Run.Balance.{Fits}
use transcription_api.Session.Run.References.{configs, run_gives_back}
use transcription_api.Session.Run.Faults.{Sure, run-Sure}
use transcription_api.Session.Run.Ends.{Over, session-Over}

abbrev schedule : List (Event ℕ)
schedule =
    receives_text env (some config_message)
    ∷ receives_frame 2000 (1 ∷ 0 ∷ 0 ∷ 0 ∷ [])
    ∷ wakes env true
    ∷ []

session-Over_example :
    Over (run 5 true (schedule ++ read_fails 3000 ∷ wakes env true ∷ []) connected)
session-Over_example = session-Over 5 3000 true schedule (wakes env true ∷ []) connected

abbrev has_returned : Life ℕ → Bool
has_returned (returned p) = true
has_returned _ = false

-- A handshake that fails, and a wake-up of a thread that was not started.
not_accepted : has_returned (run 5 false (wakes env true ∷ []) connected) ≡ true
unfolding run begin_run leave_loop live_on on_event flush_round new_session release_model
not_accepted = refl

no_model : Fits connected.session.model_path connected.cache
no_model = inl (refl, refl)

not_acquired : connected.session.model_acquired ≡ false
unfolding new_session
not_acquired = refl

one_config : configs (schedule ++ read_fails 3000 ∷ wakes env true ∷ []) ≤ 1
unfolding Text_discrete
one_config = omega arith

run_gives_back_example :
    Living
      (λ (q : Process ℕ). q.cache.ref_count ≡ 0)
      (run 5 true (schedule ++ read_fails 3000 ∷ wakes env true ∷ []) connected)
run_gives_back_example =
    run_gives_back 5 3000 true schedule (wakes env true ∷ []) connected not_acquired no_model
      (tt, (tt, (tt, (tt, (tt, tt))))) one_config

run-Sure_example : Sure (run 5 true (schedule ++ read_fails 3000 ∷ wakes env true ∷ []) connected)
run-Sure_example =
    run-Sure token_config 5 true (schedule ++ read_fails 3000 ∷ wakes env true ∷ []) connected refl
      (tt, (tt, (tt, (tt, (tt, tt)))))
