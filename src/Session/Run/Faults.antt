-- ===== src/Session/Run/Faults.antt =====
-- What can end the whole program from within a session.
use transcription_api.Prelude.{
  Text, codes, ℕ, ◌≡◌, ap, ◌∙◌, subst, inl, inr, Bool, true, false, List, [], ◌∷◌, arith,
  List-cases, All,
}
use transcription_api.Float.{FloatOps}
use transcription_api.Engine.{Engine, Outcome, transcribe_sliding_window}
use transcription_api.Auth.{ApiAuthConfig, auth_manager}
use transcription_api.Session.State.{Process, Surroundings, throws, faults}
use transcription_api.Session.Flush.{infer, flush_cycle}
use transcription_api.Session.Steps.Outcomes.{flush_cases}
use transcription_api.Session.Steps.Sizes.{outcome_cases}
use transcription_api.Session.Steps.Authority.{release_model-auth, flush-auth}
use transcription_api.Session.Steps.Armed.{is_armed, auth_manager_armed, Safe, handle_json-Safe}
use transcription_api.Session.Run.{
  Event, receives_text, receives_frame, read_fails, wakes, others_move, Life, reading, returned,
  terminated, crashed, leave_loop, flush_round, on_event, live_on, begin_run, run,
}
use transcription_api.Session.Run.Rules.{text_rule, frame_rule, wake_rule}

abbrev pub decode_failed : Text
decode_failed = codes "Whisper transcription failed"

-- No null pointer is dereferenced, and an exception that leaves the flush thread is a decode's.
abbrev pub Sure : {F : Type 0} → Life F → Type 0
Sure (reading p) = is_armed p.auth ≡ true
Sure (returned p) = is_armed p.auth ≡ true
Sure (terminated what p) = what ≡ decode_failed
Sure crashed = ⊥

-- Other sessions share the manager, and leave it armed.
abbrev pub LeavesArmed : {F : Type 0} → Event F → Type 0
LeavesArmed (others_move c l a) = is_armed a ≡ true
LeavesArmed _ = Unit

module _ {F : Type 0} ⦃fl : FloatOps F⦄ where
  decode_throws :
      (env : Surroundings F) (e : Engine F) (what : Text)
      → transcribe_sliding_window env.decode false e ≡ Outcome.throws what
      → what ≡ decode_failed
  unfolding transcribe_sliding_window
  decode_throws env e what h = elim (List-cases e.audio_buffer) [
    | inl empty ↦ absurd (ground (arith, h, empty))
    | inr (x, xs, more) ↦ ground (arith, h, more)
  ]

  flush_throws :
      (env : Surroundings F) (locked : Bool) (p q : Process F) (what : Text)
      → flush_cycle env locked p ≡ throws what q
      → what ≡ decode_failed
  unfolding infer
  flush_throws env locked p q what h = elim (flush_cases env locked p) [
    | inl e ↦ absurd (ground (arith, h, e))
    | inr (e, _, _, i) ↦ elim (outcome_cases (transcribe_sliding_window env.decode false e)) [
      | inl (w, bad) ↦ ground (arith, h, i, bad, decode_throws env e w bad)
      | inr (res, e', good) ↦ absurd (ground (arith, h, i, good))
    ]
  ]

  flush_cycle-faults :
      (env : Surroundings F) (locked : Bool) (p : Process F) → ¬ (flush_cycle env locked p ≡ faults)
  unfolding infer
  flush_cycle-faults env locked p h = elim (flush_cases env locked p) [
    | inl e ↦ ground (arith, h, e)
    | inr (e, _, _, i) ↦ elim (outcome_cases (transcribe_sliding_window env.decode false e)) [
      | inl (w, bad) ↦ ground (arith, h, i, bad)
      | inr (res, e', good) ↦ ground (arith, h, i, good)
    ]
  ]

  leave_loop-Sure : (now : ℕ) (p : Process F) → is_armed p.auth ≡ true → Sure (leave_loop now p)
  unfolding leave_loop
  leave_loop-Sure now p armed = ap is_armed (release_model-auth now p) ∙ armed

  wake-Sure :
      (go_on : Process F → Life F) (env : Surroundings F) (locked : Bool) (p : Process F)
      → ((q : Process F) → is_armed q.auth ≡ true → Sure (go_on q))
      → is_armed p.auth ≡ true
      → Sure (flush_round go_on env locked p)
  wake-Sure go_on env locked p goes armed =
      wake_rule Sure go_on env locked p (goes p armed)
        (λ q e. goes q (ap is_armed (flush-auth env locked p q e) ∙ armed))
        (λ what q e. flush_throws env locked p q what e) (λ e. flush_cycle-faults env locked p e)

  on_event-Sure :
      (event : Event F) (life : Life F) → LeavesArmed event → Sure life → Sure (on_event event life)
  unfolding on_event
  on_event-Sure (receives_text env msg) (reading p) leaves armed =
      let safe = handle_json-Safe env msg p armed in
      text_rule Sure env msg p (λ shut. leave_loop-Sure env.now p armed)
        (λ q up e. subst Safe e safe) (λ what q up e. leave_loop-Sure env.now q (subst Safe e safe))
        (λ e. subst Safe e safe)
  on_event-Sure (receives_frame now b) (reading p) leaves armed =
      frame_rule Sure now b p (λ shut. leave_loop-Sure now p armed) (λ up. armed)
  on_event-Sure (read_fails now) (reading p) leaves armed = leave_loop-Sure now p armed
  on_event-Sure (wakes env locked) (reading p) leaves armed =
      wake-Sure reading env locked p (λ q a. a) armed
  on_event-Sure (wakes env locked) (returned p) leaves armed =
      wake-Sure returned env locked p (λ q a. a) armed
  on_event-Sure (others_move c l a) (reading p) leaves armed = leaves
  on_event-Sure (others_move c l a) (returned p) leaves armed = leaves
  on_event-Sure (receives_text env msg) (returned p) leaves armed = armed
  on_event-Sure (receives_frame now b) (returned p) leaves armed = armed
  on_event-Sure (read_fails now) (returned p) leaves armed = armed
  on_event-Sure event (terminated what q) leaves sure = sure
  on_event-Sure event crashed leaves sure = sure

  live_on-Sure :
      (events : List (Event F)) (life : Life F)
      → All LeavesArmed events
      → Sure life
      → Sure (live_on events life)
  unfolding live_on
  live_on-Sure [] life leaves sure = sure
  live_on-Sure (e ∷ es) life (l, leaves) sure =
      live_on-Sure es (on_event e life) leaves (on_event-Sure e life l sure)

  -- With the manager that `main` makes of any configuration, and other sessions that leave it what it is
  -- in this respect, no client and no schedule makes a session call the authentication API through a
  -- null pointer; and the only exception that leaves the flush thread, and so ends the program, is that
  -- of a decode that fails.
  pub run-Sure :
      (config : ApiAuthConfig) (now : ℕ) (accepts : Bool) (events : List (Event F)) (p : Process F)
      → p.auth ≡ auth_manager config
      → All LeavesArmed events
      → Sure (run now accepts events p)
  unfolding run begin_run
  run-Sure config now accepts events p made leaves =
      live_on-Sure events (begin_run now accepts p) leaves (begun accepts)
    where
      armed : is_armed p.auth ≡ true
      armed = ap is_armed made ∙ auth_manager_armed config

      begun : (accepts : Bool) → Sure (begin_run now accepts p)
      begun true = armed
      begun false = leave_loop-Sure now p armed
