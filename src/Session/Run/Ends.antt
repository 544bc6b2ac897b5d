-- ===== src/Session/Run/Ends.antt =====
-- The end of `run`, and the destructor behind it.
use transcription_api.Prelude.{
  ℕ, ◌≡◌, refl, sym, ap, ◌∙◌, subst, Bool, true, false, List, [], ◌∷◌, ◌++◌, arith,
}
use transcription_api.Float.{FloatOps}
use transcription_api.Session.State.{Process, Surroundings, release_model, destroy_session}
use transcription_api.Session.Steps.Holds.{hold-flush}
use transcription_api.Session.Run.Rules.{text_rule, frame_rule, wake_rule}
use transcription_api.Session.Run.{
  Event, receives_text, receives_frame, read_fails, wakes, others_move, Life, reading, returned,
  terminated, crashed, leave_loop, flush_round, on_event, live_on, begin_run, run,
}

module _ {F : Type 0} ⦃fl : FloatOps F⦄ where
  -- Behind the loop: no reference to the model is left to give back.
  abbrev pub Over : Life F → Type 0
  Over (reading p) = ⊥
  Over (returned p) =
      (p.session.model_acquired ≡ false)
      × ((now : ℕ)
          → destroy_session now p
            ≡ record p { session = record p.session { flush_running = false } })
  Over (terminated what p) = Unit
  Over crashed = Unit

  over : (p : Process F) → p.session.model_acquired ≡ false → Over (returned p)
  unfolding destroy_session release_model
  over p free = (free, λ now. ground (arith, free))

  leave_loop-Over : (now : ℕ) (p : Process F) → Over (leave_loop now p)
  unfolding leave_loop release_model
  leave_loop-Over now p = over _ (ground arith)

  flush_round-Over :
      (env : Surroundings F) (locked : Bool) (p : Process F)
      → Over (returned p)
      → Over (flush_round returned env locked p)
  flush_round-Over env locked p o =
      wake_rule Over returned env locked p o
        (λ q e. over q (ap (λ x. x.1) (hold-flush env locked p q e).0 ∙ o.0)) (λ what q e. tt)
        (λ e. tt)

  -- Nothing brings the loop back.
  on_event-Over : (event : Event F) (life : Life F) → Over life → Over (on_event event life)
  unfolding on_event
  on_event-Over event (terminated what p) o = tt
  on_event-Over event crashed o = tt
  on_event-Over event (reading p) o = elim o [ ]
  on_event-Over (wakes env locked) (returned p) o = flush_round-Over env locked p o
  on_event-Over (others_move c l a) (returned p) (free, d) = over _ free
  on_event-Over (receives_text env msg) (returned p) o = o
  on_event-Over (receives_frame now b) (returned p) o = o
  on_event-Over (read_fails now) (returned p) o = o

  live_on-Over : (events : List (Event F)) (life : Life F) → Over life → Over (live_on events life)
  unfolding live_on
  live_on-Over [] life o = o
  live_on-Over (e ∷ es) life o = live_on-Over es (on_event e life) (on_event-Over e life o)

  -- A loop that goes on, or what is known behind it.
  abbrev Sound : Life F → Type 0
  Sound (reading p) = Unit
  Sound (returned p) = Over (returned p)
  Sound (terminated what p) = Unit
  Sound crashed = Unit

  Over-Sound : (life : Life F) → Over life → Sound life
  Over-Sound (reading p) o = tt
  Over-Sound (returned p) o = o
  Over-Sound (terminated what p) o = tt
  Over-Sound crashed o = tt

  on_event-Sound : (event : Event F) (life : Life F) → Sound life → Sound (on_event event life)
  unfolding on_event
  on_event-Sound (receives_text env msg) (reading p) s =
      text_rule Sound env msg p (λ shut. Over-Sound _ (leave_loop-Over env.now p)) (λ q up e. tt)
        (λ what q up e. Over-Sound _ (leave_loop-Over env.now q)) (λ e. tt)
  on_event-Sound (receives_frame now b) (reading p) s =
      frame_rule Sound now b p (λ shut. Over-Sound _ (leave_loop-Over now p)) (λ up. tt)
  on_event-Sound (read_fails now) (reading p) s = Over-Sound _ (leave_loop-Over now p)
  on_event-Sound (wakes env locked) (reading p) s =
      wake_rule Sound reading env locked p tt (λ q e. tt) (λ what q e. tt) (λ e. tt)
  on_event-Sound (others_move c l a) (reading p) s = tt
  on_event-Sound event (returned p) s = Over-Sound _ (on_event-Over event (returned p) s)
  on_event-Sound event (terminated what p) s = tt
  on_event-Sound event crashed s = tt

  live_on-Sound :
      (events : List (Event F)) (life : Life F) → Sound life → Sound (live_on events life)
  unfolding live_on
  live_on-Sound [] life s = s
  live_on-Sound (e ∷ es) life s = live_on-Sound es (on_event e life) (on_event-Sound e life s)

  fails-Over : (now : ℕ) (life : Life F) → Sound life → Over (on_event (read_fails now) life)
  unfolding on_event
  fails-Over now (reading p) s = leave_loop-Over now p
  fails-Over now (returned p) s = s
  fails-Over now (terminated what p) s = tt
  fails-Over now crashed s = tt

  live_on-append :
      (es more : List (Event F)) (life : Life F)
      → live_on (es ++ more) life ≡ live_on more (live_on es life)
  unfolding live_on
  live_on-append [] more life = refl
  live_on-append (e ∷ es) more life = live_on-append es more (on_event e life)

  begin_run-Sound : (now : ℕ) (accepts : Bool) (p : Process F) → Sound (begin_run now accepts p)
  unfolding begin_run
  begin_run-Sound now true p = tt
  begin_run-Sound now false p = Over-Sound _ (leave_loop-Over now p)

  -- Whatever comes before and after it, a read that fails ends `run`: unless the flush thread has
  -- thrown or a null pointer was dereferenced, `run` has returned, `model_acquired_` is false, and the
  -- destructor, whenever it comes, changes nothing but `flush_running_`: it releases nothing.
  pub session-Over :
      (now later : ℕ) (accepts : Bool) (es more : List (Event F)) (p : Process F)
      → Over (run now accepts (es ++ read_fails later ∷ more) p)
  unfolding run live_on
  session-Over now later accepts es more p =
      let life = live_on es (begin_run now accepts p) in
      let sound = live_on-Sound es (begin_run now accepts p) (begin_run-Sound now accepts p) in
      let ended = on_event (read_fails later) life in
      subst Over (sym (live_on-append es (read_fails later ∷ more) (begin_run now accepts p)))
        (live_on-Over more ended (fails-Over later life sound))
