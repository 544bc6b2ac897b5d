-- ===== src/Session/Run/References.antt =====
-- The reference to the model that a session takes and gives back, on a schedule without other sessions.
use transcription_api.Prelude.{
  Text, ℕ, ◌+◌, ◌≤◌, ◌≡◌, refl, ap, ◌⊎◌, inl, inr, Bool, true, false, Option, List, [], ◌∷◌, ◌++◌,
  arith, if◌then◌else◌, Bool-cases, All,
}
use transcription_api.Float.{FloatOps}
use transcription_api.Session.Run.{
  Event, receives_text, receives_frame, read_fails, wakes, others_move, Life, reading, returned,
  terminated, crashed, leave_loop, flush_round, on_event, live_on, begin_run, run,
}
use transcription_api.Session.Run.Rules.{Living, text_rule, frame_rule, wake_rule}
use transcription_api.Session.Run.Ends.{Over, session-Over}
use transcription_api.Session.State.{Process, Surroundings, throws, Json}
use transcription_api.Session.Receive.{handle_json_message}
use transcription_api.Session.Steps.Effects.{handle_json-Effect}
use transcription_api.Session.Steps.Outcomes.{handle_json-throws}
use transcription_api.Session.Steps.References.{thrown_cache, handle_json-thrown}
use transcription_api.Session.Steps.Holds.{hold, hold-binary, hold-flush}
use transcription_api.Session.Run.Balance.{
  Fits, Balanced, Free, Calm, still, Calm-Balanced, Calm-Free, release-Calm, Effect-Balanced,
  is_config, text-Calm,
}

module _ {F : Type 0} ⦃fl : FloatOps F⦄ where
  -- No other session moves.
  abbrev pub IsAlone : Event F → Type 0
  IsAlone (others_move c l a) = ⊥
  IsAlone _ = Unit

  abbrev pub configs : List (Event F) → ℕ
  configs [] = 0
  configs (receives_text env msg ∷ es) = (if is_config msg then 1 else 0) + configs es
  configs (_ ∷ es) = configs es

  leave_loop-Calm :
      (now : ℕ) (p p' : Process F)
      → p'.cache ≡ p.cache
      → hold p'.session ≡ hold p.session
      → Living (Calm p) (leave_loop now p')
  unfolding leave_loop
  leave_loop-Calm now p p' c h = release-Calm now p p' c h

  thrown-Calm :
      (env : Surroundings F) (msg : Option (Json F)) (what : Text) (p q : Process F)
      → handle_json_message env msg p ≡ throws what q
      → Living (Calm p) (leave_loop env.now q)
  thrown-Calm env msg what p q e =
      leave_loop-Calm env.now p q (handle_json-thrown env msg p q.cache (ap thrown_cache e))
        (ap hold (handle_json-throws env msg what p q e))

  wake-Calm :
      (go_on : Process F → Life F) (env : Surroundings F) (locked : Bool) (p : Process F)
      → ((q : Process F) → Calm p q → Living (Calm p) (go_on q))
      → Living (Calm p) (flush_round go_on env locked p)
  wake-Calm go_on env locked p goes =
      wake_rule (Living (Calm p)) go_on env locked p (goes p (still refl refl))
        (λ q e. let (h, c) = hold-flush env locked p q e in goes q (still c h)) (λ what q e. tt)
        (λ e. tt)

  -- An event that is no configuration takes no reference.
  event-Calm :
      (event : Event F) (p : Process F)
      → IsAlone event
      → configs (event ∷ []) ≡ 0
      → Living (Calm p) (on_event event (reading p))
  unfolding on_event
  event-Calm (receives_text env msg) p alone plain =
      text_rule (Living (Calm p)) env msg p (λ shut. leave_loop-Calm env.now p p refl refl)
        (λ q up e. text-Calm env msg p q (ground (arith, plain)) e)
        (λ what q up e. thrown-Calm env msg what p q e) (λ e. tt)
  event-Calm (receives_frame now b) p alone plain =
      frame_rule (Living (Calm p)) now b p (λ shut. leave_loop-Calm now p p refl refl)
        (λ up. still refl (hold-binary b now p.session))
  event-Calm (read_fails now) p alone plain = leave_loop-Calm now p p refl refl
  event-Calm (wakes env locked) p alone plain = wake-Calm reading env locked p (λ q c. c)
  event-Calm (others_move c l a) p alone plain = absurd alone

  returned-Calm :
      (event : Event F) (p : Process F)
      → IsAlone event
      → Living (Calm p) (on_event event (returned p))
  unfolding on_event
  returned-Calm (receives_text env msg) p alone = still refl refl
  returned-Calm (receives_frame now b) p alone = still refl refl
  returned-Calm (read_fails now) p alone = still refl refl
  returned-Calm (wakes env locked) p alone = wake-Calm returned env locked p (λ q c. c)
  returned-Calm (others_move c l a) p alone = absurd alone

  onward :
      {P : Process F → Type 0} {p : Process F}
      → ((q : Process F) → Calm p q → P q)
      → (life : Life F) → Living (Calm p) life
      → Living P life
  onward keeps_it (reading q) c = keeps_it q c
  onward keeps_it (returned q) c = keeps_it q c
  onward keeps_it (terminated what q) c = tt
  onward keeps_it crashed c = tt

  -- A message that may be a configuration, to a session without a reference.
  text-Balanced :
      (r : ℕ) (path : Text) (env : Surroundings F) (msg : Option (Json F)) (p : Process F)
      → Free p
      → Balanced r path p
      → Living (Balanced r path) (on_event (receives_text env msg) (reading p))
  text-Balanced r path env msg p free b =
      text_rule (Living (Balanced r path)) env msg p
        (λ shut.
          onward (λ q c. Calm-Balanced r path p q c b) _ (leave_loop-Calm env.now p p refl refl))
        (λ q up e. Effect-Balanced r path p q (handle_json-Effect env msg p q e) free b)
        (λ what q up e.
          onward (λ q c. Calm-Balanced r path p q c b) _ (thrown-Calm env msg what p q e))
        (λ e. tt)

  configs-first :
      (e : Event F) (es : List (Event F)) → configs (e ∷ es) ≡ configs (e ∷ []) + configs es
  configs-first (receives_text env msg) es = omega arith
  configs-first (receives_frame now b) es = omega arith
  configs-first (read_fails now) es = omega arith
  configs-first (wakes env locked) es = omega arith
  configs-first (others_move c l a) es = omega arith

  -- There is no configuration to come, or one at most and no reference yet.
  abbrev Spare : ℕ → Life F → Type 0
  Spare n life = (n ≡ 0) ⊎ ((n ≤ 1) × Living Free life)

  Spare-on :
      (life life' : Life F) (e : Event F) (es : List (Event F))
      → Spare (configs (e ∷ es)) life
      → (Living Free life → Living Free life')
      → Spare (configs es) life'
  Spare-on life life' e es (inl none_left) on = inl (omega (arith, none_left, configs-first e es))
  Spare-on life life' e es (inr (one, free)) on =
      inr (omega (arith, one, configs-first e es), on free)

  Calm-event :
      (r : ℕ) (path : Text) (e : Event F) (es : List (Event F)) (p : Process F) (life : Life F)
      → Living (Calm p) life
      → Spare (configs (e ∷ es)) (reading p)
      → Balanced r path p
      → Living (Balanced r path) life × Spare (configs es) life
  Calm-event r path e es p life c spare b = (
    onward (λ q c'. Calm-Balanced r path p q c' b) life c,
    Spare-on (reading p) life e es spare (λ free. onward (λ q c'. Calm-Free p q c' free) life c),
  )

  one_event :
      (r : ℕ) (path : Text) (e : Event F) (es : List (Event F)) (life : Life F)
      → IsAlone e
      → Spare (configs (e ∷ es)) life
      → Living (Balanced r path) life
      → Living (Balanced r path) (on_event e life) × Spare (configs es) (on_event e life)
  unfolding on_event
  one_event r path e es (terminated what q) alone spare b =
      (tt, Spare-on (terminated what q) (terminated what q) e es spare (λ free. tt))
  one_event r path e es crashed alone spare b =
      (tt, Spare-on crashed crashed e es spare (λ free. tt))
  one_event r path e es (returned p) alone spare b =
      Calm-event r path e es p _ (returned-Calm e p alone) spare b
  one_event r path (receives_text env msg) es (reading p) alone spare b =
      elim (Bool-cases (is_config msg)) [
        | inr plain ↦
            Calm-event r path (receives_text env msg) es p _
              (event-Calm (receives_text env msg) p alone (ground (arith, plain))) spare b
        | inl config ↦ elim spare [
          | inl none_left ↦ absurd (ground (arith, config, none_left))
          | inr (one, free) ↦
              (text-Balanced r path env msg p free b, inl (ground (arith, config, one)))
        ]
      ]
  one_event r path (receives_frame now d) es (reading p) alone spare b =
      Calm-event r path (receives_frame now d) es p _
        (event-Calm (receives_frame now d) p alone refl) spare b
  one_event r path (read_fails now) es (reading p) alone spare b =
      Calm-event r path (read_fails now) es p _ (event-Calm (read_fails now) p alone refl) spare b
  one_event r path (wakes env locked) es (reading p) alone spare b =
      Calm-event r path (wakes env locked) es p _ (event-Calm (wakes env locked) p alone refl) spare
        b
  one_event r path (others_move c l a) es (reading p) alone spare b = absurd alone

  live_on-Balanced :
      (r : ℕ) (path : Text) (es : List (Event F)) (life : Life F)
      → All IsAlone es
      → Spare (configs es) life
      → Living (Balanced r path) life
      → Living (Balanced r path) (live_on es life)
  unfolding live_on
  live_on-Balanced r path [] life alone spare b = b
  live_on-Balanced r path (e ∷ es) life (a, alone) spare b =
      let (b', spare') = one_event r path e es life a spare b in
      live_on-Balanced r path es (on_event e life) alone spare' b'

  returns_all :
      (r : ℕ) (path : Text) (life : Life F)
      → Over life
      → Living (Balanced r path) life
      → Living (λ q. q.cache.ref_count ≡ r) life
  returns_all r path (reading q) o b = absurd o
  returns_all r path (returned q) (free, _) (_, _, n) = ground (arith, free, n)
  returns_all r path (terminated what q) o b = tt
  returns_all r path crashed o b = tt

  -- A client that sends "config" at most once, and otherwise anything: when a read has failed and `run`
  -- has returned, the model is counted as often as before the session, on every schedule on which no
  -- other session moves, and however the cache was, with this session's model or without one.
  pub run_gives_back :
      (now later : ℕ) (accepts : Bool) (es more : List (Event F)) (p : Process F)
      → p.session.model_acquired ≡ false
      → Fits p.session.model_path p.cache
      → All IsAlone (es ++ read_fails later ∷ more)
      → configs (es ++ read_fails later ∷ more) ≤ 1
      → Living
          (λ q. q.cache.ref_count ≡ p.cache.ref_count)
          (run now accepts (es ++ read_fails later ∷ more) p)
  unfolding run begin_run
  run_gives_back now later accepts es more p free fits alone once =
      let events = es ++ read_fails later ∷ more in
      let (balanced, free') = begun accepts in
      returns_all p.cache.ref_count p.session.model_path (run now accepts events p)
        (session-Over now later accepts es more p)
        (live_on-Balanced p.cache.ref_count p.session.model_path events (begin_run now accepts p)
          alone (inr (once, free')) balanced)
    where
      b : Balanced p.cache.ref_count p.session.model_path p
      b = (fits, refl, ground (arith, free))

      begun :
          (accepts : Bool)
          → Living (Balanced p.cache.ref_count p.session.model_path) (begin_run now accepts p)
            × Living Free (begin_run now accepts p)
      begun true = (b, free)
      begun false =
          let c = leave_loop-Calm now p p refl refl in
          (
            onward (λ q c'. Calm-Balanced p.cache.ref_count p.session.model_path p q c' b) _ c,
            onward (λ q c'. Calm-Free p q c' free) _ c,
          )
