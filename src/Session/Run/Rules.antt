-- ===== src/Session/Run/Rules.antt =====
-- What holds of a life behind an event: one rule for each kind of event.
use transcription_api.Prelude.{
  Text, ℕ, ◌≡◌, refl, Bool, true, false, not, Option, List, if◌then◌else◌,
}
use transcription_api.Float.{FloatOps}
use transcription_api.Session.State.{Process, Surroundings, Handled, done, throws, faults, Json}
use transcription_api.Session.Receive.{handle_binary_message, handle_json_message}
use transcription_api.Session.Flush.{flush_cycle}
use transcription_api.Session.Run.{
  receives_text, receives_frame, Life, reading, returned, terminated, crashed, leave_loop,
  flush_round, on_event,
}

-- What holds of the session, if the program still runs.
abbrev pub Living : {F : Type 0} → (Process F → Type 0) → Life F → Type 0
Living P (reading p) = P p
Living P (returned p) = P p
Living P (terminated what p) = Unit
Living P crashed = Unit

module _ {F : Type 0} ⦃fl : FloatOps F⦄ (C : Life F → Type 0) where
  -- A text message, or a read on a closed stream.
  pub text_rule :
      (env : Surroundings F) (msg : Option (Json F)) (p : Process F)
      → (p.session.socket_open ≡ false → C (leave_loop env.now p))
      → ((q : Process F)
          → p.session.socket_open ≡ true
          → handle_json_message env msg p ≡ done q
          → C (reading q))
      → ((what : Text) (q : Process F)
          → p.session.socket_open ≡ true
          → handle_json_message env msg p ≡ throws what q
          → C (leave_loop env.now q))
      → (handle_json_message env msg p ≡ faults → C crashed)
      → C (on_event (receives_text env msg) (reading p))
  unfolding on_event
  text_rule env msg p shut ok thrown fault =
      by_test p.session.socket_open refl (handle_json_message env msg p) refl
    where
      by_test :
          (b : Bool)
          → p.session.socket_open ≡ b
          → (o : Handled (Process F)) → handle_json_message env msg p ≡ o
          → C (
              if not b then leave_loop env.now p else elim o [
                | done q ↦ reading q
                | throws what q ↦ leave_loop env.now q
                | faults ↦ crashed
              ])
      by_test false up o e = shut up
      by_test true up (done q) e = ok q up e
      by_test true up (throws what q) e = thrown what q up e
      by_test true up faults e = fault e

  -- An audio frame.
  pub frame_rule :
      (now : ℕ) (data_bytes : List ℕ) (p : Process F)
      → (p.session.socket_open ≡ false → C (leave_loop now p))
      → (p.session.socket_open ≡ true
          → C (reading (record p { session = handle_binary_message data_bytes now p.session })))
      → C (on_event (receives_frame now data_bytes) (reading p))
  unfolding on_event
  frame_rule now data_bytes p shut ok = by_test p.session.socket_open refl
    where
      by_test :
          (b : Bool)
          → p.session.socket_open ≡ b
          → C (
              if not b
              then leave_loop now p
              else reading (record p { session = handle_binary_message data_bytes now p.session }))
      by_test false up = shut up
      by_test true up = ok up

  -- A round of the flush thread.
  pub wake_rule :
      (go_on : Process F → Life F) (env : Surroundings F) (locked : Bool) (p : Process F)
      → C (go_on p)
      → ((q : Process F) → flush_cycle env locked p ≡ done q → C (go_on q))
      → ((what : Text) (q : Process F)
          → flush_cycle env locked p ≡ throws what q
          → C (terminated what q))
      → (flush_cycle env locked p ≡ faults → C crashed)
      → C (flush_round go_on env locked p)
  unfolding flush_round
  wake_rule go_on env locked p still ok thrown fault =
      by_test p.session.flush_running (flush_cycle env locked p) refl
    where
      by_test :
          (b : Bool) (o : Handled (Process F))
          → flush_cycle env locked p ≡ o
          → C (
              if not b then go_on p else elim o [
                | done q ↦ go_on q
                | throws what q ↦ terminated what q
                | faults ↦ crashed
              ])
      by_test false o e = still
      by_test true (done q) e = ok q e
      by_test true (throws what q) e = thrown what q e
      by_test true faults e = fault e
