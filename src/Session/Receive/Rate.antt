-- ===== src/Session/Receive/Rate.antt =====
-- The bytes that the rate limit of `handleBinaryMessage` lets through over many frames.
use transcription_api.Prelude.{
  ℕ, ◌+◌, ◌-◌, ◌/◌, ◌%◌, ◌≡◌, refl, inl, inr, Bool, true, false, ◌&&◌, ◌||◌, List, [], ◌∷◌, arith,
  ltb, leb, ◌==◌, if◌then◌else◌, Bool-cases, length,
}
use transcription_api.Float.{FloatOps}
use transcription_api.Auth.{second}
use transcription_api.Session.State.{Session, close_socket, send_message, send_error}
use transcription_api.Session.Receive.{
  process_audio_chunk, floats_of, handle_binary_message, max_frame_bytes, max_bytes_per_window,
}

-- A frame, with the time of its arrival in nanoseconds.
abbrev pub Frame : Type 0
Frame = ℕ × List ℕ

module _ {F : Type 0} ⦃fl : FloatOps F⦄ where
  -- The frames of a session, up to one that closes the stream.
  unfoldable pub receive_frames : List Frame → Session F → Session F
  receive_frames [] s = s
  receive_frames ((now, b) ∷ fs) s =
      let rest = receive_frames fs (handle_binary_message b now s) in
      if s.socket_open then rest else s

  -- Whether a frame is given to the engine.
  abbrev pub passes : ℕ → List ℕ → Session F → Bool
  passes now b s =
      leb 4 (length b)
      && leb (length b) max_frame_bytes
      && (length b % 4 == 0)
      && s.configured
      && (ltb ((now - s.rate_limit_start) / second) 3
          || leb (s.bytes_received_in_window + length b) max_bytes_per_window)

  -- The bytes of the frames that are.
  unfoldable pub bytes_passed : List Frame → Session F → ℕ
  bytes_passed [] s = 0
  bytes_passed ((now, b) ∷ fs) s =
      let rest = bytes_passed fs (handle_binary_message b now s) in
      if s.socket_open then (if passes now b s then length b else 0) + rest else 0

  -- What `passes` is: such a frame is given to the engine, and no other changes it.
  passes_lem :
      (now : ℕ) (b : List ℕ) (s : Session F)
      → (passes now b s ≡ true
          → (s' : Session F) × (s'.engine ≡ s.engine)
            × (handle_binary_message b now s ≡ process_audio_chunk (floats_of b) now s'))
        × (passes now b s ≡ false → (handle_binary_message b now s).engine ≡ s.engine)
  unfolding handle_binary_message send_error send_message close_socket
  passes_lem now b s =
      let counted : Session F = record s {
        bytes_received_in_window = s.bytes_received_in_window + length b;
      } in
      let renewed : Session F = record s { bytes_received_in_window = 0; rate_limit_start = now } in
      (
        (λ ok. elim (Bool-cases (leb 3 ((now - s.rate_limit_start) / second))) [
          | inr early ↦ (counted, refl, ground (arith, ok, early))
          | inl late ↦ (renewed, refl, ground (arith, ok, late))
        ]),
        λ fails. ground (arith, fails),
      )
