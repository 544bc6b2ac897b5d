-- ===== src/Session/Steps/Access.antt =====
-- A session is configured only for a client that was let in.
use transcription_api.Prelude.{
  Text, codes, text_eq, ℕ, ◌+◌, ◌≡◌, sym, ◌∙◌, inl, inr, Bool, true, false, none, some, List, [],
  ◌++◌, arith, Option-cases, length,
}
use transcription_api.Float.{FloatOps}
use transcription_api.Engine.{Decoder, transcribe_sliding_window}
use transcription_api.Auth.{AuthManager}
use transcription_api.Session.State.{
  Session, Process, Surroundings, done, Json, string, field, send_message, send_error, close_socket,
  release_model, Message, CloseReason,
}
use transcription_api.Session.Receive.{
  process_audio_chunk, handle_binary_message, floats_of, not_configured_text, finish_transcription,
  handle_end, refuse, handle_config, handle_json_message,
}
use transcription_api.Session.Receive.Protocol.{
  Admitted, authenticate_cases, dispatch_cases, json_cases, replied,
}
use transcription_api.Session.Flush.{absorb, report, infer, flush_cycle}
use transcription_api.Session.Steps.{Step, text, text_throws, binary, closed, flush, others}
use transcription_api.Session.Steps.Sizes.{outcome_cases}
use transcription_api.Session.Steps.Outcomes.{flush_cases, handle_json-throws}

module _ {F : Type 0} where
  configured-send : (m : Message) (s : Session F) → (send_message m s).configured ≡ s.configured
  unfolding send_message
  configured-send m s = ground arith

  configured-close :
      (r : CloseReason) (s : Session F) → (close_socket r s).configured ≡ s.configured
  unfolding close_socket
  configured-close r s = ground arith

  configured-release :
      (now : ℕ) (p : Process F) → (release_model now p).session.configured ≡ p.session.configured
  unfolding release_model
  configured-release now p = ground arith

module _ {F : Type 0} ⦃fl : FloatOps F⦄ where
  configured-chunk :
      (audio : List F) (now : ℕ) (s : Session F)
      → (process_audio_chunk audio now s).configured ≡ s.configured
  unfolding process_audio_chunk send_message
  configured-chunk audio now s = elim (Option-cases s.engine) [
    | inl off ↦ ground arith
    | inr (e, on) ↦ ground arith
  ]

  configured-binary :
      (b : List ℕ) (now : ℕ) (s : Session F)
      → (handle_binary_message b now s).configured ≡ s.configured
  unfolding handle_binary_message send_error
  configured-binary b now s =
      let counted : Session F = record s {
        bytes_received_in_window = s.bytes_received_in_window + length b;
      } in
      let renewed : Session F = record s { bytes_received_in_window = 0; rate_limit_start = now } in
      ground (
        arith,
        configured-send (Message.error not_configured_text (codes "NOT_CONFIGURED")) s,
        configured-close (CloseReason.policy_error (codes "Frame too large")) s,
        configured-close (CloseReason.policy_error (codes "Rate limit exceeded")) counted,
        configured-chunk (floats_of b) now counted,
        configured-chunk (floats_of b) now renewed,
      )

  configured-finish : (s : Session F) → (finish_transcription s).configured ≡ s.configured
  unfolding finish_transcription
  configured-finish s = configured-close _ _ ∙ configured-send _ _

  configured-end :
      (env : Surroundings F) (s t : Session F)
      → handle_end env s ≡ done t
      → t.configured ≡ s.configured
  unfolding handle_end
  configured-end env s t h = elim (Option-cases s.engine) [
    | inl off ↦ ground (arith, configured-finish s)
    | inr (e, on) ↦ elim (outcome_cases (transcribe_sliding_window env.decode true e)) [
      | inl (what, bad) ↦ absurd (ground arith)
      | inr (res, e', good) ↦ ground (
        arith,
        configured-finish (record s {
          engine = some e';
          full_transcription = s.full_transcription ++ res.committed_text;
        }),
      )
    ]
  ]

  configured-flush :
      (env : Surroundings F) (locked : Bool) (p q : Process F)
      → flush_cycle env locked p ≡ done q
      → q.session.configured ≡ p.session.configured
  unfolding infer absorb report send_message
  configured-flush env locked p q h = elim (flush_cases env locked p) [
    | inl e ↦ ground arith
    | inr (e, _, _, i) ↦ elim (outcome_cases (transcribe_sliding_window env.decode false e)) [
      | inl (what, bad) ↦ ground arith
      | inr (res, e', good) ↦ ground arith
    ]
  ]

  -- A configuration that is refused leaves the session unconfigured.
  handle_config_admits :
      (env : Surroundings F) (msg : Json F) (p q : Process F)
      → p.session.configured ≡ false
      → q.session.configured ≡ true
      → handle_config env msg p ≡ done q
      → (auth' : AuthManager) × Admitted env msg p.auth auth'
  unfolding handle_config refuse send_error
  handle_config_admits env msg p q before after h = elim (authenticate_cases env msg p) [
    | inl (auth', _, admitted) ↦ (auth', admitted)
    | inr (inl (a, b, auth', e)) ↦ absurd (
        ground (
          arith,
          configured-send (Message.error a b) p.session,
          configured-close (CloseReason.policy_error [])
              (send_message (Message.error a b) p.session),
        ))
    | inr (inr e) ↦ absurd (ground arith)
  ]

  -- What the client has to have sent: a "config" message, with a token that `validate` accepts now unless
  -- authentication is off.
  abbrev Admits : Surroundings F → Json F → Process F → Type 0
  Admits env msg p =
      (type : Text) × (auth' : AuthManager) × (field (codes "type") msg ≡ some (string type))
      × (text_eq type (codes "config") ≡ true)
      × Admitted env msg p.auth auth'

  -- The step is the handling of such a message.
  abbrev pub LetIn : {decode : Decoder F} {p q : Process F} → Step decode p q → Type 0
  LetIn {p} (text env (some msg) d o h) = Admits env msg p
  LetIn (text env none d o h) = ⊥
  LetIn (text_throws env msg what p' d o h e) = ⊥
  LetIn (binary b now o e) = ⊥
  LetIn (closed now e) = ⊥
  LetIn (flush env locked d h) = ⊥
  LetIn (others c l a e) = ⊥

  replied-configured :
      (p q : Process F) (a b : Text)
      → replied p a b ≡ done q
      → q.session.configured ≡ p.session.configured
  unfolding send_error
  replied-configured p q a b h = ground (arith, configured-send (Message.error a b) p.session)

  text-LetIn :
      (env : Surroundings F) (msg : Json F) (p q : Process F)
      → p.session.configured ≡ false
      → q.session.configured ≡ true
      → handle_json_message env (some msg) p ≡ done q
      → Admits env msg p
  unfolding handle_json_message
  text-LetIn env msg p q before after h = elim (json_cases env msg p) [
    | inl (_, e) ↦ absurd (ground (arith, replied-configured p q _ _ (sym e ∙ h)))
    | inr (inl (type, typed, e)) ↦ elim (dispatch_cases env type msg p) [
      | inl (config, d) ↦
          let (auth', admitted) =
            handle_config_admits env msg p q before after (sym d ∙ sym e ∙ h) in
          (type, auth', typed, config, admitted)
      | inr (inl (_, d)) ↦ absurd (ground (arith, replied-configured p q _ _ (sym d ∙ sym e ∙ h)))
      | inr (inr (inl (ready, _, _))) ↦ absurd (ground arith)
      | inr (inr (inr (ready, _))) ↦ absurd (ground arith)
    ]
    | inr (inr e) ↦ absurd (ground arith)
  ]

  no_json :
      (env : Surroundings F) (p q : Process F)
      → p.session.configured ≡ false
      → q.session.configured ≡ true
      → handle_json_message env none p ≡ done q
      → ⊥
  unfolding handle_json_message
  no_json env p q before after h =
      ground (arith, replied-configured p q (codes "Invalid JSON: ") (codes "PARSE_ERROR") h)

  -- A step that makes a session configured is the handling of a text message, and this very message is
  -- a "config" message of a client that is let in: authentication is off, or the message carries a
  -- token that `validate` accepts at that moment.
  pub configured_needs_auth :
      (decode : Decoder F) (p q : Process F) (step : Step decode p q)
      → p.session.configured ≡ false
      → q.session.configured ≡ true
      → LetIn step
  configured_needs_auth decode p q (text env (some msg) d o h) before after =
      text-LetIn env msg p q before after h
  configured_needs_auth decode p q (text env none d o h) before after =
      no_json env p q before after h
  configured_needs_auth decode p q (text_throws env msg what p' d o h e) before after =
      absurd (ground (arith, handle_json-throws env msg what p p' h, configured-release env.now p'))
  configured_needs_auth decode p q (binary b now o e) before after =
      absurd (ground (arith, configured-binary b now p.session))
  configured_needs_auth decode p q (closed now e) before after =
      absurd (ground (arith, configured-release now p))
  configured_needs_auth decode p q (flush env locked d h) before after =
      absurd (ground (arith, configured-flush env locked p q h))
  configured_needs_auth decode p q (others c l a e) before after = absurd (ground arith)
