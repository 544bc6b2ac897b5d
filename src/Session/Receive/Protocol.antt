-- ===== src/Session/Receive/Protocol.antt =====
-- The authentication of a configuration message.
use transcription_api.Prelude.{
  Text, codes, text_eq, ◌≡◌, refl, ◌⊎◌, inl, inr, true, false, not, Option, none, some, ◌++◌, arith,
  Bool-cases, Option-cases,
}
use transcription_api.Float.{FloatOps}
use transcription_api.Auth.{AuthManager, is_auth_enabled, validate}
use transcription_api.Session.State.{
  Process, Surroundings, Handled, done, throws, faults, Json, Field, string, number, other, field,
  send_error,
}
use transcription_api.Session.Receive.{
  authenticate, refuse, handle_config, handle_end, with_session, dispatch, handle_json_message,
  not_configured_text,
}

module _ {F : Type 0} ⦃fl : FloatOps F⦄ where
  -- The client may go on: authentication is off, or its token was found valid.
  abbrev pub Admitted : Surroundings F → Json F → AuthManager → AuthManager → Type 0
  Admitted env msg auth auth' =
      ((is_auth_enabled auth ≡ false) × (auth' ≡ auth))
      ⊎ ((token : Text) × (field (codes "token") msg ≡ some (string token))
          × (validate env.ask token env.now env.answered auth ≡ some (true, auth')))

  -- The four ends of the authentication.
  abbrev pub Ends : Surroundings F → Json F → Process F → Type 0
  Ends env msg p =
      ((auth' : AuthManager) × (authenticate env msg p ≡ done (true, record p { auth = auth' }))
        × Admitted env msg p.auth auth')
      ⊎ ((message : Text) × (code : Text) × (auth' : AuthManager) × (authenticate env msg p
            ≡ done (false, refuse message code (record p { auth = auth' }))))
      ⊎ (authenticate env msg p ≡ faults)

  pub authenticate_cases : (env : Surroundings F) (msg : Json F) (p : Process F) → Ends env msg p
  unfolding authenticate
  authenticate_cases env msg p = elim (Bool-cases (is_auth_enabled p.auth)) [
    | inr off ↦ inl (p.auth, ground arith, inl (off, refl))
    | inl on ↦ by_field on (field (codes "token") msg) refl
  ]
    where
      missing :
          not (is_auth_enabled p.auth) ≡ false
          → authenticate env msg p
            ≡ done (false, refuse (codes "Missing or invalid 'token'") (codes "AUTH_REQUIRED") p)
          → Ends env msg p
      missing on e = inr (inl (_, _, p.auth, e))

      by_field :
          is_auth_enabled p.auth ≡ true
          → (o : Option (Field F)) → field (codes "token") msg ≡ o
          → Ends env msg p
      by_field on none e = missing (ground arith) (ground arith)
      by_field on (some (number x)) e = missing (ground arith) (ground arith)
      by_field on (some other) e = missing (ground arith) (ground arith)
      by_field on (some (string token)) e =
          elim (Option-cases (validate env.ask token env.now env.answered p.auth)) [
            | inl null ↦ inr (inr (ground arith))
            | inr ((true, auth'), valid) ↦ inl (auth', ground arith, inr (token, e, valid))
            | inr ((false, auth'), wrong) ↦
                inr (inl (codes "Invalid token", codes "AUTH_FAILED", auth', ground arith))
          ]

module _ {F : Type 0} ⦃fl : FloatOps F⦄ where
  abbrev pub replied : Process F → Text → Text → Handled (Process F)
  replied p message code = done (record p { session = send_error message code p.session })

  -- What a message with a `type` does, in every case.
  abbrev pub Dispatched : Surroundings F → Text → Json F → Process F → Type 0
  Dispatched env type msg p =
      ((text_eq type (codes "config") ≡ true) × (dispatch env type msg p ≡ handle_config env msg p))
      ⊎ ((p.session.configured ≡ false)
          × (dispatch env type msg p ≡ replied p not_configured_text (codes "NOT_CONFIGURED")))
      ⊎ ((p.session.configured ≡ true)
          × (text_eq type (codes "end") ≡ true)
          × (dispatch env type msg p ≡ with_session p (handle_end env p.session)))
      ⊎ ((p.session.configured ≡ true)
          × (dispatch env type msg p
              ≡ replied p (codes "Unknown message type: " ++ type) (codes "UNKNOWN_TYPE")))

  pub dispatch_cases :
      (env : Surroundings F) (type : Text) (msg : Json F) (p : Process F)
      → Dispatched env type msg p
  unfolding dispatch
  dispatch_cases env type msg p = elim (Bool-cases (text_eq type (codes "config"))) [
    | inl config ↦ inl (config, rw (config, dispatch))
    | inr not_config ↦ elim (Bool-cases p.session.configured) [
      | inr early ↦ inr (inl (early, rw (not_config, early, dispatch)))
      | inl ready ↦ elim (Bool-cases (text_eq type (codes "end"))) [
        | inl end ↦ inr (inr (inl (ready, end, rw (not_config, ready, end, dispatch))))
        | inr unknown ↦ inr (inr (inr (ready, rw (not_config, ready, unknown, dispatch))))
      ]
    ]
  ]

  -- What `handle_json_message` does by the `type` field.
  abbrev pub Parsed : Surroundings F → Json F → Process F → Type 0
  Parsed env msg p =
      ((field (codes "type") msg ≡ none)
        × (handle_json_message env (some msg) p
            ≡ replied p (codes "Missing 'type' field") (codes "INVALID_MESSAGE")))
      ⊎ ((type : Text) × (field (codes "type") msg ≡ some (string type))
          × (handle_json_message env (some msg) p ≡ dispatch env type msg p))
      ⊎ (handle_json_message env (some msg) p ≡ throws (codes "type_error") p)

  pub json_cases : (env : Surroundings F) (msg : Json F) (p : Process F) → Parsed env msg p
  unfolding handle_json_message
  json_cases env msg p = by_type (field (codes "type") msg) refl
    where
      by_type : (o : Option (Field F)) → field (codes "type") msg ≡ o → Parsed env msg p
      by_type none e = inl (e, rw (e, handle_json_message))
      by_type (some (string type)) e = inr (inl (type, e, rw (e, handle_json_message)))
      by_type (some (number x)) e = inr (inr (rw (e, handle_json_message)))
      by_type (some other) e = inr (inr (rw (e, handle_json_message)))
