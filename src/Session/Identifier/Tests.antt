-- ===== src/Session/Identifier/Tests.antt =====
-- One identifier.
use transcription_api.Prelude.{codes, ◌≡◌, refl}
use transcription_api.Server.Numbers.{to_string}
use transcription_api.Session.Identifier.{generate_session_id}

one_id : generate_session_id 1700000000123 4711 ≡ codes "session-1700000000123-4711"
unfolding generate_session_id to_string
one_id = refl
