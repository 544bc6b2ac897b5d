-- ===== src/InferenceLimiter/Tests.antt =====
-- Two threads at a limit of one, and the theorems at a state that they reach.
use transcription_api.Prelude.{List, [], ◌∷◌}
use transcription_api.InferenceLimiter.Workers.{Phase, away, asleep, decoding, Crew}

abbrev two_away : List Phase
two_away = away ∷ away ∷ []

-- The first thread decodes and the second sleeps.
abbrev one_each : Crew
one_each = record {
  limiter = record { active_count = 1; max_concurrent = 4 };
  phases = decoding ∷ asleep ∷ [];
}
