-- ===== src/ConnectionLimiter/Tests.antt =====
-- A run of the limiter, and the histories' theorems at it.
use transcription_api.Prelude.{Text, codes, Text_discrete, ◌≡◌, refl, List, [], ◌∷◌}
use transcription_api.ConnectionLimiter.{
  Event, connect, hang_up, run, step, opened, try_acquire, release,
}

abbrev here : Text
here = codes "10.0.0.1"

abbrev there : Text
there = codes "10.0.0.2"

abbrev busy_day : List Event
busy_day =
    connect here ∷ connect here ∷ connect here ∷ connect there ∷ hang_up 1 ∷ connect there ∷ []

busy_day_guards : (run (opened 3 2) busy_day).guards ≡ there ∷ there ∷ here ∷ []
unfolding run opened step try_acquire release Text_discrete
busy_day_guards = refl
