-- ===== src/Server/Join/Tests.antt =====
-- A timeout of 10 s: sessions that end in time, and one that does not.
use transcription_api.Prelude.{pos, ℕ, ◌≤◌, ◌<◌, ◌≡◌, refl, ◌⊎◌, Option, none, some, List, [], ◌∷◌}
use transcription_api.Server.Join.{returned, forced, shut_down}
use transcription_api.Server.Join.Deadline.{AllEndBy, shut_down_in_time}

graceful : shut_down (pos 10) (some 250 ∷ some 30 ∷ []) ≡ returned 250
unfolding shut_down
graceful = refl

killed : shut_down (pos 10) (some 250 ∷ some 30000 ∷ []) ≡ forced 10000
unfolding shut_down
killed = refl

abbrev endless : List (Option ℕ)
endless = some 250 ∷ none ∷ []

shut_down_in_time_example :
    ((t : ℕ) × (shut_down (pos 10) endless ≡ returned t) × (t < 10100) × AllEndBy t endless)
    ⊎ ((t : ℕ) × (shut_down (pos 10) endless ≡ forced t)
        × (10000 ≤ t)
        × (t < 10100)
        × (AllEndBy t endless → ⊥))
shut_down_in_time_example = shut_down_in_time (pos 10) endless
