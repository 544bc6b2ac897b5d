-- ===== src/Log/Tests.antt =====
-- A masked key and a line of the log.
use transcription_api.Prelude.{codes, ◌≡◌, refl, false, none, [], ◌∷◌, ◌++◌}
use transcription_api.Server.Numbers.{to_string}
use transcription_api.Log.{timestamp, log_debug, mask_key, write, cerr, warn}

masked : mask_key (codes "sk-1234567") ≡ codes "sk-123..."
unfolding mask_key
masked = refl

line :
    write warn (codes "Cache miss") (codes "a1") (codes "12:00:00.001")
    ≡ (cerr, codes "12:00:00.001 [WARN]  [a1] Cache miss" ++ 10 ∷ [])
unfolding write
line = refl

clock : timestamp 9 5 30 1700000000007 ≡ codes "09:05:30.007"
unfolding timestamp to_string
clock = refl

quiet : log_debug false (codes "n_seg") [] (codes "12:00:00.001") ≡ none
unfolding log_debug
quiet = refl
