-- ===== src/Server/Join.antt =====
-- src/server.cpp: `main` behind the accept loop, with its watchdog. Times are milliseconds from the start of
-- the watchdog; reading the clock takes no time, and a sleep takes what it is asked for.
pub mod Deadline
mod Tests
use transcription_api.Prelude.{
  ℤ, pos_part, ℕ, zero, suc, ◌+◌, ◌*◌, ◌/◌, max, Bool, false, Option, none, some, List, [], ◌∷◌,
  leb, if◌then◌else◌,
}

-- When all of some threads have been joined, one after the other; `none`: one of them never ends.
unfoldable pub join_all : ℕ → List (Option ℕ) → Option ℕ
join_all now [] = some now
join_all now (none ∷ ends) = none
join_all now (some t ∷ ends) = join_all (max now t) ends

abbrev pub joined_by : Option ℕ → ℕ → Bool
joined_by none now = false
joined_by (some t) now = leb t now

-- How the process ends: `main` returns 0, or the watchdog calls `exit(0)`, each with its time.
pub data Exit : Type 0 where
  returned forced : ℕ → Exit
  still_polling : Exit

-- The loop of the watchdog, for so many polls, from `now` on.
unfoldable pub watchdog : ℕ → ℕ → ℕ → Option ℕ → Exit
watchdog zero now deadline joined = still_polling
watchdog (suc polls) now deadline joined =
    let later = watchdog polls (now + 100) deadline joined in
    elim joined [
      | none ↦ if leb deadline now then forced now else later
      | some t ↦ if leb t now then returned t else if leb deadline now then forced now else later
    ]

-- `shutdown_timeout_sec`, and when the sessions' threads and the thread of `ioc` end.
unfoldable pub shut_down : ℤ → List (Option ℕ) → Exit
unfolding join_all watchdog
shut_down timeout ends =
    let deadline = pos_part timeout * 1000 in
    watchdog (deadline / 100 + 2) 0 deadline (join_all 0 ends)
