-- ===== src/Server/Join/Deadline.antt =====
-- The process ends in time.
use transcription_api.Prelude.{
  ℤ, pos_part, ℕ, zero, suc, ◌+◌, ◌*◌, ◌/◌, ◌≤◌, ◌<◌, max, ◌≡◌, refl, ◌⊎◌, inl, inr, Option, none,
  some, List, [], ◌∷◌, arith, leb, Bool-cases,
}
use transcription_api.Server.Join.{Exit, returned, forced, join_all, watchdog, shut_down}

-- The latest end, if all of them end.
abbrev pub AllEndBy : ℕ → List (Option ℕ) → Type 0
AllEndBy t [] = Unit
AllEndBy t (none ∷ ends) = ⊥
AllEndBy t (some u ∷ ends) = (u ≤ t) × AllEndBy t ends

-- How the polls come out.
abbrev Ends : ℕ → Option ℕ → Exit → Type 0
Ends deadline joined e =
    ((t : ℕ) × (e ≡ returned t) × (joined ≡ some t) × (t < deadline + 100))
    ⊎ ((t : ℕ) × (e ≡ forced t)
        × (deadline ≤ t)
        × (t < deadline + 100)
        × ((u : ℕ) → joined ≡ some u → t < u))

watchdog-Ends :
    (polls now deadline : ℕ) (joined : Option ℕ)
    → now < deadline + 100
    → deadline + 100 ≤ now + 100 * polls
    → Ends deadline joined (watchdog polls now deadline joined)
unfolding watchdog
watchdog-Ends zero now deadline joined early enough = absurd (omega (arith, early, enough))
watchdog-Ends (suc polls) now deadline none early enough = elim (Bool-cases (leb deadline now)) [
  | inl over ↦ rw over (inr (now, refl, ground (arith, over), early, λ u e. cc))
  | inr waits ↦ rw waits (
      watchdog-Ends polls (now + 100) deadline none (ground (arith, waits)) (omega (arith, enough)))
]
watchdog-Ends (suc polls) now deadline (some t) early enough = elim (Bool-cases (leb t now)) [
  | inl joined ↦ rw joined (inl (t, refl, refl, ground (arith, joined, early)))
  | inr alive ↦ elim (Bool-cases (leb deadline now)) [
    | inl over ↦
        rw alive
          (rw over (inr (now, refl, ground (arith, over), early, λ u e. ground (arith, alive, e))))
    | inr waits ↦ rw alive (
        rw waits (
          watchdog-Ends polls (now + 100) deadline (some t) (ground (arith, waits))
            (omega (arith, enough))))
  ]
]

join_all-AllEndBy :
    (now t : ℕ) (ends : List (Option ℕ)) → join_all now ends ≡ some t → (now ≤ t) × AllEndBy t ends
unfolding join_all
join_all-AllEndBy now t [] h = (ground (arith, h), tt)
join_all-AllEndBy now t (none ∷ ends) h = cc
join_all-AllEndBy now t (some u ∷ ends) h =
    let (later, by) = join_all-AllEndBy (max now u) t ends h in
    (omega (arith, later), (omega (arith, later), by))

AllEndBy-join_all :
    (now t : ℕ) (ends : List (Option ℕ))
    → now ≤ t
    → AllEndBy t ends
    → (u : ℕ) × (join_all now ends ≡ some u) × (u ≤ t)
unfolding join_all
AllEndBy-join_all now t [] le by = (now, refl, le)
AllEndBy-join_all now t (none ∷ ends) le by = absurd by
AllEndBy-join_all now t (some u ∷ ends) le (first, by) =
    AllEndBy-join_all (max now u) t ends (omega (arith, le, first)) by

-- Whatever the threads do, also if some never end, the process ends less than 100 ms after the timeout, a
-- negative one counting as 0: either `main` returns once all threads have ended, or the watchdog ends the
-- process at the timeout or later, while some thread still runs.
pub shut_down_in_time :
    (timeout : ℤ) (ends : List (Option ℕ))
    → let deadline = pos_part timeout * 1000 in
      ((t : ℕ) × (shut_down timeout ends ≡ returned t) × (t < deadline + 100) × AllEndBy t ends)
      ⊎ ((t : ℕ) × (shut_down timeout ends ≡ forced t)
          × (deadline ≤ t)
          × (t < deadline + 100)
          × (AllEndBy t ends → ⊥))
unfolding shut_down
shut_down_in_time timeout ends =
    let deadline = pos_part timeout * 1000 in
    elim (watchdog-Ends (deadline / 100 + 2) 0 deadline (join_all 0 ends) (omega arith)
      (omega arith)) [
        | inl (t, e, joined, early) ↦ inl (t, e, early, (join_all-AllEndBy 0 t ends joined).1)
        | inr (t, e, late, early, alive) ↦ inr (
          t,
          e,
          late,
          early,
          λ by.
              let (u, joined, le) = AllEndBy-join_all 0 t ends (omega arith) by in
              absurd (omega (arith, alive u joined, le)),
        )
      ]
