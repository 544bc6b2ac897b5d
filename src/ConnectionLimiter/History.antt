-- ===== src/ConnectionLimiter/History.antt =====
-- Histories of a server: clients connect and hang up in any order.
use transcription_api.Prelude.{
  Text, ℕ, ◌≤◌, ◌<◌, ◌≡◌, refl, ◌∙◌, subst, inl, inr, true, ◌&&◌, List, [], ◌∷◌, arith, ltb,
  Option-cases, length, get_elem?,
}
use transcription_api.ConnectionLimiter.{
  connection_limiter, try_acquire, release, Doorman, Event, connect, hang_up, step, run, opened,
}
use transcription_api.ConnectionLimiter.Holders.{
  count, Represents, try_acquire-Represents, release-Represents,
}

abbrev IsSound : Doorman → Type 0
IsSound s = Represents s.limiter s.guards

opened-IsSound : (m n : ℕ) → IsSound (opened m n)
unfolding opened
opened-IsSound m n = record {
  tallies = record { keyed = tt; exact = λ ip. refl };
  counted = refl;
  within = omega arith;
  shared = λ ip. omega arith;
}

pub step-IsSound : (s : Doorman) (e : Event) → IsSound s → IsSound (step s e)
unfolding step
step-IsSound s (connect ip) h = (try_acquire-Represents ip s.limiter s.guards h).1
step-IsSound s (hang_up i) h = elim (Option-cases (get_elem? s.guards i)) [
  | inl gone ↦ rw (gone, step) h
  | inr (ip, e) ↦ rw (e, step) (release-Represents ip i s.limiter s.guards e h)
]

run-IsSound : (s : Doorman) (es : List Event) → IsSound s → IsSound (run s es)
unfolding run
run-IsSound s [] h = h
run-IsSound s (e ∷ es) h = run-IsSound (step s e) es (step-IsSound s e h)

limits-step :
    (s : Doorman) (e : Event)
    → ((step s e).limiter.max_total ≡ s.limiter.max_total)
      × ((step s e).limiter.max_per_ip ≡ s.limiter.max_per_ip)
unfolding step try_acquire release
limits-step s (connect ip) = ground arith
limits-step s (hang_up i) = ground arith

limits-run :
    (s : Doorman) (es : List Event)
    → ((run s es).limiter.max_total ≡ s.limiter.max_total)
      × ((run s es).limiter.max_per_ip ≡ s.limiter.max_per_ip)
unfolding run
limits-run s [] = (refl, refl)
limits-run s (e ∷ es) =
    let before = limits-step s e in
    let after = limits-run (step s e) es in (after.0 ∙ before.0, after.1 ∙ before.1)

-- After any history of connections and hang-ups, the live guards are at most `max_total`, those of
-- one address at most `max_per_ip`, and `total` is their number.
pub run_limits :
    (m n : ℕ) (es : List Event)
    → let s = run (opened m n) es in
      (s.limiter.total ≡ length s.guards)
      × (length s.guards ≤ m)
      × ((ip : Text) → count ip s.guards ≤ n)
unfolding opened connection_limiter
run_limits m n es =
    let r = run-IsSound (opened m n) es (opened-IsSound m n) in
    let fixed = limits-run (opened m n) es in
    (r.counted, omega (arith, r.within, fixed.0), λ ip. omega (arith, r.shared ip, fixed.1))

-- After any history the next connection is admitted exactly if both limits still have room for it.
pub run_admits :
    (m n : ℕ) (es : List Event) (ip : Text)
    → let s = run (opened m n) es in
      (try_acquire ip s.limiter).0 ≡ (ltb (length s.guards) m && ltb (count ip s.guards) n)
unfolding opened connection_limiter
run_admits m n es ip =
    let s = run (opened m n) es in
    let r = run-IsSound (opened m n) es (opened-IsSound m n) in
    let fixed = limits-run (opened m n) es in
    subst
      (λ (k : ℕ).
        (try_acquire ip s.limiter).0 ≡ (ltb (length s.guards) k && ltb (count ip s.guards) n))
      fixed.0
      (subst
        (λ (k : ℕ).
          (try_acquire ip s.limiter).0
          ≡ (ltb (length s.guards) s.limiter.max_total && ltb (count ip s.guards) k))
        fixed.1 (try_acquire-Represents ip s.limiter s.guards r).0)

-- A limiter with all guards gone admits again: nothing is left of the earlier connections.
pub run_drained :
    (m n : ℕ) (es : List Event) (ip : Text)
    → 0 < m
    → 0 < n
    → (run (opened m n) es).guards ≡ []
    → (try_acquire ip (run (opened m n) es).limiter).0 ≡ true
run_drained m n es ip hm hn e = run_admits m n es ip ∙ room
  where
    room :
        (ltb (length (run (opened m n) es).guards) m
          && ltb (count ip (run (opened m n) es).guards) n)
        ≡ true
    room = rw e (ground arith)
