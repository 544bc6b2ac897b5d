-- ===== src/ModelCache/Timers.antt =====
-- When an idle model is unloaded: the three meanings of the TTL, and the timer threads.
use transcription_api.Prelude.{
  Text, pos, negsuc, ℕ, suc, ◌+◌, ◌*◌, ◌<◌, ◌≡◌, Bool, true, none, some, ◌∷◌, arith,
}
use transcription_api.Auth.{second}
use transcription_api.ModelCache.{ModelCache, Loader, acquire, release, timer_body}

-- What the last `release` of a loaded model does, by its TTL: 0 frees the model at once, a positive TTL keeps it and sets one timer
-- for `ttl` seconds from now, a negative one keeps it with no timer.
pub release_last :
    (now h : ℕ) (c : ModelCache)
    → c.ctx ≡ some h
    → c.ref_count ≡ 1
    → let c' = release now c in
      (c'.ref_count ≡ 0)
      × (c.ttl_seconds ≡ pos 0 → (c'.ctx ≡ none) × (c'.frees ≡ h ∷ c.frees))
      × ((n : ℕ)
          → c.ttl_seconds ≡ pos (suc n)
          → (c'.ctx ≡ some h)
            × (c'.unload_pending ≡ true)
            × (c'.timers ≡ (now + suc n * second) ∷ c.timers))
      × ((n : ℕ)
          → c.ttl_seconds ≡ negsuc n
          → (c'.ctx ≡ some h) × (c'.unload_pending ≡ c.unload_pending) × (c'.timers ≡ c.timers))
unfolding release
release_last now h c e r =
    (ground arith, (λ t. ground arith), (λ n t. ground arith), λ n t. ground arith)

-- A timer that fires right after an `acquire` that succeeded has no effect, whatever it was set for.
pub acquire-timer_body :
    (init : Loader) (path : Text) (use_gpu : Bool) (c : ModelCache) (h : ℕ)
    → (acquire init path use_gpu c).0 ≡ some h
    → timer_body (acquire init path use_gpu c).1 ≡ (acquire init path use_gpu c).1
unfolding acquire timer_body
acquire-timer_body init path use_gpu c h e = ground arith

-- Timers are not tied to the release that set them. If the last reference to a model with
-- a positive TTL is released at t0, acquired again and released at a later t2, then the timer that is
-- due at t0 + ttl, earlier than t2 + ttl, unloads the model if it fires now.
pub stale_timer_unloads :
    (init : Loader) (c : ModelCache) (h n t0 t2 : ℕ)
    → c.ctx ≡ some h
    → c.ref_count ≡ 1
    → c.ttl_seconds ≡ pos (suc n)
    → t0 < t2
    → let c1 = release t0 c in
      let c2 = (acquire init c.loaded_path true c1).1 in
      let c3 = release t2 c2 in
      (c3.timers ≡ (t2 + suc n * second) ∷ (t0 + suc n * second) ∷ c.timers)
      × (t0 + suc n * second < t2 + suc n * second)
      × ((timer_body c3).ctx ≡ none)
      × ((timer_body c3).frees ≡ h ∷ c.frees)
unfolding acquire release timer_body
stale_timer_unloads init c h n t0 t2 e r t lt =
    (ground arith, omega arith, ground arith, ground arith)
