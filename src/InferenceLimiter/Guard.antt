-- ===== src/InferenceLimiter/Guard.antt =====
-- The slot of a `Guard`.
use transcription_api.Prelude.{◌≤◌, ◌<◌, ◌≡◌, none, some, arith}
use transcription_api.InferenceLimiter.{InferenceLimiter, acquire, release, guarded}

-- With a free slot the body runs and the slot is free again behind it, however the body ends.
pub guarded_runs {ℓ} :
    {A : Type ℓ} (outcome : A) (l : InferenceLimiter)
    → l.active_count < l.max_concurrent
    → guarded outcome l ≡ some (outcome, l)
unfolding guarded acquire release
guarded_runs outcome l room = ground arith

-- Without one, it waits.
pub guarded_waits {ℓ} :
    {A : Type ℓ} (outcome : A) (l : InferenceLimiter)
    → l.max_concurrent ≤ l.active_count
    → guarded outcome l ≡ none
unfolding guarded acquire
guarded_waits outcome l full = ground arith
