-- ===== src/InferenceLimiter.antt =====
-- src/whisper/InferenceLimiter.h: the cap on simultaneous whisper decodes. Each method runs under the
-- mutex, so it is one step; `acquire` waits on the condition variable, so it is a partial step.
pub mod Workers
pub mod Guard
mod Tests
use transcription_api.Prelude.{
  ℤ, pos, pos_part, ltb_ℤ, ℕ, ◌+◌, ◌-◌, Bool, true, false, Option, none, some, ltb, if◌then◌else◌,
}

-- `active_count_` and `max_concurrent_` are ints that no method makes negative.
pub record InferenceLimiter : Type 0 where
  pub active_count : ℕ
  pub max_concurrent : ℕ

-- `InferenceLimiter() = default`
abbrev pub inference_limiter : InferenceLimiter
inference_limiter = record { active_count = 0; max_concurrent = 4 }

unfoldable pub set_max_concurrency : ℤ → InferenceLimiter → InferenceLimiter
set_max_concurrency max_concurrent l =
    if ltb_ℤ (pos 0) max_concurrent
    then record l { max_concurrent = pos_part max_concurrent }
    else l

-- `none`: the predicate of `cv_.wait` fails, and the caller sleeps on.
unfoldable pub acquire : InferenceLimiter → Option InferenceLimiter
acquire l =
    if ltb l.active_count l.max_concurrent
    then some (record l { active_count = l.active_count + 1 })
    else none

unfoldable pub try_acquire : InferenceLimiter → Bool × InferenceLimiter
try_acquire l =
    if ltb l.active_count l.max_concurrent
    then (true, record l { active_count = l.active_count + 1 })
    else (false, l)

unfoldable pub release : InferenceLimiter → InferenceLimiter
release l = if ltb 0 l.active_count then record l { active_count = l.active_count - 1 } else l

unfoldable pub has_capacity : InferenceLimiter → Bool
has_capacity l = ltb l.active_count l.max_concurrent

-- A `Guard` around what ends with an outcome, an exception included: the destructor gives the slot back
-- on both ways out. `none`: the constructor sleeps on.
unfoldable pub guarded {ℓ} : {A : Type ℓ} → A → InferenceLimiter → Option (A × InferenceLimiter)
guarded outcome l = elim (acquire l) [ none ↦ none | some taken ↦ some (outcome, release taken) ]
