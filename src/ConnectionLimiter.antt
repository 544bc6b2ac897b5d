-- ===== src/ConnectionLimiter.antt =====
-- src/server/ConnectionLimiter.{h,cpp}, and the guards of src/server/ConnectionGuard.{h,cpp} that
-- the accept loop of src/server.cpp creates. Each operation runs under the limiter's mutex, so it is
-- one step.
pub mod Holders
pub mod History
mod Tests
use transcription_api.Prelude.{
  Text, ℕ, zero, suc, ◌+◌, ◌-◌, Bool, true, false, Option, none, some, List, [], ◌∷◌, ltb, leb,
  ◌==◌, if◌then◌else◌, get_elem?,
}
use transcription_api.Prelude.Dict.{Dict, lookup, insert, erase}

pub record ConnectionLimiter : Type 0 where
  pub per_ip : Dict ℕ
  pub max_total : ℕ
  pub max_per_ip : ℕ
  pub total : ℕ

-- The constructor.
unfoldable pub connection_limiter : ℕ → ℕ → ConnectionLimiter
connection_limiter max_total max_per_ip = record {
  per_ip = [];
  max_total = max_total;
  max_per_ip = max_per_ip;
  total = 0;
}

-- `per_ip_[ip]` of a missing key.
abbrev pub or_zero : Option ℕ → ℕ
or_zero none = 0
or_zero (some n) = n

-- The subscript also creates the entry.
unfoldable pub touch : Text → Dict ℕ → Dict ℕ
touch ip d = elim (lookup ip d) [ none ↦ insert ip 0 d | some n ↦ d ]

unfoldable pub try_acquire : Text → ConnectionLimiter → Bool × ConnectionLimiter
unfolding touch
try_acquire ip l =
    let seen = touch ip l.per_ip in
    let count = or_zero (lookup ip l.per_ip) in
    if leb l.max_total l.total
    then (false, l)
    else if leb l.max_per_ip count
    then (false, record l { per_ip = seen })
    else (true, record l { per_ip = insert ip (count + 1) seen; total = l.total + 1 })

-- What `release` leaves of the entries.
unfoldable pub drop_one : Text → Dict ℕ → Dict ℕ
drop_one ip d = elim (lookup ip d) [
  | none ↦ d
  | some n ↦ if ltb 0 n then if n - 1 == 0 then erase ip d else insert ip (n - 1) d else d
]

unfoldable pub release : Text → ConnectionLimiter → ConnectionLimiter
unfolding drop_one
release ip l = record l {
  per_ip = drop_one ip l.per_ip;
  total = if ltb 0 l.total then l.total - 1 else l.total;
}

-- A server with its limiter and the address of each live `ConnectionGuard`.
pub record Doorman : Type 0 where
  pub limiter : ConnectionLimiter
  pub guards : List Text

-- A client connects from an address; the thread of the i-th live guard ends.
pub data Event : Type 0 where
  connect : Text → Event
  hang_up : ℕ → Event

abbrev pub remove_at : ℕ → List Text → List Text
remove_at i [] = []
remove_at zero (x ∷ xs) = xs
remove_at (suc i) (x ∷ xs) = x ∷ remove_at i xs

-- `connect` is the accept loop's `tryAcquire`, then `handleSession` makes the guard; `hang_up` is
-- the guard's destructor, or the release where the thread cannot be started.
unfoldable pub step : Doorman → Event → Doorman
step s (connect ip) =
    let (admitted, l) = try_acquire ip s.limiter in
    record { limiter = l; guards = if admitted then ip ∷ s.guards else s.guards }
step s (hang_up i) = elim (get_elem? s.guards i) [
  | none ↦ s
  | some ip ↦ record { limiter = release ip s.limiter; guards = remove_at i s.guards }
]

unfoldable pub run : Doorman → List Event → Doorman
run s [] = s
run s (e ∷ es) = run (step s e) es

unfoldable pub opened : ℕ → ℕ → Doorman
unfolding connection_limiter
opened max_total max_per_ip = record {
  limiter = connection_limiter max_total max_per_ip;
  guards = [];
}
