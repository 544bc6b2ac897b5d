-- ===== src/Auth/Book.antt =====
-- A book of the answers of the API, which forgets nothing, and the replies to calls in order.
use transcription_api.Prelude.{
  Text, text_eq, ℤ, ℕ, ◌≤◌, Bool, true, false, Option, none, some, List, [], ◌∷◌, leb,
  if◌then◌else◌,
}
use transcription_api.Auth.{
  AuthResult, allowed, denied, api_unavailable, CacheEntry, AuthManager, validate, add_seconds,
}
use transcription_api.Auth.Answers.{Query}
use transcription_api.Auth.Decisions.{asked}

-- The last answer of the API for every token, with the time up to which it counts.
abbrev pub Book : Type 0
Book = Text → Option CacheEntry

abbrev pub empty_book : Book
empty_book token = none

abbrev pub note : Text → CacheEntry → Book → Book
note k e b j = if text_eq k j then some e else b j

-- What an entry says at a time.
abbrev pub live : ℕ → Option CacheEntry → Option Bool
live t none = none
live t (some e) = if leb e.expires_at t then none else some e.is_valid

abbrev pub consult : ℤ → Text → ℕ → AuthResult → Book → Bool × Book
consult ttl token now api_unavailable b = (false, b)
consult ttl token now allowed b =
    (true, note token (record { is_valid = true; expires_at = add_seconds now ttl }) b)
consult ttl token now denied b =
    (false, note token (record { is_valid = false; expires_at = add_seconds now ttl }) b)

-- A call is answered by the book, if it has something that counts, and otherwise by the API.
abbrev pub reply_by : Option Bool → ℤ → Query → Book → Bool × Book
reply_by (some v) ttl q b = (v, b)
reply_by none ttl q b = consult ttl q.token q.answered q.answer b

abbrev pub reply : ℤ → Query → Book → Bool × Book
reply ttl q b = reply_by (live q.at (b q.token)) ttl q b

-- The replies to some calls, the first one first.
abbrev pub book_replies : ℤ → Book → List Query → List Bool
book_replies ttl b [] = []
book_replies ttl b (q ∷ qs) = let (r, b') = reply ttl q b in r ∷ book_replies ttl b' qs

unfoldable pub replies : AuthManager → List Query → Option (List Bool)
replies m [] = some []
replies m (q ∷ qs) = elim (validate (asked q.answer) q.token q.at q.answered m) [
  | none ↦ none
  | some (r, m') ↦ elim (replies m' qs) [ none ↦ none | some rs ↦ some (r ∷ rs) ]
]

-- The calls in the order of the clock.
abbrev pub Ordered : ℕ → List Query → Type 0
Ordered now [] = Unit
Ordered now (q ∷ qs) = (now ≤ q.at) × Ordered q.at qs
