-- ===== src/Log.antt =====
-- src/log/Log.h: the line of a message, and `maskKey`, by which tokens and keys reach the log. The text of
-- the local time is an argument.
mod Tests
use transcription_api.Server.Numbers.{to_string}
use transcription_api.Prelude.{
  Text, codes, is_empty, ℕ, ◌-◌, ◌%◌, ◌≤◌, ◌<◌, ◌≡◌, ◌⊎◌, inl, inr, Bool, true, false, Option, none,
  some, [], ◌∷◌, ◌++◌, arith, leb, if◌then◌else◌, length, take, replicate,
}

unfoldable pub mask_key : Text → Text
mask_key key = if leb (length key) 6 then codes "***" else take 6 key ++ codes "..."

-- The log does not tell apart two keys of which it shows the same: any two keys of at most 6 bytes,
-- and any two longer keys with the same first 6 bytes.
pub mask_key_hides :
    (a b : Text)
    → ((length a ≤ 6) × (length b ≤ 6)) ⊎ ((6 < length a) × (6 < length b) × (take 6 a ≡ take 6 b))
    → mask_key a ≡ mask_key b
unfolding mask_key
mask_key_hides a b (inl short) = ground arith
mask_key_hides a b (inr long) = ground arith

pub data Level : Type 0 where
  debug info warn error : Level

unfoldable pub tag : Level → Text
tag debug = codes "[DEBUG]"
tag info = codes "[INFO] "
tag warn = codes "[WARN] "
tag error = codes "[ERROR]"

pub data Stream : Type 0 where
  cout cerr : Stream

abbrev pub is_severe : Level → Bool
is_severe debug = false
is_severe info = false
is_severe warn = true
is_severe error = true

-- Where a message goes, and its line.
unfoldable pub write : Level → Text → Text → Text → Stream × Text
unfolding tag
write level msg ctx timestamp = (
  (if is_severe level then cerr else cout),
  timestamp
      ++ codes " "
      ++ tag level
      ++ (if is_empty ctx then [] else codes " [" ++ ctx ++ codes "]")
      ++ codes " "
      ++ msg
      ++ 10 ∷ [],
)

-- The four calls, with the text of the time. `compiled` is whether LOG_NO_DEBUG is not defined.
unfoldable pub log_debug : Bool → Text → Text → Text → Option (Stream × Text)
log_debug compiled msg ctx timestamp =
    if compiled then some (write debug msg ctx timestamp) else none

unfoldable pub log_info : Text → Text → Text → Stream × Text
log_info = write info

unfoldable pub log_warn : Text → Text → Text → Stream × Text
log_warn = write warn

unfoldable pub log_error : Text → Text → Text → Stream × Text
log_error = write error

-- A number in a field of some width, filled with zeros.
abbrev padded : ℕ → ℕ → Text
padded width n = let shown = to_string n in replicate (width - length shown) b'0' ++ shown

-- `timestamp`, for the local time of day and the milliseconds since the epoch.
unfoldable pub timestamp : ℕ → ℕ → ℕ → ℕ → Text
timestamp hour minute sec since_epoch =
    padded 2 hour
    ++ codes ":"
    ++ padded 2 minute
    ++ codes ":"
    ++ padded 2 sec
    ++ codes "."
    ++ padded 3 (since_epoch % 1000)
