-- ===== src/Auth.antt =====
-- src/auth/ApiAuthConfig.h, src/auth/AuthCache.{h,cpp}, src/server/AuthManager.{h,cpp}. The API client
-- is in Auth/ApiClient.antt. Time is an argument, in nanoseconds of the steady clock.
pub mod ApiClient
pub mod Compare
pub mod Cache
pub mod Answers
pub mod Decisions
pub mod Book
pub mod Refinement
mod Tests
use transcription_api.Prelude.{
  Text, is_empty, ℤ, pos, negsuc, ℕ, suc, ◌+◌, ◌-◌, ◌*◌, Bool, true, false, not, ◌||◌, Option, none,
  some, [], leb, if◌then◌else◌,
}
use transcription_api.Prelude.Dict.{Dict, lookup, insert, erase}
use Compare.{constant_time_equal}

pub record ApiAuthConfig : Type 0 where
  pub api_base_url : Text
  pub api_secret_key : Text
  pub timeout_seconds : ℤ
  pub cache_ttl_seconds : ℤ
  pub static_token : Text

pub data AuthResult : Type 0 where
  allowed denied api_unavailable : AuthResult

pub record CacheEntry : Type 0 where
  pub is_valid : Bool
  pub expires_at : ℕ

abbrev pub AuthCache : Type 0
AuthCache = Dict CacheEntry

abbrev pub second : ℕ
second = 1000000000

-- `now + std::chrono::seconds(n)`; the clock is far from its origin.
abbrev pub add_seconds : ℕ → ℤ → ℕ
add_seconds now (pos n) = now + n * second
add_seconds now (negsuc n) = now - suc n * second

-- `AuthCache::get`: an expired entry is erased.
unfoldable pub get : Text → ℕ → AuthCache → Option Bool × AuthCache
get token now entries = elim (lookup token entries) [
  | none ↦ (none, entries)
  | some e ↦
      if leb e.expires_at now then (none, erase token entries) else (some e.is_valid, entries)
]

-- `AuthCache::put`
unfoldable pub put : Text → Bool → ℤ → ℕ → AuthCache → AuthCache
put token is_valid ttl_seconds now entries =
    insert token (record { is_valid = is_valid; expires_at = add_seconds now ttl_seconds }) entries

pub record AuthManager : Type 0 where
  pub api_client : Option ApiAuthConfig
  pub cache : AuthCache
  pub auth_enabled : Bool
  pub cache_ttl_seconds : ℤ
  pub static_token : Text

-- The constructor.
unfoldable pub auth_manager : ApiAuthConfig → AuthManager
auth_manager config = record {
  api_client = if is_empty config.api_base_url then none else some config;
  cache = [];
  auth_enabled = not (is_empty config.api_base_url) || not (is_empty config.static_token);
  cache_ttl_seconds = config.cache_ttl_seconds;
  static_token = config.static_token;
}

unfoldable pub is_auth_enabled : AuthManager → Bool
is_auth_enabled m = m.auth_enabled

-- An answer of the API other than "unavailable" is cached.
unfoldable pub remember : Text → ℕ → AuthResult → AuthManager → Bool × AuthManager
unfolding put
remember token now api_unavailable m = (false, m)
remember token now allowed m =
    (true, record m { cache = put token true m.cache_ttl_seconds now m.cache })
remember token now denied m =
    (false, record m { cache = put token false m.cache_ttl_seconds now m.cache })

-- `validate`, which reads the clock in `get`, and in `put` behind the answer of the API; where `ask` is `ApiAuthClient::validate` of the client's configuration. `none` is a
-- call through the null `api_client_`.
unfoldable pub validate :
    (ApiAuthConfig → Text → AuthResult) → Text → ℕ → ℕ → AuthManager → Option (Bool × AuthManager)
unfolding constant_time_equal get remember
validate ask token now answered m =
    let (cached, entries) = get token now m.cache in
    let m' : AuthManager = record m { cache = entries } in
    if not m.auth_enabled
    then some (true, m)
    else if not (is_empty m.static_token)
    then some (constant_time_equal token m.static_token, m)
    else elim cached [
      | some v ↦ some (v, m')
      | none ↦ elim m.api_client [
        | none ↦ none
        | some config ↦ some (remember token answered (ask config token) m')
      ]
    ]
