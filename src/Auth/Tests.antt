-- ===== src/Auth/Tests.antt =====
-- Tokens, caches and answers, and the theorems on them at these.
use transcription_api.Prelude.{
  codes, Text_discrete, pos, ◌*◌, ◌≡◌, refl, ◌↔◌, ◌⊎◌, Bool, true, false, some, List, [], ◌∷◌,
  arith,
}
use transcription_api.Auth.{
  ApiAuthConfig, allowed, api_unavailable, AuthManager, auth_manager, validate, second,
}
use transcription_api.Auth.Compare.{constant_time_equal, constant_time_equal_iff}
use transcription_api.Auth.Answers.{Query, AllowedBefore}
use transcription_api.Auth.Decisions.{asked, serve, validate_history}
use transcription_api.Auth.Book.{empty_book, book_replies, replies}
use transcription_api.Auth.Refinement.{cache_refines}
use transcription_api.Auth.ApiClient.{Url, parse_url, Network}

abbrev with_api : ApiAuthConfig
with_api = record {
  api_base_url = codes "https://api.example.org/v1";
  api_secret_key = codes "key";
  timeout_seconds = pos 5;
  cache_ttl_seconds = pos 300;
  static_token = [];
}

abbrev with_token : ApiAuthConfig
with_token = record with_api { static_token = codes "abc" }

constant_time_equal_iff_example :
    (constant_time_equal (codes "abc") (codes "abd") ≡ true) ↔ (codes "abc" ≡ codes "abd")
constant_time_equal_iff_example =
    constant_time_equal_iff (codes "abc") (codes "abd")
      (omega arith, (omega arith, (omega arith, tt)))
      (omega arith, (omega arith, (omega arith, tt)))

abbrev first_call : Query
first_call = record { token = codes "abc"; at = 0; answered = second; answer = allowed }

abbrev later_call : Query
later_call = record {
  token = codes "abc";
  at = 10 * second;
  answered = 15 * second;
  answer = api_unavailable;
}

validate_history_example :
    (m : AuthManager) × (r : Bool) × (m' : AuthManager) × (serve
        (auth_manager with_api)
        (first_call ∷ [])
      ≡ some m)
    × (validate (asked api_unavailable) (codes "abc") (10 * second) (15 * second) m ≡ some (r, m'))
    × (r ≡ true
        → (api_unavailable ≡ allowed)
          ⊎ AllowedBefore (pos 300) (codes "abc") (10 * second) (first_call ∷ []))
validate_history_example = validate_history with_api (first_call ∷ []) later_call (λ e. cc) refl

abbrev api_url : Url
api_url = record { scheme = codes "https"; host = codes "api.example.org"; base_path = codes "/v1" }

parsed_api_url : parse_url (codes "https://api.example.org/v1") ≡ some api_url
unfolding parse_url
parsed_api_url = refl

-- A network whose second address answers that the account is active.
abbrev network : Network
network = record {
  resolve = λ host port. some (
      record { address = codes "fe80::1"; link_local_v6 = true }
      ∷ record { address = codes "192.0.2.7"; link_local_v6 = false }
      ∷ []);
  exchange = λ e req. some (record { status = 200; body = codes "{}" });
  is_active = λ body. some true;
}

-- Allowed by the API, remembered, and asked again when the answer is too old.
abbrev calls : List Query
calls = first_call ∷ later_call ∷ record later_call { at = 400 * second } ∷ []

booked : book_replies (pos 300) empty_book calls ≡ true ∷ true ∷ false ∷ []
unfolding Text_discrete
booked = refl

cache_refines_example :
    replies (auth_manager with_api) calls ≡ some (book_replies (pos 300) empty_book calls)
cache_refines_example =
    cache_refines with_api 0 calls (λ e. cc) refl (omega arith, (omega arith, (omega arith, tt)))
