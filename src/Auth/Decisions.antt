-- ===== src/Auth/Decisions.antt =====
-- The answers of `AuthManager::validate` over a history of calls.
use transcription_api.Prelude.{
  Text, ℕ, ◌≡◌, refl, sym, ap, ◌≢◌, ◌⊎◌, inl, inr, Bool, true, false, Option, none, some, List, [],
  ◌∷◌, arith, leb, Bool-cases, Option-cases,
}
use transcription_api.Prelude.Dict.{lookup, erase}
use transcription_api.Auth.{
  ApiAuthConfig, AuthResult, allowed, denied, api_unavailable, AuthCache, AuthManager, auth_manager,
  validate, remember, get, put, add_seconds,
}
use transcription_api.Auth.Compare.{constant_time_equal_iff, IsBytes}
use transcription_api.Auth.Answers.{
  Query, verdict, Justified, older, erase-Justified, insert-Justified, lookup-Justified,
  AllowedBefore, Answered-allowed,
}

-- The manager in API mode, and what its cache holds.
pub record IsServing (config : ApiAuthConfig) (h : List Query) (m : AuthManager) : Type 0 where
  pub client : m.api_client ≡ some config
  pub enabled : m.auth_enabled ≡ true
  pub no_static : m.static_token ≡ []
  pub same_ttl : m.cache_ttl_seconds ≡ config.cache_ttl_seconds
  pub justified : Justified config.cache_ttl_seconds h m.cache

abbrev pub asked : AuthResult → ApiAuthConfig → Text → AuthResult
asked answer config token = answer

with_cache :
    (config : ApiAuthConfig) (h : List Query) (m : AuthManager) (c : AuthCache)
    → IsServing config h m
    → Justified config.cache_ttl_seconds h c
    → IsServing config h (record m { cache = c })
with_cache config h m c v j = record {
  client = v.client;
  enabled = v.enabled;
  no_static = v.no_static;
  same_ttl = v.same_ttl;
  justified = j;
}

-- What the API says is remembered with the time of the call.
put-Justified :
    (config : ApiAuthConfig) (h : List Query) (q : Query) (m : AuthManager) (b : Bool)
    → IsServing config h m
    → q.answer ≡ verdict b
    → Justified config.cache_ttl_seconds
        (q ∷ h)
        (put q.token b m.cache_ttl_seconds q.answered m.cache)
unfolding put
put-Justified config h q m b v e =
    insert-Justified config.cache_ttl_seconds (q ∷ h) q.token _ m.cache
      (inl (refl, ap (add_seconds q.answered) (sym v.same_ttl), e))
      (older config.cache_ttl_seconds q h m.cache v.justified)

grown :
    (config : ApiAuthConfig) (h : List Query) (q : Query) (m : AuthManager)
    → IsServing config h m
    → IsServing config (q ∷ h) m
grown config h q m v = record {
  client = v.client;
  enabled = v.enabled;
  no_static = v.no_static;
  same_ttl = v.same_ttl;
  justified = older config.cache_ttl_seconds q h m.cache v.justified;
}

remember_step :
    (config : ApiAuthConfig) (h : List Query) (q : Query) (m : AuthManager) (a : AuthResult)
    → IsServing config h m
    → q.answer ≡ a
    → let (r, m') = remember q.token q.answered a m in
      IsServing config (q ∷ h) m' × (r ≡ true → a ≡ allowed)
unfolding remember
remember_step config h q m api_unavailable v e = (grown config h q m v, λ x. cc)
remember_step config h q m allowed v e = (
  with_cache config (q ∷ h) m _ (grown config h q m v) (put-Justified config h q m true v e),
  λ x. refl,
)
remember_step config h q m denied v e = (
  with_cache config (q ∷ h) m _ (grown config h q m v) (put-Justified config h q m false v e),
  λ x. cc,
)

-- What one call may do to a serving manager.
abbrev Serves : ApiAuthConfig → List Query → Query → AuthManager → Type 0
Serves config h q m =
    (r : Bool) × (m' : AuthManager) × (validate (asked q.answer) q.token q.at q.answered m
      ≡ some (r, m'))
    × IsServing config (q ∷ h) m'
    × (r ≡ true → (q.answer ≡ allowed) ⊎ AllowedBefore config.cache_ttl_seconds q.token q.at h)

-- A miss in the cache asks the API.
miss_step :
    (config : ApiAuthConfig) (h : List Query) (q : Query) (m : AuthManager) (c : AuthCache)
    → IsServing config h m
    → get q.token q.at m.cache ≡ (none, c)
    → Justified config.cache_ttl_seconds h c
    → Serves config h q m
unfolding validate
miss_step config h q m c v e j =
    let m0 : AuthManager = record m { cache = c } in
    let (serving, honest) =
      remember_step config h q m0 q.answer (with_cache config h m c v j) refl in
    (
      (remember q.token q.answered q.answer m0).0,
      (remember q.token q.answered q.answer m0).1,
      ground (arith, v.enabled, v.no_static, v.client),
      serving,
      λ yes_said. inl (honest yes_said),
    )

serve_step :
    (config : ApiAuthConfig) (h : List Query) (q : Query) (m : AuthManager)
    → IsServing config h m
    → Serves config h q m
unfolding validate get
serve_step config h q m v = elim (Option-cases (lookup q.token m.cache)) [
  | inl missing ↦ miss_step config h q m m.cache v (ground arith) v.justified
  | inr (e, found) ↦ elim (Bool-cases (leb e.expires_at q.at)) [
    | inl stale ↦
        miss_step config h q m (erase q.token m.cache) v (ground arith)
          (erase-Justified config.cache_ttl_seconds h q.token m.cache v.justified)
    | inr fresh ↦ (
      e.is_valid,
      m,
      ground (arith, v.enabled, v.no_static),
      grown config h q m v,
      λ valid. inr (
          Answered-allowed config.cache_ttl_seconds q.token q.at e h valid (ground arith)
            (lookup-Justified config.cache_ttl_seconds h q.token e m.cache v.justified found)),
    )
  ]
]

-- A history of calls, the latest first, and the manager behind it; `none` is a null `api_client_`.
unfoldable pub serve : AuthManager → List Query → Option AuthManager
serve m [] = some m
serve m (q ∷ h) = elim (serve m h) [
  | none ↦ none
  | some m1 ↦ elim (validate (asked q.answer) q.token q.at q.answered m1) [
    | none ↦ none
    | some (r, m2) ↦ some m2
  ]
]

serve-IsServing :
    (config : ApiAuthConfig) (h : List Query)
    → config.api_base_url ≢ []
    → config.static_token ≡ []
    → (m : AuthManager) × (serve (auth_manager config) h ≡ some m) × IsServing config h m
unfolding serve auth_manager
serve-IsServing config [] url st = (
  auth_manager config,
  refl,
  record {
    client = ground arith;
    enabled = ground arith;
    no_static = st;
    same_ttl = refl;
    justified = tt;
  },
)
serve-IsServing config (q ∷ h) url st =
    let (m, e, v) = serve-IsServing config h url st in
    let (r, m', e', v', _) = serve_step config h q m v in (m', rw (e, serve) (rw e'), v')

-- With an API and no static token, every history of calls gets answers. A call is granted only if the
-- API allows the token at that very call, or allowed it at an earlier one whose answer is younger than
-- the cache's time to live. An API that is unavailable grants nothing by itself.
pub validate_history :
    (config : ApiAuthConfig) (h : List Query) (q : Query)
    → config.api_base_url ≢ []
    → config.static_token ≡ []
    → (m : AuthManager) × (r : Bool) × (m' : AuthManager) × (serve (auth_manager config) h ≡ some m)
      × (validate (asked q.answer) q.token q.at q.answered m ≡ some (r, m'))
      × (r ≡ true → (q.answer ≡ allowed) ⊎ AllowedBefore config.cache_ttl_seconds q.token q.at h)
validate_history config h q url st =
    let (m, e, v) = serve-IsServing config h url st in
    let (r, m', e', _, honest) = serve_step config h q m v in (m, r, m', e, e', honest)

-- A static token decides alone, also where an API is configured: the API is not asked, and the cache
-- stays as it was.
pub validate_static :
    (ask : ApiAuthConfig → Text → AuthResult) (config : ApiAuthConfig) (token : Text)
    (now answered : ℕ)
    → config.static_token ≢ []
    → IsBytes config.static_token
    → IsBytes token
    → let m = auth_manager config in
      (token ≡ config.static_token → validate ask token now answered m ≡ some (true, m))
      × (token ≢ config.static_token → validate ask token now answered m ≡ some (false, m))
unfolding validate auth_manager
validate_static ask config token now answered st hs ht =
    let exact = constant_time_equal_iff token config.static_token ht hs in
    ((λ e. ground (arith, exact)), λ ne. ground (arith, exact))
