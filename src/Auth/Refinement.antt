-- ===== src/Auth/Refinement.antt =====
-- `AuthManager` with its cache against a book that forgets nothing.
use transcription_api.Prelude.{
  Text, Text_discrete, ℤ, ℕ, ◌≤◌, ◌≡◌, refl, sym, subst, ◌≢◌, inl, inr, Bool, true, false, Option,
  none, some, List, [], ◌∷◌, arith, leb, Bool-cases, Option-cases,
}
use transcription_api.Prelude.Dict.{
  lookup, insert, erase, Keyed, lookup-insert_self, lookup-insert_ne, lookup-erase_self,
  lookup-erase_ne, insert-Keyed, erase-Keyed,
}
use transcription_api.Auth.{
  ApiAuthConfig, AuthResult, allowed, denied, api_unavailable, AuthCache, CacheEntry, AuthManager,
  auth_manager, validate, remember, get, put, add_seconds,
}
use transcription_api.Auth.Answers.{Query}
use transcription_api.Auth.Decisions.{asked}
use transcription_api.Auth.Book.{
  empty_book, Book, note, live, consult, reply_by, reply, book_replies, replies, Ordered,
}

-- From `now` on, the cache says what the book says.
abbrev Agrees : ℕ → AuthCache → Book → Type 0
Agrees now c b = (token : Text) (t : ℕ) → now ≤ t → live t (lookup token c) ≡ live t (b token)

record Matches (config : ApiAuthConfig) (now : ℕ) (m : AuthManager) (b : Book) : Type 0 where
  client : m.api_client ≡ some config
  enabled : m.auth_enabled ≡ true
  no_static : m.static_token ≡ []
  same_ttl : m.cache_ttl_seconds ≡ config.cache_ttl_seconds
  keyed : Keyed m.cache
  agrees : Agrees now m.cache b

with_cache :
    (config : ApiAuthConfig) (now later : ℕ) (m : AuthManager) (c : AuthCache) (b b' : Book)
    → Matches config now m b
    → Keyed c
    → Agrees later c b'
    → Matches config later (record m { cache = c }) b'
with_cache config now later m c b b' v k a = record {
  client = v.client;
  enabled = v.enabled;
  no_static = v.no_static;
  same_ttl = v.same_ttl;
  keyed = k;
  agrees = a;
}

insert-Agrees :
    (now : ℕ) (k : Text) (e : CacheEntry) (c : AuthCache) (b : Book)
    → Agrees now c b
    → Agrees now (insert k e c) (note k e b)
insert-Agrees now k e c b a token t h = elim (Text_discrete k token) [
  | yes same ↦ ground (arith, same, lookup-insert_self k e c)
  | no other ↦ ground (arith, a token t h, lookup-insert_ne token k e c)
]

-- An entry that is over by `now` can go.
erase-Agrees :
    (now : ℕ) (k : Text) (e : CacheEntry) (c : AuthCache) (b : Book)
    → Keyed c
    → lookup k c ≡ some e
    → leb e.expires_at now ≡ true
    → Agrees now c b
    → Agrees now (erase k c) b
erase-Agrees now k e c b keyed found over a token t h = elim (Text_discrete token k) [
  | yes same ↦ ground (arith, same, found, over, h, a token t h, lookup-erase_self k c keyed)
  | no other ↦ ground (arith, a token t h, lookup-erase_ne token k c other)
]

put-Matches :
    (config : ApiAuthConfig) (now : ℕ) (m : AuthManager) (b : Book) (token : Text) (t : ℕ)
    (valid : Bool)
    → Matches config now m b
    → Matches config now
        (record m { cache = put token valid m.cache_ttl_seconds t m.cache })
        (note token
          (record { is_valid = valid; expires_at = add_seconds t config.cache_ttl_seconds })
          b)
unfolding put
put-Matches config now m b token t valid v =
    let e : CacheEntry = record {
      is_valid = valid;
      expires_at = add_seconds t m.cache_ttl_seconds;
    } in
    subst
      (λ (ttl : ℤ).
        Matches config now (record m { cache = insert token e m.cache })
          (note token (record { is_valid = valid; expires_at = add_seconds t ttl }) b))
      v.same_ttl
      (with_cache config now now m (insert token e m.cache) b (note token e b) v
        (insert-Keyed token e m.cache v.keyed) (insert-Agrees now token e m.cache b v.agrees))

remember-consult :
    (config : ApiAuthConfig) (now : ℕ) (m : AuthManager) (b : Book) (token : Text) (t : ℕ)
    (a : AuthResult)
    → Matches config now m b
    → ((remember token t a m).0 ≡ (consult config.cache_ttl_seconds token t a b).0)
      × Matches config now (remember token t a m).1 (consult config.cache_ttl_seconds token t a b).1
unfolding remember put
remember-consult config now m b token t api_unavailable v = (refl, v)
remember-consult config now m b token t allowed v =
    (refl, put-Matches config now m b token t true v)
remember-consult config now m b token t denied v =
    (refl, put-Matches config now m b token t false v)

-- What one call does to a manager that matches a book.
abbrev Replies : ApiAuthConfig → Query → AuthManager → Bool × Book → Type 0
Replies config q m rb =
    (m' : AuthManager) × (validate (asked q.answer) q.token q.at q.answered m ≡ some (rb.0, m'))
    × Matches config q.at m' rb.1

-- Where the cache has nothing, both ask the API.
miss-Replies :
    (config : ApiAuthConfig) (q : Query) (m : AuthManager) (c : AuthCache) (b : Book)
    → Matches config q.at (record m { cache = c }) b
    → get q.token q.at m.cache ≡ (none, c)
    → live q.at (b q.token) ≡ none
    → Replies config q m (reply config.cache_ttl_seconds q b)
unfolding validate
miss-Replies config q m c b v missed gone =
    let m0 : AuthManager = record m { cache = c } in
    let (same, serving) = remember-consult config q.at m0 b q.token q.answered q.answer v in
    subst (λ (o : Option Bool). Replies config q m (reply_by o config.cache_ttl_seconds q b))
      (sym gone)
      (
        (remember q.token q.answered q.answer m0).1,
        ground (arith, v.enabled, v.no_static, v.client, missed, same),
        serving,
      )

validate-Replies :
    (config : ApiAuthConfig) (now : ℕ) (q : Query) (m : AuthManager) (b : Book)
    → now ≤ q.at
    → Matches config now m b
    → Replies config q m (reply config.cache_ttl_seconds q b)
unfolding validate get
validate-Replies config now q m b h v =
    let weaker : Agrees q.at m.cache b = λ token t le. v.agrees token t (omega (arith, h, le)) in
    let says = weaker q.token q.at (omega arith) in
    elim (Option-cases (lookup q.token m.cache)) [
      | inl missing ↦
          miss-Replies config q m m.cache b
            (with_cache config now q.at m m.cache b b v v.keyed weaker) (ground (arith, missing))
            (ground (arith, missing, says))
      | inr (e, found) ↦ elim (Bool-cases (leb e.expires_at q.at)) [
        | inl stale ↦
            miss-Replies config q m (erase q.token m.cache) b
              (with_cache config now q.at m (erase q.token m.cache) b b v
                (erase-Keyed q.token m.cache v.keyed)
                (erase-Agrees q.at q.token e m.cache b v.keyed found stale weaker))
              (ground (arith, found, stale)) (ground (arith, found, stale, says))
        | inr fresh ↦
            let known : live q.at (b q.token) ≡ some e.is_valid =
              ground (arith, found, fresh, says) in
            subst
              (λ (o : Option Bool). Replies config q m (reply_by o config.cache_ttl_seconds q b))
              (sym known)
              (
                m,
                ground (arith, v.enabled, v.no_static, found, fresh),
                with_cache config now q.at m m.cache b b v v.keyed weaker,
              )
      ]
    ]

replies-Matches :
    (config : ApiAuthConfig) (now : ℕ) (m : AuthManager) (b : Book) (qs : List Query)
    → Ordered now qs
    → Matches config now m b
    → replies m qs ≡ some (book_replies config.cache_ttl_seconds b qs)
unfolding replies
replies-Matches config now m b [] o v = refl
replies-Matches config now m b (q ∷ qs) (h, o) v =
    let (m', answered, v') = validate-Replies config now q m b h v in
    rw (answered, replies)
      (rw (replies-Matches config q.at m' (reply config.cache_ttl_seconds q b).1 qs o v') refl)

-- With an API and no static token, the replies to any calls in the order of the clock are those of a
-- book that keeps, for every token, the last answer of the API and the time up to which it counts, and
-- that never removes an entry: that expired entries are erased, and when, cannot be told from outside.
pub cache_refines :
    (config : ApiAuthConfig) (now : ℕ) (qs : List Query)
    → config.api_base_url ≢ []
    → config.static_token ≡ []
    → Ordered now qs
    → replies (auth_manager config) qs ≡ some (book_replies config.cache_ttl_seconds empty_book qs)
unfolding auth_manager
cache_refines config now qs url st o =
    replies-Matches config now (auth_manager config) empty_book qs o (record {
      client = ground arith;
      enabled = ground arith;
      no_static = st;
      same_ttl = refl;
      keyed = tt;
      agrees = λ token t le. refl;
    })
