-- ===== src/Auth/Cache.antt =====
-- What `AuthCache::get` gives behind `AuthCache::put`.
use transcription_api.Prelude.{
  Text, ℤ, ℕ, ◌≤◌, ◌≡◌, ◌≢◌, Bool, none, some, arith, leb, if◌then◌else◌,
}
use transcription_api.Prelude.Dict.{
  lookup, insert, Keyed, lookup-insert_self, lookup-insert_ne, lookup-erase_self, insert-Keyed,
}
use transcription_api.Auth.{AuthCache, CacheEntry, add_seconds, get, put}

-- In a cache with one entry for a token at most, an answer is given back until its time to live is over, and from then on the entry is gone; answers
-- for other tokens stay.
pub get-put :
    (token other : Text) (v : Bool) (ttl : ℤ) (now later : ℕ) (c : AuthCache)
    → Keyed c
    → let c' = put token v ttl now c in
      ((get token later c').0 ≡ (if leb (add_seconds now ttl) later then none else some v))
      × (add_seconds now ttl ≤ later → lookup token (get token later c').1 ≡ none)
      × (other ≢ token → (get other later c').0 ≡ (get other later c).0)
unfolding get put
get-put token other v ttl now later c k =
    let e : CacheEntry = record { is_valid = v; expires_at = add_seconds now ttl } in
    (
      ground (arith, lookup-insert_self token e c),
      (λ old. ground (
        arith,
        lookup-insert_self token e c,
        lookup-erase_self token (insert token e c) (insert-Keyed token e c k),
      )),
      λ ne. ground (arith, lookup-insert_ne other token e c ne),
    )
