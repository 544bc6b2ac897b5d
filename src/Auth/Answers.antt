-- ===== src/Auth/Answers.antt =====
-- The cache against the history of calls: which query accounts for an entry.
use transcription_api.Prelude.{
  Text, Text_discrete, ℤ, ℕ, ◌<◌, ◌≡◌, ap, ◌∙◌, subst, ◌≢◌, ◌⊎◌, inl, inr, Bool, true, false, some,
  List, [], ◌∷◌, arith, All,
}
use transcription_api.Prelude.Dict.{lookup, insert, erase}
use transcription_api.Auth.{AuthResult, allowed, denied, AuthCache, CacheEntry, add_seconds}

-- One call of `validate`: the token, the time, and what the API says, and when, if it is asked.
pub record Query : Type 0 where
  pub token : Text
  pub at : ℕ
  pub answered : ℕ
  pub answer : AuthResult

abbrev pub verdict : Bool → AuthResult
verdict true = allowed
verdict false = denied

-- Some query of the history accounts for a cache entry.
abbrev pub Answered : ℤ → Text → CacheEntry → List Query → Type 0
Answered ttl token e [] = ⊥
Answered ttl token e (q ∷ h) =
    ((q.token ≡ token)
      × (add_seconds q.answered ttl ≡ e.expires_at)
      × (q.answer ≡ verdict e.is_valid))
    ⊎ Answered ttl token e h

abbrev pub Justified : ℤ → List Query → AuthCache → Type 0
Justified ttl h = All λ te. Answered ttl te.0 te.1 h

pub older :
    (ttl : ℤ) (q : Query) (h : List Query) (c : AuthCache)
    → Justified ttl h c
    → Justified ttl (q ∷ h) c
older ttl q h [] j = tt
older ttl q h (e ∷ c) j = (inr j.0, older ttl q h c j.1)

pub erase-Justified :
    (ttl : ℤ) (h : List Query) (token : Text) (c : AuthCache)
    → Justified ttl h c
    → Justified ttl h (erase token c)
erase-Justified ttl h token [] j = tt
erase-Justified ttl h token (e ∷ c) j = ground (arith, erase-Justified ttl h token c j.1)

pub insert-Justified :
    (ttl : ℤ) (h : List Query) (token : Text) (e : CacheEntry) (c : AuthCache)
    → Answered ttl token e h
    → Justified ttl h c
    → Justified ttl h (insert token e c)
insert-Justified ttl h token e [] a j = (a, tt)
insert-Justified ttl h token e (x ∷ c) a j = ground (arith, insert-Justified ttl h token e c a j.1)

pub lookup-Justified :
    (ttl : ℤ) (h : List Query) (token : Text) (e : CacheEntry) (c : AuthCache)
    → Justified ttl h c
    → lookup token c ≡ some e
    → Answered ttl token e h
lookup-Justified ttl h token e [] j q = cc
lookup-Justified ttl h token e ((k, x) ∷ c) j q = elim (Text_discrete k token) [
  | yes same ↦
      subst (λ y. Answered ttl token y h) (found same q) (subst (λ t. Answered ttl t x h) same j.0)
  | no other ↦ lookup-Justified ttl h token e c j.1 (passed other q)
]
  where
    found : k ≡ token → lookup token ((k, x) ∷ c) ≡ some e → x ≡ e
    found same q = ground arith

    passed : k ≢ token → lookup token ((k, x) ∷ c) ≡ some e → lookup token c ≡ some e
    passed other q = ground arith

-- Some earlier query of the history was answered "allowed" for the token, and had not expired.
abbrev pub AllowedBefore : ℤ → Text → ℕ → List Query → Type 0
AllowedBefore ttl token now [] = ⊥
AllowedBefore ttl token now (q ∷ h) =
    ((q.token ≡ token) × (q.answer ≡ allowed) × (now < add_seconds q.answered ttl))
    ⊎ AllowedBefore ttl token now h

pub Answered-allowed :
    (ttl : ℤ) (token : Text) (now : ℕ) (e : CacheEntry) (h : List Query)
    → e.is_valid ≡ true
    → now < e.expires_at
    → Answered ttl token e h
    → AllowedBefore ttl token now h
Answered-allowed ttl token now e [] v f a = a
Answered-allowed ttl token now e (q ∷ h) v f (inl (t, x, y)) =
    inl (t, y ∙ ap verdict v, omega arith)
Answered-allowed ttl token now e (q ∷ h) v f (inr a) =
    inr (Answered-allowed ttl token now e h v f a)
