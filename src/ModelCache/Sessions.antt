-- ===== src/ModelCache/Sessions.antt =====
-- Sessions that acquire one model and release it, with timers, in any order.
use transcription_api.Prelude.{
  Text, ℤ, ℕ, zero, suc, ◌≡◌, ◌⊎◌, true, Option, none, some, List, [], ◌∷◌, ◌++◌, length, get_elem?,
  All,
}
use transcription_api.ModelCache.{ModelCache, Loader, configure, acquire, release, timer_body}

-- The context that each live reference was given.
pub record Shared : Type 0 where
  pub cache : ModelCache
  pub holders : List ℕ

abbrev pub drop_at : ℕ → List ℕ → List ℕ
drop_at i [] = []
drop_at zero (x ∷ xs) = xs
drop_at (suc i) (x ∷ xs) = x ∷ drop_at i xs

-- A call that throws gives no reference.
abbrev pub granted : Option ℕ × ModelCache → List ℕ → Shared
granted (none, c) hs = record { cache = c; holders = hs }
granted (some h, c) hs = record { cache = c; holders = h ∷ hs }

-- What the server does with the cache: `main` configures it, a session's `handleConfig` acquires the
-- model at the configured path with the default `use_gpu`, `releaseModel` releases it, timers fire.
pub data Step (path : Text) (s t : Shared) : Type 0 where
  acquires :
      (init : Loader) → t ≡ granted (acquire init path true s.cache) s.holders → Step path s t
  releases :
      (i h now : ℕ)
      → get_elem? s.holders i ≡ some h
      → t ≡ record { cache = release now s.cache; holders = drop_at i s.holders }
      → Step path s t
  fires : t ≡ record s { cache = timer_body s.cache } → Step path s t
  configures : (ttl : ℤ) → t ≡ record s { cache = configure ttl s.cache } → Step path s t

pub data Reach (path : Text) (s : Shared) : Shared → Type 0 where
  begin : Reach path s s
  next : {t u : Shared} → Reach path s t → Step path t u → Reach path s u

abbrev pub current : Option ℕ → List ℕ
current none = []
current (some h) = h ∷ []

-- Every reference is to the loaded context, and the count is their number.
pub record IsShared (path : Text) (s : Shared) : Type 0 where
  pub counted : s.cache.ref_count ≡ length s.holders
  pub held : All (λ h. s.cache.ctx ≡ some h) s.holders
  pub at_path : (s.cache.ctx ≡ none) ⊎ (s.cache.loaded_path ≡ path)
  pub balanced : s.cache.inits ≡ current s.cache.ctx ++ s.cache.frees
