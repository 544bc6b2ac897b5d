-- ===== src/ModelCache/Sharing.antt =====
-- What every step of the sessions and timers keeps true of the shared model.
use transcription_api.Prelude.{
  Text, ℕ, zero, suc, ◌+◌, ◌-◌, ◌≡◌, refl, ap, ◌∙◌, subst, ◌⊎◌, inl, inr, Bool, true, false, ◌&&◌,
  Option, none, some, List, [], ◌∷◌, ◌++◌, arith, ◌==◌, if◌then◌else◌, Bool-cases, Option-cases,
  length, get_elem?, All,
}
use transcription_api.ModelCache.{
  ModelCache, model_cache, Loader, ContextParams, configure, acquire, release, timer_body,
  unload_locked, schedule_unload_locked,
}
use transcription_api.ModelCache.Sessions.{
  Shared, drop_at, granted, Step, acquires, releases, fires, configures, Reach, begin, next,
  current, IsShared,
}

-- With no context there is no holder.
held_none : (c : Option ℕ) (hs : List ℕ) → All (λ h. c ≡ some h) hs → c ≡ none → hs ≡ []
held_none c [] a e = refl
held_none c (h ∷ hs) a e = cc (a.0)

held_drop :
    (c : Option ℕ) (i : ℕ) (hs : List ℕ)
    → All (λ h. c ≡ some h) hs
    → All (λ h. c ≡ some h) (drop_at i hs)
held_drop c i [] a = a
held_drop c zero (h ∷ hs) a = a.1
held_drop c (suc i) (h ∷ hs) a = (a.0, held_drop c i hs a.1)

length-drop_at :
    (i h : ℕ) (hs : List ℕ) → get_elem? hs i ≡ some h → length (drop_at i hs) + 1 ≡ length hs
length-drop_at i h [] e = cc
length-drop_at zero h (x ∷ hs) e = omega arith
length-drop_at (suc i) h (x ∷ hs) e = omega (arith, length-drop_at i h hs e)

held_empty : (c : Option ℕ) (hs : List ℕ) → length hs ≡ 0 → All (λ h. c ≡ some h) hs
held_empty c [] e = tt
held_empty c (h ∷ hs) e = absurd (omega arith)

abbrev params : ContextParams
params = record { use_gpu = true; flash_attn = true }

-- The three ways in which `acquire` ends at the path that is served.
abbrev Hit : ModelCache → ℕ → ModelCache
Hit c h = record c { unload_pending = false; ref_count = c.ref_count + 1 }

abbrev Loaded : Text → ModelCache → ℕ → ModelCache
Loaded path c h = record c {
  ctx = some h;
  loaded_path = path;
  ref_count = 1;
  unload_pending = false;
  inits = h ∷ c.inits;
}

acquire_cases :
    (init : Loader) (path : Text) (c : ModelCache)
    → (c.ctx ≡ none) ⊎ (c.loaded_path ≡ path)
    → ((h : ℕ) × (c.ctx ≡ some h) × (acquire init path true c ≡ (some h, Hit c h)))
      ⊎ ((h : ℕ) × (c.ctx ≡ none) × (acquire init path true c ≡ (some h, Loaded path c h)))
      ⊎ ((c.ctx ≡ none) × (acquire init path true c ≡ (none, record c { unload_pending = false })))
unfolding acquire
acquire_cases init path c at = elim (Option-cases c.ctx) [
  | inl e ↦ elim (Option-cases (init path params)) [
    | inl failed ↦ inr (inr (e, ground arith))
    | inr (h, opened) ↦ inr (inl (h, e, ground arith))
  ]
  | inr (h, e) ↦ inl (h, e, ground arith)
]

acquire-IsShared :
    (path : Text) (init : Loader) (s : Shared)
    → IsShared path s
    → IsShared path (granted (acquire init path true s.cache) s.holders)
acquire-IsShared path init s v = elim (acquire_cases init path s.cache v.at_path) [
  | inl (h, loaded, q) ↦ rw q (record {
    counted = omega (arith, v.counted);
    held = (loaded, v.held);
    at_path = v.at_path;
    balanced = v.balanced;
  })
  | inr (inl (h, empty, q)) ↦ rw q (record {
    counted = rw (held_none s.cache.ctx s.holders v.held empty);
    held = rw (held_none s.cache.ctx s.holders v.held empty) (refl, tt);
    at_path = inr refl;
    balanced = ap (◌∷◌ h) (v.balanced ∙ ap (λ c. current c ++ s.cache.frees) empty);
  })
  | inr (inr (empty, q)) ↦
      rw q
        (record { counted = v.counted; held = v.held; at_path = v.at_path; balanced = v.balanced })
]

-- The flag and the timers say nothing about the references.
flags-IsShared :
    (path : Text) (c : ModelCache) (hs : List ℕ) (pending : Bool) (ts : List ℕ)
    → IsShared path (record { cache = c; holders = hs })
    → IsShared path
        (record { cache = record c { unload_pending = pending; timers = ts }; holders = hs })
flags-IsShared path c hs pending ts v = record {
  counted = v.counted;
  held = v.held;
  at_path = v.at_path;
  balanced = v.balanced;
}

-- Freeing with no holder left.
unload_locked-IsShared :
    (path : Text) (c : ModelCache)
    → IsShared path (record { cache = c; holders = [] })
    → IsShared path (record { cache = unload_locked c; holders = [] })
unfolding unload_locked
unload_locked-IsShared path c v = elim (Option-cases c.ctx) [
  | inl e ↦ rw (e, unload_locked) v
  | inr (h, e) ↦
      rw (e, unload_locked)
        (record {
          counted = refl;
          held = tt;
          at_path = inl refl;
          balanced = v.balanced ∙ ap (λ o. current o ++ c.frees) e;
        })
]

timer_body-IsShared :
    (path : Text) (c : ModelCache) (hs : List ℕ)
    → IsShared path (record { cache = c; holders = hs })
    → IsShared path (record { cache = timer_body c; holders = hs })
unfolding timer_body
timer_body-IsShared path c [] v = elim (Bool-cases (c.unload_pending && (c.ref_count == 0))) [
  | inl due ↦
      rw (due, timer_body)
        (flags-IsShared path (unload_locked c) [] false _ (unload_locked-IsShared path c v))
  | inr not_due ↦ rw (not_due, timer_body) v
]
timer_body-IsShared path c (h ∷ hs) v = rw (in_use, timer_body) v
  where
    in_use : (c.unload_pending && (c.ref_count == 0)) ≡ false
    in_use = ground (arith, v.counted)

-- One reference less, before the zero test.
decrement-IsShared :
    (path : Text) (i h : ℕ) (s : Shared)
    → get_elem? s.holders i ≡ some h
    → IsShared path s
    → IsShared path (record {
      cache = record s.cache { ref_count = s.cache.ref_count - 1 };
      holders = drop_at i s.holders;
    })
decrement-IsShared path i h s e v = record {
  counted = omega (arith, v.counted, length-drop_at i h s.holders e);
  held = held_drop s.cache.ctx i s.holders v.held;
  at_path = v.at_path;
  balanced = v.balanced;
}

length-zero : (hs : List ℕ) → length hs ≡ 0 → hs ≡ []
length-zero [] e = refl
length-zero (h ∷ hs) e = absurd (omega arith)

-- The last reference leaves the cache unloaded, scheduled or kept.
last-IsShared :
    (path : Text) (now : ℕ) (c : ModelCache) (hs : List ℕ)
    → c.ref_count ≡ 0
    → IsShared path (record { cache = c; holders = hs })
    → (a b : Bool)
    → IsShared path (record {
      cache = if a then unload_locked c else if b then schedule_unload_locked now c else c;
      holders = hs;
    })
unfolding schedule_unload_locked
last-IsShared path now c hs z v true b =
    let none_left = length-zero hs (omega (arith, v.counted)) in
    rw none_left (
      unload_locked-IsShared path c
        (subst (λ (k : List ℕ). IsShared path (record { cache = c; holders = k })) none_left v))
last-IsShared path now c hs z v false true = flags-IsShared path c hs true _ v
last-IsShared path now c hs z v false false = v

release-IsShared :
    (path : Text) (now i h : ℕ) (s : Shared)
    → get_elem? s.holders i ≡ some h
    → IsShared path s
    → IsShared path (record { cache = release now s.cache; holders = drop_at i s.holders })
unfolding release
release-IsShared path now i h s e v = elim (Bool-cases (s.cache.ref_count - 1 == 0)) [
  | inl last ↦
      rw (in_use, last) (last-IsShared path now _ (drop_at i s.holders) (ground arith) less _ _)
  | inr more ↦ rw (in_use, more) less
]
  where
    in_use : (s.cache.ref_count == 0) ≡ false
    in_use = ground (arith, v.counted, length-drop_at i h s.holders e)

    less : IsShared path (record {
      cache = record s.cache { ref_count = s.cache.ref_count - 1 };
      holders = drop_at i s.holders;
    })
    less = decrement-IsShared path i h s e v

pub Step-IsShared : {path : Text} {s t : Shared} → Step path s t → IsShared path s → IsShared path t
unfolding configure
Step-IsShared {path} {s} {t} (acquires init q) v = rw q (acquire-IsShared path init s v)
Step-IsShared {path} {s} {t} (releases i h now e q) v = rw q (release-IsShared path now i h s e v)
Step-IsShared {path} {s} {t} (fires q) v = rw q (timer_body-IsShared path s.cache s.holders v)
Step-IsShared {path} {s} {t} (configures ttl q) v =
    rw q (record { counted = v.counted; held = v.held; at_path = v.at_path; balanced = v.balanced })

Reach-IsShared : {path : Text} {s t : Shared} → Reach path s t → IsShared path s → IsShared path t
Reach-IsShared begin v = v
Reach-IsShared (next r st) v = Step-IsShared st (Reach-IsShared r v)

-- However sessions that share one model path come and go and timers fire, every reference that a session holds is to the context that is
-- loaded: no context is freed while a session uses it. `ref_count_` is the number of references, and
-- each context that was opened has been freed exactly once, or is the loaded one.
pub Reach-no_dangling :
    (path : Text) (t : Shared)
    → Reach path (record { cache = model_cache; holders = [] }) t
    → All (λ h. t.cache.ctx ≡ some h) t.holders
      × (t.cache.ref_count ≡ length t.holders)
      × (t.cache.inits ≡ current t.cache.ctx ++ t.cache.frees)
Reach-no_dangling path t r =
    let v =
      Reach-IsShared r
        (record { counted = refl; held = tt; at_path = inl refl; balanced = refl }) in
    (v.held, v.counted, v.balanced)
