-- ===== src/Server/World/Backing.antt =====
-- The references to the model that the sessions of a server have, against those that its cache counts.
use transcription_api.Prelude.{
  Text, ℕ, zero, suc, ◌+◌, ◌≤◌, ◌<◌, ◌≡◌, refl, sym, ap, ◌∙◌, subst, ◌≢◌, Bool, true, false, Option,
  none, some, List, [], ◌∷◌, ◌++◌, arith, length, get_elem?, All,
}
use transcription_api.Float.{FloatOps}
use transcription_api.ModelCache.{ModelCache, Loader, acquire}
use transcription_api.ModelCache
use transcription_api.ModelCache.Sessions.{granted, IsShared}
use transcription_api.ModelCache.Sessions
use transcription_api.ModelCache.Sharing.{Step-IsShared}
use transcription_api.Session.State.{Session, Process}
use transcription_api.Session.Steps.Holds.{engine_ctx}
use transcription_api.Session.Steps.Effects.{Effect, quiet, grants, refuses, gives_back}
use transcription_api.Server.Args.Assignments.{some_inj}
use transcription_api.Server.World.{replaced, dropped}

abbrev pub one : Bool → ℕ
one true = 1
one false = 0

-- References that back n sessions.
abbrev pub Backing : Text → ModelCache → ℕ → Type 0
Backing path c n =
    (hs : List ℕ) × IsShared path (record { cache = c; holders = hs }) × (n ≤ length hs)

pub loaded :
    (path : Text) (c : ModelCache) (hs : List ℕ)
    → IsShared path (record { cache = c; holders = hs })
    → 0 < length hs
    → (h : ℕ) × (c.ctx ≡ some h)
loaded path c [] shared some_held = absurd (omega (arith, some_held))
loaded path c (h ∷ hs) shared some_held = (h, shared.held.0)

release_one :
    (path : Text) (c : ModelCache) (now n : ℕ)
    → Backing path c (n + 1)
    → Backing path (ModelCache.release now c) n
release_one path c now n ([], shared, le) = absurd (omega (arith, le))
release_one path c now n (h ∷ hs, shared, le) =
    (hs, Step-IsShared (Sessions.releases 0 h now refl refl) shared, omega (arith, le))

acquire_one :
    (path : Text) (init : Loader) (c : ModelCache) (n : ℕ) (o : Option ℕ) (c' : ModelCache)
    → Backing path c n
    → acquire init path true c ≡ (o, c')
    → Backing path c' n × (o ≢ none → Backing path c' (n + 1))
acquire_one path init c n none c' (hs, shared, le) e = (
  (
    hs,
    subst (λ x. IsShared path (granted x hs)) e
        (Step-IsShared (Sessions.acquires init refl) shared),
    le,
  ),
  λ ne. absurd (ne refl),
)
acquire_one path init c n (some h) c' (hs, shared, le) e =
    let more : IsShared path (granted (some h, c') hs) =
      subst (λ x. IsShared path (granted x hs)) e
        (Step-IsShared (Sessions.acquires init refl) shared) in
    ((h ∷ hs, more, omega (arith, le)), λ ne. (h ∷ hs, more, omega (arith, le)))

module _ {F : Type 0} where
  -- How many sessions have a reference to the model.
  abbrev pub holding : List (Session F) → ℕ
  holding [] = 0
  holding (s ∷ ss) = one s.model_acquired + holding ss

  pub holding-dropped :
      (i : ℕ) (s : Session F) (ss : List (Session F))
      → get_elem? ss i ≡ some s
      → holding ss ≡ holding (dropped i ss) + one s.model_acquired
  holding-dropped i s [] e = cc
  holding-dropped zero s (x ∷ ss) e = ground (arith, e)
  holding-dropped (suc i) s (x ∷ ss) e = omega (arith, holding-dropped i s ss e)

  pub holding-replaced :
      (i : ℕ) (s x : Session F) (ss : List (Session F))
      → get_elem? ss i ≡ some s
      → holding (replaced i x ss) ≡ holding (dropped i ss) + one x.model_acquired
  holding-replaced i s x [] e = cc
  holding-replaced zero s x (y ∷ ss) e = omega arith
  holding-replaced (suc i) s x (y ∷ ss) e = omega (arith, holding-replaced i s x ss e)

  pub holding-append : (a b : List (Session F)) → holding (a ++ b) ≡ holding a + holding b
  holding-append [] b = omega arith
  holding-append (s ∷ a) b = omega (arith, holding-append a b)

  -- A session of the path, whose engine needs a reference.
  abbrev pub Sane : Text → Session F → Type 0
  Sane path s = (s.model_path ≡ path) × (s.model_acquired ≡ false → engine_ctx s.engine ≡ none)

  pub All-get_elem? :
      (P : Session F → Type 0) (i : ℕ) (s : Session F) (ss : List (Session F))
      → All P ss
      → get_elem? ss i ≡ some s
      → P s
  All-get_elem? P i s [] a e = cc
  All-get_elem? P zero s (x ∷ ss) a e = subst P (some_inj e) a.0
  All-get_elem? P (suc i) s (x ∷ ss) a e = All-get_elem? P i s ss a.1 e

  pub All-replaced :
      (P : Session F → Type 0) (i : ℕ) (x : Session F) (ss : List (Session F))
      → All P ss
      → P x
      → All P (replaced i x ss)
  All-replaced P i x [] a p = tt
  All-replaced P zero x (y ∷ ss) a p = (p, a.1)
  All-replaced P (suc i) x (y ∷ ss) a p = (a.0, All-replaced P i x ss a.1 p)

  pub All-dropped :
      (P : Session F → Type 0) (i : ℕ) (ss : List (Session F)) → All P ss → All P (dropped i ss)
  All-dropped P i [] a = tt
  All-dropped P zero (y ∷ ss) a = a.1
  All-dropped P (suc i) (y ∷ ss) a = (a.0, All-dropped P i ss a.1)

  pub All-append :
      (P : Session F → Type 0) (a b : List (Session F)) → All P a → All P b → All P (a ++ b)
  All-append P [] b x y = y
  All-append P (s ∷ a) b x y = (x.0, All-append P a b x.1 y)

module _ {F : Type 0} ⦃fl : FloatOps F⦄ where
  pub Effect-Sane :
      (path : Text) (p q : Process F) → Effect p q → Sane path p.session → Sane path q.session
  Effect-Sane path p q (quiet c same) (at, idle) =
      (ap (λ x. x.0) same ∙ at, λ off. ap (λ x. x.2) same ∙ idle (sym (ap (λ x. x.1) same) ∙ off))
  Effect-Sane path p q (grants init h a path_same on decodes) (at, idle) =
      (path_same ∙ at, λ off. absurd (ground (arith, on, off)))
  Effect-Sane path p q (refuses init a same) (at, idle) =
      (ap (λ x. x.0) same ∙ at, λ off. ap (λ x. x.2) same ∙ idle (sym (ap (λ x. x.1) same) ∙ off))
  Effect-Sane path p q (gives_back now on c same) (at, idle) =
      (ap (λ x. x.0) same ∙ at, λ off. ap (λ x. x.2) same)

  pub Effect-Backing :
      (path : Text) (n : ℕ) (p q : Process F)
      → Effect p q
      → p.session.model_path ≡ path
      → Backing path p.cache (n + one p.session.model_acquired)
      → Backing path q.cache (n + one q.session.model_acquired)
  Effect-Backing path n p q (quiet c same) at b =
      let same_one = ap (λ x. one x.1) same in
      let (hs, shared, le) =
        subst (λ k. Backing path k (n + one p.session.model_acquired)) (sym c) b in
      (hs, shared, omega (arith, le, same_one))
  Effect-Backing path n p q (grants init h a path_same on decodes) at b =
      let (_, more) =
        acquire_one path init p.cache _ (some h) q.cache b
          (ap (λ t. acquire init t true p.cache) (sym at) ∙ a) in
      let (hs, shared, le) = more (λ e. cc) in (hs, shared, omega (arith, le, ap one on))
  Effect-Backing path n p q (refuses init a same) at b =
      let (less, _) =
        acquire_one path init p.cache _ none q.cache b
          (ap (λ t. acquire init t true p.cache) (sym at) ∙ a) in
      let (hs, shared, le) = less in (hs, shared, omega (arith, le, ap (λ x. one x.1) same))
  Effect-Backing path n p q (gives_back now on c same) at b =
      let (hs, shared, le) =
        subst (λ k. Backing path k n) (sym c)
          (release_one path p.cache now n
            (subst (λ (k : ℕ). Backing path p.cache (n + k)) (ap one on) b)) in
      (hs, shared, omega (arith, le, ap (λ x. one x.1) same))
