-- ===== src/Server/World/Kept.antt =====
-- A model that some session uses is neither freed nor replaced.
use transcription_api.Prelude.{
  Text, Text_discrete, ℕ, ◌+◌, ◌≤◌, ◌<◌, ◌≡◌, refl, sym, ap, ◌∙◌, subst, ◌⊎◌, inl, inr, true, false,
  none, some, arith, get_elem?,
}
use transcription_api.Float.{FloatOps}
use transcription_api.Engine.{Decoder}
use transcription_api.ModelCache.{ModelCache, Loader}
use transcription_api.ModelCache
use transcription_api.Session.State.{Session, Process, destroy_session}
use transcription_api.Session.Steps.Effects.{Effect, quiet, grants, refuses, gives_back}
use transcription_api.Session.Steps.References.{Step-Effect, destroy_session-Effect}
use transcription_api.Server.World.{World, seen_by, dropped, Move, opens, moves, ends, fires}
use transcription_api.Server.World.Backed.{IsBacked}
use transcription_api.Server.World.Backing.{
  loaded, holding, holding-dropped, holding-replaced, Sane, All-get_elem?, one,
}

-- The same context, and nothing freed.
abbrev pub Kept : ModelCache → ModelCache → Type 0
Kept c d = (d.ctx ≡ c.ctx) × (d.frees ≡ c.frees)

acquire-Kept :
    (init : Loader) (path : Text) (h : ℕ) (c : ModelCache)
    → c.ctx ≡ some h
    → c.loaded_path ≡ path
    → Kept c (ModelCache.acquire init path true c).1
unfolding ModelCache.acquire
acquire-Kept init path h c on there = elim (Text_discrete c.loaded_path path) [
  | yes same ↦ (ground arith, ground arith)
  | no other ↦ absurd (other there)
]

release-Kept : (now : ℕ) (c : ModelCache) → 1 < c.ref_count → Kept c (ModelCache.release now c)
unfolding ModelCache.release
release-Kept now c more = (ground arith, ground arith)

pub timer_body-Kept : (c : ModelCache) → 0 < c.ref_count → Kept c (ModelCache.timer_body c)
unfolding ModelCache.timer_body
timer_body-Kept c used = (ground arith, ground arith)

module _ {F : Type 0} ⦃fl : FloatOps F⦄ where
  -- A state in which some session has a reference: the context stands, and every reference is counted.
  pub held_context :
      (w : World F)
      → IsBacked w
      → 0 < holding w.sessions
      → (h : ℕ) × (w.cache.ctx ≡ some h)
        × (w.cache.loaded_path ≡ w.model_path)
        × (holding w.sessions ≤ w.cache.ref_count)
  held_context w v used =
      let (hs, shared, le) = v.backing in
      let (h, on) = loaded w.model_path w.cache hs shared (omega (arith, le, used)) in
      (h, on, at_path h on shared.at_path, omega (arith, shared.counted, le))
    where
      at_path :
          (h : ℕ)
          → w.cache.ctx ≡ some h
          → (w.cache.ctx ≡ none) ⊎ (w.cache.loaded_path ≡ w.model_path)
          → w.cache.loaded_path ≡ w.model_path
      at_path h on (inl off) = cc
      at_path h on (inr at) = at

  Effect-Kept :
      (path : Text) (p q : Process F) (h : ℕ)
      → Effect p q
      → p.session.model_path ≡ path
      → p.cache.ctx ≡ some h
      → p.cache.loaded_path ≡ path
      → (p.session.model_acquired ≡ true → q.session.model_acquired ≡ false → 1 < p.cache.ref_count)
      → Kept p.cache q.cache
  Effect-Kept path p q h (quiet same _) at on there more =
      subst (Kept p.cache) (sym same) (refl, refl)
  Effect-Kept path p q h (grants init k a same held decodes) at on there more =
      subst (Kept p.cache) (ap (λ x. x.1) a)
        (acquire-Kept init p.session.model_path h p.cache on (there ∙ sym at))
  Effect-Kept path p q h (refuses init a same) at on there more =
      subst (Kept p.cache) (ap (λ x. x.1) a)
        (acquire-Kept init p.session.model_path h p.cache on (there ∙ sym at))
  Effect-Kept path p q h (gives_back now held c same) at on there more =
      subst (Kept p.cache) (sym c) (release-Kept now p.cache (more held (ap (λ x. x.1) same)))

  -- One session's step from i, where some session still has a reference behind it.
  pub session-Kept :
      (i : ℕ) (s : Session F) (w : World F) (q : Process F) (n : ℕ)
      → IsBacked w
      → get_elem? w.sessions i ≡ some s
      → Effect (seen_by s w) q
      → 0 < holding w.sessions
      → 0 < n
      → n ≤ holding (dropped i w.sessions) + one q.session.model_acquired
      → Kept w.cache q.cache
  session-Kept i s w q n v at effect used still le =
      let (h, on, there, counted) = held_context w v used in
      let ok = All-get_elem? (Sane w.model_path) i s w.sessions v.sane at in
      Effect-Kept w.model_path (seen_by s w) q h effect ok.0 on there (λ held free.
        omega
          (arith, holding-dropped i s w.sessions at, ap one held, ap one free, counted, still, le))

  pub Move-Kept :
      (decode : Decoder F) {w x : World F}
      → Move decode w x
      → IsBacked w
      → 0 < holding w.sessions
      → 0 < holding x.sessions
      → Kept w.cache x.cache
  Move-Kept decode {w} (opens id now e) v used still =
      subst (Kept w.cache) (sym (ap (λ (y : World F). y.cache) e)) (refl, refl)
  Move-Kept decode {w} (moves i s q step at own e) v used still =
      subst (Kept w.cache) (sym (ap (λ (y : World F). y.cache) e)) (
        session-Kept i s w q _ v at (Step-Effect decode (seen_by s w) q step own) used
          (subst (λ (y : World F). 0 < holding y.sessions) e still)
          (omega (arith, holding-replaced i s q.session w.sessions at)))
  Move-Kept decode {w} (ends i s now at e) v used still =
      subst (Kept w.cache) (sym (ap (λ (y : World F). y.cache) e)) (
        session-Kept i s w (destroy_session now (seen_by s w)) _ v at
          (destroy_session-Effect now (seen_by s w)) used
          (subst (λ (y : World F). 0 < holding y.sessions) e still) (omega arith))
  Move-Kept decode {w} (fires e) v used still =
      let (h, on, there, counted) = held_context w v used in
      subst (Kept w.cache) (sym (ap (λ (y : World F). y.cache) e))
        (timer_body-Kept w.cache (omega (arith, counted, used)))
