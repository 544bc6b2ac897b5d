-- ===== src/Server/World/Decoding.antt =====
-- The context that each session of the running server decodes with.
use transcription_api.Prelude.{
  Text, ℕ, zero, suc, ◌+◌, ◌<◌, ◌≡◌, refl, sym, ap, ◌∙◌, subst, ◌⊎◌, inl, inr, true, none, some,
  List, [], ◌∷◌, arith, Bool-cases, get_elem?, All,
}
use transcription_api.Float.{FloatOps}
use transcription_api.Engine.{Decoder}
use transcription_api.ModelCache.{ModelCache, Loader}
use transcription_api.ModelCache
use transcription_api.Session.State.{new_session, Session, Process, destroy_session}
use transcription_api.Session.Steps.Holds.{engine_ctx}
use transcription_api.Session.Steps.Effects.{Effect, quiet, grants, refuses, gives_back}
use transcription_api.Session.Steps.References.{Step-Effect, destroy_session-Effect}
use transcription_api.Server.Config.{ServerConfig}
use transcription_api.Server.Start.{serving}
use transcription_api.Server.World.{
  begin, next, replaced, World, seen_by, opening, dropped, Move, opens, moves, ends, fires, Reach,
}
use transcription_api.Server.World.Backed.{IsBacked, Reach-IsBacked, opening-IsBacked}
use transcription_api.Server.World.Kept.{Kept, timer_body-Kept, held_context, session-Kept}
use transcription_api.Server.World.Backing.{
  All-dropped, All-append, holding, holding-dropped, Sane, All-get_elem?, one,
}

acquire-ctx :
    (init : Loader) (path : Text) (h : ℕ) (c d : ModelCache)
    → ModelCache.acquire init path true c ≡ (some h, d)
    → d.ctx ≡ some h
unfolding ModelCache.acquire
acquire-ctx init path h c d e = ground (arith, e)

module _ {F : Type 0} ⦃fl : FloatOps F⦄ where
  -- The session has no engine, or its engine has the context that is loaded.
  abbrev pub Decodes : ModelCache → Session F → Type 0
  Decodes c s =
      (engine_ctx s.engine ≡ none)
      ⊎ ((h : ℕ) × (engine_ctx s.engine ≡ some (some h)) × (c.ctx ≡ some h))

  -- Where the context is kept if a session has a reference, the sessions decode as before.
  All-Decodes :
      (path : Text) (c d : ModelCache) (ss : List (Session F))
      → (0 < holding ss → Kept c d)
      → All (Sane path) ss
      → All (Decodes c) ss
      → All (Decodes d) ss
  All-Decodes path c d [] kept sane xs = tt
  All-Decodes path c d (s ∷ ss) kept ((at, idle), sane) (x, xs) = (
    elim (Bool-cases s.model_acquired) [
      | inr off ↦ inl (idle off)
      | inl on ↦ elim x [
        | inl without ↦ inl without
        | inr (h, e, is) ↦ inr (h, e, (kept (omega (arith, ap one on))).0 ∙ is)
      ]
    ],
    All-Decodes path c d ss (λ some_held. kept (omega (arith, some_held))) sane xs,
  )

  -- The session has a reference, or no engine.
  holds_or_idle :
      (path : Text) (s : Session F)
      → Sane path s
      → (s.model_acquired ≡ true) ⊎ (engine_ctx s.engine ≡ none)
  holds_or_idle path s (at, idle) = elim (Bool-cases s.model_acquired) [
    | inl on ↦ inl on
    | inr off ↦ inr (idle off)
  ]

  Effect-Decodes :
      (path : Text) (p q : Process F)
      → Effect p q
      → Sane path p.session
      → Decodes p.cache p.session
      → (p.session.model_acquired ≡ true → q.session.model_acquired ≡ true → Kept p.cache q.cache)
      → Decodes q.cache q.session
  Effect-Decodes path p q (quiet c same) sane (inl without) kept =
      inl (ap (λ x. x.2) same ∙ without)
  Effect-Decodes path p q (quiet c same) sane (inr (h, e, is)) kept =
      inr (h, ap (λ x. x.2) same ∙ e, ap (λ (x : ModelCache). x.ctx) c ∙ is)
  Effect-Decodes path p q (grants init h a path_same on (inl new)) sane x kept =
      inr (h, new, acquire-ctx init p.session.model_path h p.cache q.cache a)
  Effect-Decodes path p q (grants init h a path_same on (inr old)) sane (inl without) kept =
      inl (old ∙ without)
  Effect-Decodes path p q (grants init h a path_same on (inr old)) sane (inr (k, e, is)) kept =
      elim (holds_or_idle path p.session sane) [
        | inl held ↦ inr (k, old ∙ e, (kept held on).0 ∙ is)
        | inr idle ↦ inl (old ∙ idle)
      ]
  Effect-Decodes path p q (refuses init a same) sane (inl without) kept =
      inl (ap (λ x. x.2) same ∙ without)
  Effect-Decodes path p q (refuses init a same) sane (inr (k, e, is)) kept =
      elim (holds_or_idle path p.session sane) [
        | inl held ↦ inr (k, ap (λ x. x.2) same ∙ e, (kept held (ap (λ x. x.1) same ∙ held)).0 ∙ is)
        | inr idle ↦ inl (ap (λ x. x.2) same ∙ idle)
      ]
  Effect-Decodes path p q (gives_back now held c same) sane x kept = inl (ap (λ x. x.2) same)

  All-put :
      (P : Session F → Type 0) (i : ℕ) (x : Session F) (ss : List (Session F))
      → All P (dropped i ss)
      → P x
      → All P (replaced i x ss)
  All-put P i x [] a p = tt
  All-put P zero x (y ∷ ss) a p = (p, a)
  All-put P (suc i) x (y ∷ ss) a p = (a.0, All-put P i x ss a.1 p)

  -- What one session's step leaves: its own engine, and the engines of the others.
  session-Decodes :
      (i : ℕ) (s : Session F) (w : World F) (q : Process F)
      → IsBacked w
      → All (Decodes w.cache) w.sessions
      → get_elem? w.sessions i ≡ some s
      → Effect (seen_by s w) q
      → Decodes q.cache q.session × All (Decodes q.cache) (dropped i w.sessions)
  session-Decodes i s w q v xs at effect =
      let n = holding (dropped i w.sessions) + one q.session.model_acquired in
      let split = holding-dropped i s w.sessions at in
      let sane = All-get_elem? (Sane w.model_path) i s w.sessions v.sane at in
      let own = All-get_elem? (Decodes w.cache) i s w.sessions xs at in
      (
        Effect-Decodes w.model_path (seen_by s w) q effect sane own (λ held still.
            session-Kept i s w q n v at effect (omega (arith, split, ap one held))
              (omega (arith, ap one still)) (omega arith)),
        All-Decodes w.model_path w.cache q.cache (dropped i w.sessions)
            (λ others.
              session-Kept i s w q n v at effect (omega (arith, split, others))
                (omega (arith, others)) (omega arith))
            (All-dropped (Sane w.model_path) i w.sessions v.sane)
            (All-dropped (Decodes w.cache) i w.sessions xs),
      )

  AllDecode : World F → Type 0
  AllDecode w = All (Decodes w.cache) w.sessions

  Move-Decodes :
      (decode : Decoder F) {w x : World F}
      → Move decode w x
      → IsBacked w
      → AllDecode w
      → AllDecode x
  unfolding AllDecode new_session
  Move-Decodes decode {w} (opens id now e) v xs =
      let s : Session F = new_session id w.model_path w.options now in
      subst AllDecode (sym e) (All-append (Decodes w.cache) w.sessions (s ∷ []) xs (inl refl, tt))
  Move-Decodes decode {w} (moves i s q step at own e) v xs =
      let (mine, others) =
        session-Decodes i s w q v xs at (Step-Effect decode (seen_by s w) q step own) in
      subst AllDecode (sym e) (All-put (Decodes q.cache) i q.session w.sessions others mine)
  Move-Decodes decode {w} (ends i s now at e) v xs =
      let q = destroy_session now (seen_by s w) in
      let (mine, others) =
        session-Decodes i s w q v xs at (destroy_session-Effect now (seen_by s w)) in
      subst AllDecode (sym e) others
  Move-Decodes decode {w} (fires e) v xs = subst AllDecode (sym e) (
      All-Decodes w.model_path w.cache (ModelCache.timer_body w.cache) w.sessions
        (λ used.
          let (h, on, there, counted) = held_context w v used in
          timer_body-Kept w.cache (omega (arith, counted, used)))
        v.sane xs)

  -- From the opening of a server on, every engine has the context that is loaded.
  pub Reach-Decodes :
      (c : ServerConfig F) (decode : Decoder F) {x : World F}
      → Reach decode (opening (serving c)) x
      → All (Decodes x.cache) x.sessions
  unfolding AllDecode
  Reach-Decodes c decode begin = tt
  Reach-Decodes c decode (next r m) =
      Move-Decodes decode m (Reach-IsBacked decode r (opening-IsBacked c))
        (Reach-Decodes c decode r)
