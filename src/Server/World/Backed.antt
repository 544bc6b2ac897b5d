-- ===== src/Server/World/Backed.antt =====
-- In every state of the running server the cache counts the references of its sessions.
use transcription_api.Prelude.{
  ℕ, ◌+◌, ◌≤◌, ◌≡◌, refl, sym, subst, inl, some, [], ◌∷◌, arith, get_elem?, All,
}
use transcription_api.Float.{FloatOps}
use transcription_api.Engine.{Decoder}
use transcription_api.ModelCache.Sessions
use transcription_api.ModelCache.Sharing.{Step-IsShared}
use transcription_api.Session.State.{Session, Process, new_session, destroy_session}
use transcription_api.Session.Steps.Effects.{Effect}
use transcription_api.Session.Steps.References.{Step-Effect, destroy_session-Effect}
use transcription_api.Server.Config.{ServerConfig}
use transcription_api.Server.Start.{serving}
use transcription_api.Server.World.{
  World, seen_by, after_step, opening, dropped, Move, opens, moves, ends, fires, Reach, begin, next,
}
use transcription_api.Server.World.Backing.{
  holding, holding-dropped, holding-replaced, holding-append, Sane, All-get_elem?, All-replaced,
  All-dropped, All-append, Effect-Sane, Backing, Effect-Backing, one,
}

module _ {F : Type 0} ⦃fl : FloatOps F⦄ where
  pub record IsBacked (w : World F) : Type 0 where
    pub backing : Backing w.model_path w.cache (holding w.sessions)
    pub sane : All (Sane w.model_path) w.sessions

  -- One session's step, with what is left of the sessions.
  step-IsBacked :
      (i : ℕ) (s : Session F) (w x : World F) (q : Process F)
      → IsBacked w
      → get_elem? w.sessions i ≡ some s
      → Effect (seen_by s w) q
      → (x.model_path ≡ w.model_path)
      → (x.cache ≡ q.cache)
      → (holding x.sessions ≤ holding (dropped i w.sessions) + one q.session.model_acquired)
      → (Sane w.model_path q.session → All (Sane w.model_path) x.sessions)
      → IsBacked x
  step-IsBacked i s w x q v at effect path cache fewer sound =
      let ok = All-get_elem? (Sane w.model_path) i s w.sessions v.sane at in
      let split = holding-dropped i s w.sessions at in
      let (hs, shared, le) =
        Effect-Backing w.model_path (holding (dropped i w.sessions)) (seen_by s w) q effect ok.0
          (subst (λ (k : ℕ). Backing w.model_path w.cache k) split v.backing) in
      record {
        backing =
            subst (λ p. Backing p x.cache (holding x.sessions)) (sym path)
              (subst (λ c. Backing w.model_path c (holding x.sessions)) (sym cache)
                (hs, shared, omega (arith, le, fewer)));
        sane =
            subst (λ p. All (Sane p) x.sessions) (sym path)
              (sound (Effect-Sane w.model_path (seen_by s w) q effect ok));
      }

  Move-IsBacked : (decode : Decoder F) {w x : World F} → Move decode w x → IsBacked w → IsBacked x
  unfolding new_session
  Move-IsBacked decode {w} (opens id now e) v =
      let s : Session F = new_session id w.model_path w.options now in
      subst IsBacked (sym e) (record {
        backing =
            subst (λ (k : ℕ). Backing w.model_path w.cache k)
              (omega (arith, holding-append w.sessions (s ∷ []))) v.backing;
        sane = All-append (Sane w.model_path) w.sessions (s ∷ []) v.sane ((refl, λ off. refl), tt);
      })
  Move-IsBacked decode {w} (moves i s q step at own e) v = subst IsBacked (sym e) (
      step-IsBacked i s w (after_step i q w) q v at (Step-Effect decode (seen_by s w) q step own)
        refl refl (omega (arith, holding-replaced i s q.session w.sessions at))
        (λ ok. All-replaced (Sane w.model_path) i q.session w.sessions v.sane ok))
  Move-IsBacked decode {w} (ends i s now at e) v =
      let q = destroy_session now (seen_by s w) in
      subst IsBacked (sym e) (
        step-IsBacked i s w (record (after_step i q w) { sessions = dropped i w.sessions }) q v at
          (destroy_session-Effect now (seen_by s w)) refl refl (omega arith)
          (λ ok. All-dropped (Sane w.model_path) i w.sessions v.sane))
  Move-IsBacked decode {w} (fires e) v =
      let (hs, shared, le) = v.backing in
      subst IsBacked (sym e)
        (record { backing = (hs, Step-IsShared (Sessions.fires refl) shared, le); sane = v.sane })

  pub Reach-IsBacked :
      (decode : Decoder F) {w x : World F} → Reach decode w x → IsBacked w → IsBacked x
  Reach-IsBacked decode begin v = v
  Reach-IsBacked decode (next r m) v = Move-IsBacked decode m (Reach-IsBacked decode r v)

  pub opening-IsBacked : (c : ServerConfig F) → IsBacked (opening (serving c))
  unfolding serving
  opening-IsBacked c = record {
    backing = (
      [],
      Step-IsShared (Sessions.configures c.model_cache_ttl refl)
          (record { counted = refl; held = tt; at_path = inl refl; balanced = refl }),
      omega arith,
    );
    sane = tt;
  }
