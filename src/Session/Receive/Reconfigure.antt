-- ===== src/Session/Receive/Reconfigure.antt =====
-- A second configuration message of one session.
use transcription_api.Prelude.{
  Text, codes, ℕ, ◌+◌, ◌≡◌, sym, ap, subst, inl, inr, true, false, Option, none, some, arith,
  Option-cases,
}
use transcription_api.Float.{FloatOps}
use transcription_api.Engine
use transcription_api.Engine.{Engine}
use transcription_api.ModelCache
use transcription_api.ModelCache.{ModelCache, Loader}
use transcription_api.Auth.{is_auth_enabled}
use transcription_api.Session.State.{
  Process, Surroundings, done, Json, field, release_model, send_message, send_error, send_ready,
}
use transcription_api.Session.Receive.{
  authenticate, configure_session, load_engine, install_engine, config_error, handle_config,
  vad_threshold,
}

abbrev taken : ModelCache → ModelCache
taken c = record c { unload_pending = false; ref_count = c.ref_count + 1 }

acquire_hit :
    (init : Loader) (path : Text) (h : ℕ) (c : ModelCache)
    → c.ctx ≡ some h
    → c.loaded_path ≡ path
    → ModelCache.acquire init path true c ≡ (some h, taken c)
unfolding ModelCache.acquire ModelCache.cancel_unload_locked
acquire_hit init path h c loaded same = ground arith

module _ {F : Type 0} ⦃fl : FloatOps F⦄ where
  install-cache :
      (env : Surroundings F) (ctx : ℕ) (vad : F) (p : Process F)
      → ((install_engine env ctx vad p).cache ≡ p.cache)
        × ((install_engine env ctx vad p).session.model_acquired ≡ true)
  unfolding install_engine config_error send_error send_ready send_message Engine.engine
  install-cache env ctx vad p = elim (Option-cases (env.init_state ctx)) [
    | inl no_state ↦ ground arith
    | inr (st, some_state) ↦ ground arith
  ]

  acquired :
      (env : Surroundings F) (vad : F) (p : Process F) (h : ℕ)
      → p.cache.ctx ≡ some h
      → p.cache.loaded_path ≡ p.session.model_path
      → let q = load_engine env vad p in
        (q.cache.ref_count ≡ p.cache.ref_count + 1) × (q.session.model_acquired ≡ true)
  unfolding load_engine
  acquired env vad p h loaded same =
      subst
        (λ (x : Option ℕ × ModelCache).
          let q : Process F = elim x.0 [
            | none ↦ config_error (codes "Failed to load whisper model") (record p { cache = x.1 })
            | some i ↦ install_engine env i vad (record p { cache = x.1 })
          ] in
          (q.cache.ref_count ≡ p.cache.ref_count + 1) × (q.session.model_acquired ≡ true))
        (sym (acquire_hit env.init p.session.model_path h p.cache loaded same))
        (let (cache, holds) = install-cache env h vad (record p { cache = taken p.cache }) in
          (ap (λ (x : ModelCache). x.ref_count) cache, holds))

  -- If a session that holds the only reference to the loaded model is configured again, it takes a
  -- second reference and gives back one: when it has ended, the count is 1 with no session left, so
  -- the model is not unloaded. Authentication is off here, and the message names no language.
  pub config_again_leaks :
      (env : Surroundings F) (msg : Json F) (p : Process F) (h later : ℕ)
      → is_auth_enabled p.auth ≡ false
      → field (codes "language") msg ≡ none
      → p.cache.ctx ≡ some h
      → p.cache.loaded_path ≡ p.session.model_path
      → p.cache.ref_count ≡ 1
      → (q : Process F) × (handle_config env msg p ≡ done q)
        × (q.cache.ref_count ≡ 2)
        × (let r = release_model env.now q in
            (r.cache.ref_count ≡ 1)
            × (r.session.model_acquired ≡ false)
            × (release_model later r ≡ r))
  unfolding handle_config authenticate configure_session release_model ModelCache.release
  config_again_leaks env msg p h later off plain loaded same one =
      let vad = vad_threshold (field (codes "vad_thold") msg) in
      let a = acquired env vad p h loaded same in
      (
        load_engine env vad p,
        ground arith,
        ground (arith, a),
        (ground (arith, a), ground (arith, a), ground (arith, a)),
      )
