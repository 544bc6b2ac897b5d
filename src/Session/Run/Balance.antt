-- ===== src/Session/Run/Balance.antt =====
-- The reference to the model that a session takes and gives back: one step.
use transcription_api.Prelude.{
  Text, codes, text_eq, pos, leb_ℤ, ℕ, ◌+◌, ◌-◌, ◌≡◌, refl, sym, ap, ◌∙◌, subst, ◌⊎◌, inl, inr,
  Bool, true, false, ◌&&◌, Option, none, some, arith, ◌==◌, if◌then◌else◌, Bool-cases, Option-cases,
}
use transcription_api.Float.{FloatOps}
use transcription_api.ModelCache
use transcription_api.ModelCache.{ModelCache, Loader}
use transcription_api.Session.State.{
  send_error, Process, Surroundings, done, Json, string, number, other, field, release_model,
}
use transcription_api.Session.Receive.{handle_json_message, handle_end, with_session}
use transcription_api.Session.Receive.Protocol.{dispatch_cases, json_cases, replied}
use transcription_api.Session.Steps.Effects.{
  Effect, quiet, grants, refuses, gives_back, with_session-cache,
}
use transcription_api.Session.Steps.Outcomes.{with_session-done}
use transcription_api.Session.Steps.Holds.{hold, hold-send, hold-end}

-- What the cache of one model path is like: nothing is loaded and counted, or that path is loaded.
abbrev pub Fits : Text → ModelCache → Type 0
Fits path c =
    ((c.ctx ≡ none) × (c.ref_count ≡ 0)) ⊎ ((h : ℕ) × (c.ctx ≡ some h) × (c.loaded_path ≡ path))

acquired-Fits :
    (init : Loader) (path : Text) (h : ℕ) (c c' : ModelCache)
    → Fits path c
    → ModelCache.acquire init path true c ≡ (some h, c')
    → Fits path c' × (c'.ref_count ≡ c.ref_count + 1)
unfolding ModelCache.acquire ModelCache.cancel_unload_locked ModelCache.load_model
acquired-Fits init path h c c' (inl (empty, zero')) e =
    elim (Option-cases (init path (record { use_gpu = true; flash_attn = true }))) [
      | inl missing ↦ absurd (ground arith)
      | inr (i, found) ↦ (inr (h, ground arith, ground arith), ground arith)
    ]
acquired-Fits init path h c c' (inr (h', loaded, same)) e =
    (inr (h', ground arith, ground arith), ground arith)

refused-Fits :
    (init : Loader) (path : Text) (c c' : ModelCache)
    → Fits path c
    → ModelCache.acquire init path true c ≡ (none, c')
    → Fits path c' × (c'.ref_count ≡ c.ref_count)
unfolding ModelCache.acquire ModelCache.cancel_unload_locked ModelCache.load_model
refused-Fits init path c c' (inl (empty, zero')) e =
    elim (Option-cases (init path (record { use_gpu = true; flash_attn = true }))) [
      | inl missing ↦ (inl (ground arith, ground arith), ground arith)
      | inr (i, found) ↦ absurd (ground arith)
    ]
refused-Fits init path c c' (inr (h', loaded, same)) e = absurd (ground arith)

released-Fits :
    (now : ℕ) (path : Text) (c : ModelCache)
    → Fits path c
    → Fits path (ModelCache.release now c)
      × ((ModelCache.release now c).ref_count ≡ c.ref_count - 1)
unfolding ModelCache.release ModelCache.unload_locked ModelCache.schedule_unload_locked
released-Fits now path c (inl (empty, zero')) = (inl (ground arith, ground arith), ground arith)
released-Fits now path c (inr (h, loaded, same)) =
    elim (Bool-cases
      ((c.ref_count == 1) && leb_ℤ c.ttl_seconds (pos 0) && leb_ℤ (pos 0) c.ttl_seconds)) [
        | inl unloads ↦ (inl (ground arith, ground arith), ground arith)
        | inr keeps_it ↦ (inr (h, ground arith, ground arith), ground arith)
      ]

module _ {F : Type 0} where
  -- One reference is counted for the session if it has one, besides r others.
  abbrev pub Balanced : ℕ → Text → Process F → Type 0
  Balanced r path p =
      Fits path p.cache
      × (p.session.model_path ≡ path)
      × (p.cache.ref_count ≡ (if p.session.model_acquired then r + 1 else r))

  abbrev pub Free : Process F → Type 0
  Free p = p.session.model_acquired ≡ false

  -- What takes no reference.
  pub data Calm (p q : Process F) : Type 0 where
    still : q.cache ≡ p.cache → hold q.session ≡ hold p.session → Calm p q
    gives :
        (now : ℕ)
        → p.session.model_acquired ≡ true
        → q.cache ≡ ModelCache.release now p.cache
        → hold q.session ≡ (p.session.model_path, false, none)
        → Calm p q

  pub Calm-Balanced :
      (r : ℕ) (path : Text) (p q : Process F) → Calm p q → Balanced r path p → Balanced r path q
  Calm-Balanced r path p q (still c h) (fits, same, n) = (
    subst (Fits path) (sym c) fits,
    ap (λ x. x.0) h ∙ same,
    ground (arith, c, ap (λ x. x.1) h, n),
  )
  Calm-Balanced r path p q (gives now held c h) (fits, same, n) =
      let (fits', less) = released-Fits now path p.cache fits in
      (
        subst (Fits path) (sym c) fits',
        ap (λ x. x.0) h ∙ same,
        ground (arith, c, ap (λ x. x.1) h, n, less, held),
      )

  pub Calm-Free : (p q : Process F) → Calm p q → Free p → Free q
  Calm-Free p q (still c h) free = ap (λ x. x.1) h ∙ free
  Calm-Free p q (gives now held c h) free = ap (λ x. x.1) h

  pub release-Calm :
      (now : ℕ) (p p' : Process F)
      → p'.cache ≡ p.cache
      → hold p'.session ≡ hold p.session
      → Calm p (release_model now p')
  unfolding release_model
  release-Calm now p p' c h = elim (Bool-cases p'.session.model_acquired) [
    | inl held ↦
        gives now (sym (ap (λ x. x.1) h) ∙ held) (ground (arith, held, c))
          (ground (arith, held, ap (λ x. x.0) h))
    | inr free ↦ still (ground (arith, free, c)) (ground (arith, free, h))
  ]

module _ {F : Type 0} ⦃fl : FloatOps F⦄ where
  pub Effect-Balanced :
      (r : ℕ) (path : Text) (p q : Process F)
      → Effect p q
      → Free p
      → Balanced r path p
      → Balanced r path q
  Effect-Balanced r path p q (quiet c h) free b = Calm-Balanced r path p q (still c h) b
  Effect-Balanced r path p q (gives_back now held c h) free b =
      Calm-Balanced r path p q (gives now held c h) b
  Effect-Balanced r path p q (grants init h got same held decodes) free (fits, at, n) =
      let (fits', more) =
        acquired-Fits init path h p.cache q.cache fits
          (subst (λ x. ModelCache.acquire init x true p.cache ≡ (some h, q.cache)) at got) in
      (fits', same ∙ at, ground (arith, held, more, n, free))
  Effect-Balanced r path p q (refuses init got h) free (fits, at, n) =
      let (fits', equal) =
        refused-Fits init path p.cache q.cache fits
          (subst (λ x. ModelCache.acquire init x true p.cache ≡ (none, q.cache)) at got) in
      (fits', ap (λ x. x.0) h ∙ at, ground (arith, ap (λ x. x.1) h, equal, n, free))

  -- A message whose type is "config".
  abbrev pub is_config : Option (Json F) → Bool
  is_config none = false
  is_config (some msg) = elim (field (codes "type") msg) [
    | none ↦ false
    | some (string type) ↦ text_eq type (codes "config")
    | some (number x) ↦ false
    | some other ↦ false
  ]

  replied-Calm : (p q : Process F) (a b : Text) → replied p a b ≡ done q → Calm p q
  unfolding send_error
  replied-Calm p q a b h =
      let is : record p { session = send_error a b p.session } ≡ q = ground (arith, h) in
      subst (Calm p) is (still refl (hold-send _ _))

  pub text-Calm :
      (env : Surroundings F) (msg : Option (Json F)) (p q : Process F)
      → is_config msg ≡ false
      → handle_json_message env msg p ≡ done q
      → Calm p q
  unfolding handle_json_message
  text-Calm env none p q plain h = replied-Calm p q _ _ h
  text-Calm env (some msg) p q plain h = elim (json_cases env msg p) [
    | inl (_, e) ↦ replied-Calm p q _ _ (sym e ∙ h)
    | inr (inl (type, typed, e)) ↦ elim (dispatch_cases env type msg p) [
      | inl (config, d) ↦ absurd (ground (arith, typed, config, plain))
      | inr (inl (_, d)) ↦ replied-Calm p q _ _ (sym d ∙ sym e ∙ h)
      | inr (inr (inl (_, _, d))) ↦
          let h' : with_session p (handle_end env p.session) ≡ done q = sym d ∙ sym e ∙ h in
          still (with_session-cache p q (handle_end env p.session) h')
            (hold-end env p.session q.session (with_session-done p q (handle_end env p.session) h'))
      | inr (inr (inr (_, d))) ↦ replied-Calm p q _ _ (sym d ∙ sym e ∙ h)
    ]
    | inr (inr e) ↦ absurd (ground arith)
  ]
