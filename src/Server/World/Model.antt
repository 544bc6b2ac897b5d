-- ===== src/Server/World/Model.antt =====
-- The model of the running server, which its sessions share.
use transcription_api.Prelude.{
  Text, ℕ, ◌≤◌, ◌<◌, ◌≡◌, ap, inl, inr, true, some, List, [], ◌∷◌, ◌++◌, arith, Bool-cases, length,
  All,
}
use transcription_api.Float.{FloatOps}
use transcription_api.Engine.{Decoder}
use transcription_api.ModelCache.{ModelCache}
use transcription_api.ModelCache.Sessions.{IsShared, current}
use transcription_api.Session.State.{Session}
use transcription_api.Server.Config.{ServerConfig}
use transcription_api.Server.Start.{serving}
use transcription_api.Server.World.{World, opening, Move, Reach}
use transcription_api.Server.World.Backed.{Reach-IsBacked, opening-IsBacked}
use transcription_api.Server.World.Backing.{loaded, holding, Sane, one}
use transcription_api.Server.World.Kept.{Move-Kept}
use transcription_api.Server.World.Decoding.{Decodes, Reach-Decodes}

module _ {F : Type 0} ⦃fl : FloatOps F⦄ where
  -- A reference means that a context is loaded.
  abbrev pub Served : ModelCache → Session F → Type 0
  Served c s = s.model_acquired ≡ true → (h : ℕ) × (c.ctx ≡ some h)

  All-Served :
      (path : Text) (c : ModelCache) (hs : List ℕ) (ss : List (Session F))
      → IsShared path (record { cache = c; holders = hs })
      → holding ss ≤ length hs
      → All (Sane path) ss
      → All (Served c) ss
  All-Served path c hs [] shared le sane = tt
  All-Served path c hs (s ∷ ss) shared le ((at, idle), sane) = (
    λ uses. elim (Bool-cases s.model_acquired) [
      | inl on ↦ loaded path c hs shared (omega (arith, le, ap one on))
      | inr off ↦ absurd (ground (arith, uses, off))
    ],
    All-Served path c hs ss shared (omega (arith, le)) sane,
  )

  -- In every state of a running server, whatever its sessions and their clients have done and whenever
  -- timers have fired, a context is loaded if any session has a reference, and the engine of every session
  -- has the very context that is loaded: no session decodes with one that was freed. The reference
  -- count is at least the number of sessions with a reference; and every context that was opened has
  -- been freed once, or is the loaded one.
  pub model_stays_loaded :
      (c : ServerConfig F) (decode : Decoder F) (w : World F)
      → Reach decode (opening (serving c)) w
      → All (Served w.cache) w.sessions
        × All (Decodes w.cache) w.sessions
        × (holding w.sessions ≤ w.cache.ref_count)
        × (w.cache.inits ≡ current w.cache.ctx ++ w.cache.frees)
  model_stays_loaded c decode w r =
      let v = Reach-IsBacked decode r (opening-IsBacked c) in
      let (hs, shared, le) = v.backing in
      (
        All-Served w.model_path w.cache hs w.sessions shared le v.sane,
        Reach-Decodes c decode r,
        omega (arith, shared.counted, le),
        shared.balanced,
      )

  -- If in a running server some session has a reference to the model before a move, and some session has
  -- one behind it, then the move, whatever it is, keeps the very same context and frees none: a model
  -- in use is neither freed nor replaced.
  pub Move-keeps_model :
      (c : ServerConfig F) (decode : Decoder F) (w x : World F)
      → Reach decode (opening (serving c)) w
      → Move decode w x
      → 0 < holding w.sessions
      → 0 < holding x.sessions
      → (x.cache.ctx ≡ w.cache.ctx) × (x.cache.frees ≡ w.cache.frees)
  Move-keeps_model c decode w x r m used still =
      Move-Kept decode m (Reach-IsBacked decode r (opening-IsBacked c)) used still
