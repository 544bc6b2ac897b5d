-- ===== src/ModelCache.antt =====
-- src/whisper/ModelCache.h: the one whisper context, its reference count and the deferred unload.
-- Every public method runs under the mutex, so it is one step. A context is a number; what
-- `whisper_init_from_file_with_params` gives back is an argument of `acquire`. The calls of
-- whisper.cpp and the timer threads are effects, kept in fields of the state.
pub mod Sessions
pub mod Sharing
pub mod Timers
mod Tests
use transcription_api.Prelude.{
  Text, text_eq, ℤ, pos, pos_part, ltb_ℤ, leb_ℤ, ℕ, ◌+◌, ◌-◌, ◌*◌, Bool, true, false, ◌&&◌, Option,
  none, some, List, [], ◌∷◌, ◌==◌, if◌then◌else◌,
}
use transcription_api.Auth.{second}

pub record ModelCache : Type 0 where
  pub ctx : Option ℕ
  pub loaded_path : Text
  pub ref_count : ℕ
  pub ttl_seconds : ℤ
  pub unload_pending : Bool
  -- what `whisper_init_from_file_with_params` opened and `whisper_free` freed, the latest first
  pub inits : List ℕ
  pub frees : List ℕ
  -- when each timer thread wakes up, in nanoseconds
  pub timers : List ℕ

-- `ModelCache() = default`
abbrev pub model_cache : ModelCache
model_cache = record {
  ctx = none;
  loaded_path = [];
  ref_count = 0;
  ttl_seconds = pos 300;
  unload_pending = false;
  inits = [];
  frees = [];
  timers = [];
}

-- Whether to use the GPU and flash attention.
pub record ContextParams : Type 0 where
  pub use_gpu : Bool
  pub flash_attn : Bool

-- The loader of whisper.cpp; `none` is a null pointer.
abbrev pub Loader : Type 0
Loader = Text → ContextParams → Option ℕ

unfoldable pub configure : ℤ → ModelCache → ModelCache
configure ttl_seconds c = record c { ttl_seconds = ttl_seconds }

-- `exchange(false)`
unfoldable pub cancel_unload_locked : ModelCache → ModelCache
cancel_unload_locked c = record c { unload_pending = false }

-- A context that is loaded is freed; the reference count is reset only then.
unfoldable pub unload_locked : ModelCache → ModelCache
unload_locked c = elim c.ctx [
  | none ↦ c
  | some h ↦ record c { ctx = none; loaded_path = []; ref_count = 0; frees = h ∷ c.frees }
]

-- `acquire` from "Load the model" on; `none` is the `runtime_error`.
unfoldable pub load_model : Loader → Text → Bool → ModelCache → Option ℕ × ModelCache
load_model init model_path use_gpu c =
    elim (init model_path (record { use_gpu = use_gpu; flash_attn = true })) [
      | none ↦ (none, c)
      | some h ↦ (
        some h,
        record c { ctx = some h; inits = h ∷ c.inits; loaded_path = model_path; ref_count = 1 },
      )
    ]

unfoldable pub acquire : Loader → Text → Bool → ModelCache → Option ℕ × ModelCache
unfolding cancel_unload_locked load_model
acquire init model_path use_gpu c0 =
    let c = cancel_unload_locked c0 in
    elim c.ctx [
      | none ↦ load_model init model_path use_gpu c
      | some h ↦
          if text_eq c.loaded_path model_path
          then (some h, record c { ref_count = c.ref_count + 1 })
          else load_model init model_path use_gpu
              (record c { ctx = none; loaded_path = []; frees = h ∷ c.frees })
    ]

-- The thread that the call detaches wakes up `ttl` seconds from now, a time in nanoseconds.
unfoldable pub schedule_unload_locked : ℕ → ModelCache → ModelCache
schedule_unload_locked now c = record c {
  unload_pending = true;
  timers = (now + pos_part c.ttl_seconds * second) ∷ c.timers;
}

unfoldable pub release : ℕ → ModelCache → ModelCache
unfolding unload_locked schedule_unload_locked
release now c =
    let c' : ModelCache = record c { ref_count = c.ref_count - 1 } in
    if c.ref_count == 0
    then c
    else if c.ref_count - 1 == 0
    then if leb_ℤ c.ttl_seconds (pos 0) && leb_ℤ (pos 0) c.ttl_seconds
      then unload_locked c'
      else if ltb_ℤ (pos 0) c.ttl_seconds
      then schedule_unload_locked now c'
      else c'
    else c'

-- The body of a timer thread, after its sleep.
unfoldable pub timer_body : ModelCache → ModelCache
unfolding unload_locked
timer_body c =
    if c.unload_pending && (c.ref_count == 0)
    then record (unload_locked c) { unload_pending = false }
    else c

unfoldable pub force_unload : ModelCache → ModelCache
unfolding cancel_unload_locked unload_locked
force_unload c = unload_locked (cancel_unload_locked c)

unfoldable pub ref_count_of : ModelCache → ℕ
ref_count_of c = c.ref_count

unfoldable pub is_loaded : ModelCache → Bool
is_loaded c = elim c.ctx [ none ↦ false | some h ↦ true ]

-- The destructor.
unfoldable pub destroy : ModelCache → ModelCache
unfolding cancel_unload_locked
destroy c0 =
    let c = cancel_unload_locked c0 in
    elim c.ctx [ none ↦ c | some h ↦ record c { ctx = none; frees = h ∷ c.frees } ]
