-- ===== src/ModelCache/Tests.antt =====
-- Two sessions share the model; the theorems at concrete states.
use transcription_api.Prelude.{
  Text, codes, pos, ◌<◌, ◌≡◌, refl, true, false, none, some, [], ◌∷◌, ◌++◌, arith, length, All,
}
use transcription_api.ModelCache.{ModelCache, model_cache, Loader, acquire, release, timer_body}
use transcription_api.ModelCache.Sessions.{Shared, acquires, Reach, begin, next, current}
use transcription_api.ModelCache.Sharing.{Reach-no_dangling}
use transcription_api.ModelCache.Timers.{stale_timer_unloads}

abbrev loader : Loader
loader path params = some 7

abbrev path : Text
path = codes "m.bin"

abbrev in_use : ModelCache
in_use = record {
  ctx = some 7;
  loaded_path = codes "m.bin";
  ref_count = 1;
  ttl_seconds = pos 300;
  unload_pending = false;
  inits = 7 ∷ [];
  frees = [];
  timers = [];
}

abbrev fresh : Shared
fresh = record { cache = model_cache; holders = [] }

abbrev one_session : Shared
one_session = record { cache = in_use; holders = 7 ∷ [] }

Reach-one_session : Reach path fresh one_session
unfolding acquire
Reach-one_session = next begin (acquires loader refl)

Reach-no_dangling_example :
    All (λ h. one_session.cache.ctx ≡ some h) one_session.holders
    × (in_use.ref_count ≡ length one_session.holders)
    × (in_use.inits ≡ current in_use.ctx ++ in_use.frees)
Reach-no_dangling_example = Reach-no_dangling path one_session Reach-one_session

stale_timer_unloads_example :
    let c1 = release 0 in_use in
    let c2 = (acquire loader path true c1).1 in
    let c3 = release 200 c2 in
    (c3.timers ≡ 300000000200 ∷ 300000000000 ∷ [])
    × (◌<◌ 300000000000 300000000200)
    × ((timer_body c3).ctx ≡ none)
    × ((timer_body c3).frees ≡ 7 ∷ [])
stale_timer_unloads_example =
    stale_timer_unloads loader in_use 7 299 0 200 refl refl refl (omega arith)
