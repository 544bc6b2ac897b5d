-- ===== src/Server/Http/Tests.antt =====
-- The endpoints of a server with one decode and two connections.
use transcription_api.Prelude.{codes, ◌-◌, ◌^◌, ◌≡◌, refl, none, some, All}
use transcription_api.ConnectionLimiter.{connection_limiter, try_acquire}
use transcription_api.InferenceLimiter
use transcription_api.ModelCache.{model_cache}
use transcription_api.Server.Numbers.{to_string, stoul, stoi}
use transcription_api.Server.Http.{Shared, Response, handle_http_request}
use transcription_api.Server.Http.Gauges.{gauge, gauges, metrics_read}

abbrev shared : Shared
shared = record {
  limiter = (try_acquire (codes "1.2.3.4") (connection_limiter 12 2)).1;
  inference = (InferenceLimiter.try_acquire InferenceLimiter.inference_limiter).1;
  cache = model_cache;
}

shown : to_string 1042 ≡ codes "1042"
unfolding to_string
shown = refl

wrapped : stoul (codes " -1x") ≡ some (2 ^ 64 - 1)
unfolding stoul
wrapped = refl

too_large : stoi (codes "2147483648") ≡ none
unfolding stoi
too_large = refl

metrics_read_example :
    (r : Response) × (handle_http_request (codes "/metrics") shared ≡ some r)
    × (r.status ≡ 200)
    × All (λ g. gauge g.0 r.body ≡ some g.1) (gauges shared)
metrics_read_example = metrics_read shared
