-- ===== src/Server/Http/Ready.antt =====
-- The answer to `/ready`, and to any other request.
use transcription_api.Prelude.{codes, Text_discrete, ◌≡◌, refl, some, arith, if◌then◌else◌}
use transcription_api.InferenceLimiter.{try_acquire, has_capacity}
use transcription_api.Server.Http.{Shared, Response, handle_http_request}

-- `/ready` is answered 200 if a decode that asked at this moment would get a slot, and 503 if it would not.
pub ready_iff_slot :
    (s : Shared)
    → (r : Response) × (handle_http_request (codes "/ready") s ≡ some r)
      × (r.status ≡ (if (try_acquire s.inference).0 then 200 else 503))
unfolding handle_http_request Text_discrete try_acquire has_capacity
ready_iff_slot s = (_, refl, ground arith)
