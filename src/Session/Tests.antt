-- ===== src/Session/Tests.antt =====
-- A session with a full buffer, over numbers in place of floats, and the theorems on its handlers at it.
use transcription_api.Prelude.{
  Text, codes, is_empty, Text_discrete, pos, ℕ, ◌+◌, ◌≡◌, refl, inl, true, false, none, some, List,
  [], ◌∷◌, ◌++◌, arith, if◌then◌else◌, length, replicate, length-replicate,
}
use transcription_api.Float.{coarse}
use transcription_api.Engine.{Outcome, transcribe_sliding_window, TranscribeResult, Engine, Decoder}
use transcription_api.Session.State.{
  throws, Process, Surroundings, Json, object, string, field, done, release_model, transcription,
  CloseReason, Session,
}
use transcription_api.Session.Receive.{handle_end, handle_config}
use transcription_api.Session.Receive.Rate.{Frame}
use transcription_api.Session.Flush.{absorb, flush_cycle, text_ok}
use transcription_api.Session.Flush.Texts.{Decode, kept, final_text, absorb_all, end_sends}
use transcription_api.HallucinationGuard.{is_hallucination}
use transcription_api.Session.Receive.Reconfigure.{config_again_leaks}
use transcription_api.InferenceLimiter.{inference_limiter}
use transcription_api.Auth.{denied, is_auth_enabled}
use transcription_api.Session.Flush.Rounds.{flush_decodes}

abbrev model : Text
model = codes "m.bin"

abbrev frame : List ℕ
frame = 1 ∷ 0 ∷ 0 ∷ 0 ∷ 2 ∷ 0 ∷ 0 ∷ 0 ∷ []

-- A session that is ready, with 20 s of audio waiting.
abbrev full_engine : Engine ℕ
full_engine = record {
  ctx = some 7;
  audio_buffer = replicate 320000 1;
  language = codes "es";
  initial_prompt = [];
  n_threads = pos 4;
  beam_size = pos 5;
  vad_thold = 0;
  temperature = 0;
  temperature_inc = 0;
  no_speech_thold = 0;
  logprob_thold = 0;
  high_pass = record { prev_raw = 0; prev_filtered = 0 };
}

abbrev talk : Session ℕ
talk = record {
  socket_open = true;
  outbox = [];
  closes = [];
  model_path = model;
  engine = some full_engine;
  session_id = codes "s";
  configured = true;
  buffer_overflowed = false;
  last_transcribed_size = 0;
  language = codes "es";
  whisper_beam_size = pos 5;
  whisper_threads = pos 4;
  whisper_initial_prompt = [];
  session_timeout_sec = pos 30;
  whisper_temperature = 0;
  whisper_temperature_inc = 0;
  whisper_no_speech_thold = 0;
  whisper_logprob_thold = 0;
  model_acquired = true;
  bytes_received_in_window = 0;
  rate_limit_start = 0;
  flush_running = true;
  last_audio_time = 0;
  full_transcription = [];
  raw_transcription = [];
}

abbrev committing : Text → Decode ℕ
committing t = record {
  size = 160000;
  result = record { partial_text = []; committed_text = t };
  engine = full_engine;
}

abbrev two_decodes : List (Decode ℕ)
two_decodes = committing (codes " hola hola hola hola") ∷ committing (codes " mundo") ∷ []

two_decodes-kept : kept two_decodes ≡ codes " mundo"
unfolding text_ok is_hallucination Text_discrete
two_decodes-kept = refl

abbrev last_engine : Engine ℕ
last_engine = record full_engine { audio_buffer = 5 ∷ 6 ∷ [] }

abbrev emptied : Engine ℕ
emptied = record full_engine { audio_buffer = [] }

-- Two decodes of the flush thread; the second leaves two samples.
abbrev absorbed : List (Decode ℕ)
absorbed =
    committing (codes " hola hola hola hola")
    ∷ record (committing (codes " mundo")) { engine = last_engine }
    ∷ []

abbrev one_word : Decoder ℕ
one_word params buffer = record {
  result = pos 0;
  detected = none;
  segments = record { t1 = pos 100; text = some (codes " si") } ∷ [];
}

abbrev ending : Surroundings ℕ
ending = record {
  now = 1000;
  answered = 1001;
  ask = λ config token. denied;
  init = λ path params. some 7;
  init_state = λ ctx. some 8;
  decode = one_word;
}

last_decode :
    transcribe_sliding_window one_word true last_engine
    ≡ Outcome.returns (record { partial_text = []; committed_text = codes " si" }, emptied)
unfolding transcribe_sliding_window Text_discrete
last_decode = refl

absorbed_engine : (absorb_all absorbed talk).engine ≡ some last_engine
unfolding absorb_all absorb
absorbed_engine = refl

end_sends_example :
    let t = absorb_all absorbed talk in
    (u : Session ℕ) × (handle_end ending t ≡ done u)
    × (u.outbox
        ≡ t.outbox
          ++ transcription
              (final_text
                ([] ++ kept absorbed ++ codes " si")
                ([] ++ codes " hola hola hola hola mundo"))
              true
            ∷ [])
    × (u.socket_open ≡ false)
    × (u.closes ≡ t.closes ++ CloseReason.normal ∷ [])
    × (u.engine ≡ some emptied)
end_sends_example =
    end_sends ending absorbed talk last_engine emptied
      (record { partial_text = []; committed_text = codes " si" }) refl absorbed_engine last_decode

-- A session alone with the loaded model, in a server without authentication.
abbrev alone : Process ℕ
alone = record {
  session = talk;
  cache = record {
    ctx = some 7;
    loaded_path = model;
    ref_count = 1;
    ttl_seconds = pos 300;
    unload_pending = false;
    inits = 7 ∷ [];
    frees = [];
    timers = [];
  };
  limiter = inference_limiter;
  auth = record {
    api_client = none;
    cache = [];
    auth_enabled = false;
    cache_ttl_seconds = pos 300;
    static_token = [];
  };
}

abbrev env : Surroundings ℕ
env = record {
  now = 1000;
  answered = 1001;
  ask = λ config token. denied;
  init = λ path params. some 7;
  init_state = λ ctx. some 8;
  decode = λ params buffer. record { result = pos 0; detected = none; segments = [] };
}

abbrev plain_config : Json ℕ
plain_config = object ((codes "type", string (codes "config")) ∷ [])

no_language : field (codes "language") plain_config ≡ none
unfolding Text_discrete
no_language = refl

auth_off : is_auth_enabled alone.auth ≡ false
unfolding is_auth_enabled
auth_off = refl

config_again_leaks_example :
    (q : Process ℕ) × (handle_config env plain_config alone ≡ done q)
    × (q.cache.ref_count ≡ 2)
    × (let r = release_model 1000 q in
        (r.cache.ref_count ≡ 1) × (r.session.model_acquired ≡ false) × (release_model 2000 r ≡ r))
config_again_leaks_example =
    config_again_leaks env plain_config alone 7 2000 auth_off no_language refl refl refl

flush_decodes_example :
    ((res : TranscribeResult) (e' : Engine ℕ)
      → transcribe_sliding_window env.decode false full_engine ≡ Outcome.returns (res, e')
      → (q : Process ℕ) × (flush_cycle env true alone ≡ done q)
        × (q.limiter ≡ inference_limiter)
        × (q.session.engine ≡ some e')
        × (q.session.last_transcribed_size ≡ (
            if is_empty res.committed_text
            then length full_engine.audio_buffer
            else length e'.audio_buffer)))
    × ((what : Text)
        → transcribe_sliding_window env.decode false full_engine ≡ Outcome.throws what
        → (q : Process ℕ) × (flush_cycle env true alone ≡ throws what q)
          × (q.limiter.active_count ≡ 0 + 1))
flush_decodes_example =
    let full = length-replicate {A = ℕ} 320000 1 in
    flush_decodes env alone full_engine refl refl (omega (arith, full)) (omega (arith, full))
      (omega arith) (inl (omega (arith, full))) (omega arith)

-- Two frames in one window, and one that ends it.
abbrev frames : List Frame
frames = (5, 1 ∷ 0 ∷ 0 ∷ 0 ∷ []) ∷ (6, 1 ∷ 0 ∷ []) ∷ (4_000_000_000, 1 ∷ 0 ∷ 0 ∷ 0 ∷ []) ∷ []
