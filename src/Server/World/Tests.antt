-- ===== src/Server/World/Tests.antt =====
-- A server with a token: a client connects, its session is configured with the token, a timer fires.
use transcription_api.Prelude.{
  Text, codes, Text_discrete, pos, ℕ, ◌≤◌, ◌<◌, ◌≡◌, refl, inr, true, false, Option, none, some, [],
  ◌∷◌, ◌++◌, arith, length, All,
}
use transcription_api.Float.{coarse}
use transcription_api.Engine
use transcription_api.Engine.{Engine, Decoder}
use transcription_api.ModelCache.{ModelCache}
use transcription_api.ModelCache
use transcription_api.ModelCache.Sessions.{current}
use transcription_api.Auth.{denied, auth_manager, is_auth_enabled, validate}
use transcription_api.Session.State.{
  Message, Session, Process, Surroundings, Handled, done, Json, object, string, new_session,
  send_message, send_ready,
}
use transcription_api.Session.Receive.{
  handle_json_message, dispatch, handle_config, authenticate, configure_session, load_engine,
  install_engine,
}
use transcription_api.Session.Steps.{Step}
use transcription_api.Session.Steps.Tokens.{OpensWith}
use transcription_api.Server.Config.{
  ServerConfig, default_config, config_from_env, set_flag, to_auth_token,
}
use transcription_api.Server.DotEnv.{env}
use transcription_api.Server.Args.{parse_args, parse_loop, flag_of, configured}
use transcription_api.Server.Args.Names.{Flag_discrete}
use transcription_api.Server.Args.Values.{Value}
use transcription_api.Server.Args.Assignments.{Assignments, arguments}
use transcription_api.Server.Start.{Host, start, serving}
use transcription_api.Server.World.{
  World, seen_by, after_step, opening, opens, moves, fires, Reach, begin, next,
}
use transcription_api.Server.World.Access.{token_guards_server}
use transcription_api.Server.World.Backing.{holding}
use transcription_api.Server.World.Decoding.{Decodes}
use transcription_api.Server.World.Model.{Served, model_stays_loaded, Move-keeps_model}

abbrev one_word : Decoder ℕ
one_word params buffer = record {
  result = pos 0;
  detected = none;
  segments = record { t1 = pos 100; text = some (codes " si") } ∷ [];
}

abbrev around : Surroundings ℕ
around = record {
  now = 1000;
  answered = 1001;
  ask = λ config token. denied;
  init = λ path params. some 7;
  init_state = λ ctx. some 8;
  decode = one_word;
}

abbrev config : ServerConfig ℕ
config = record default_config { auth_token = codes "abc" }

abbrev w0 : World ℕ
w0 = opening (serving config)

abbrev client : Session ℕ
client = new_session (codes "s") w0.model_path w0.options 0

abbrev w1 : World ℕ
w1 = record w0 { sessions = client ∷ [] }

abbrev config_message : Json ℕ
config_message =
    object ((codes "type", string (codes "config")) ∷ (codes "token", string (codes "abc")) ∷ [])

abbrev after : Handled (Process ℕ) → Process ℕ
after (done q) = q
after _ = seen_by client w1

abbrev ready : Process ℕ
ready = after (handle_json_message around (some config_message) (seen_by client w1))

config_done : handle_json_message around (some config_message) (seen_by client w1) ≡ done ready
unfolding handle_json_message Text_discrete dispatch handle_config authenticate is_auth_enabled
    serving auth_manager default_config validate
config_done = refl

config_step : Step one_word (seen_by client w1) ready
unfolding new_session
config_step = Step.text around (some config_message) refl refl config_done

reached : Reach one_word w0 (after_step 0 ready w1)
unfolding config_step
reached =
    next (next begin (opens (codes "s") 0 refl)) (moves 0 client ready config_step refl tt refl)

one_holder : holding (after_step 0 ready w1).sessions ≡ 1
unfolding handle_json_message Text_discrete dispatch handle_config authenticate is_auth_enabled
    serving auth_manager default_config validate configure_session load_engine ModelCache.acquire
    ModelCache.configure install_engine Engine.engine send_ready send_message new_session
one_holder = refl

-- The timer of an earlier release fires while the session has its reference.
abbrev w2 : World ℕ
w2 = after_step 0 ready w1

abbrev w3 : World ℕ
w3 = record w2 { cache = ModelCache.timer_body w2.cache }

some_holder : 0 < holding w2.sessions
some_holder = omega (arith, one_holder)

model_stays_loaded_example :
    All (Served w2.cache) w2.sessions
    × All (Decodes w2.cache) w2.sessions
    × (holding w2.sessions ≤ w2.cache.ref_count)
    × (w2.cache.inits ≡ current w2.cache.ctx ++ w2.cache.frees)
model_stays_loaded_example = model_stays_loaded config one_word w2 reached

Move-keeps_model_example : (w3.cache.ctx ≡ w2.cache.ctx) × (w3.cache.frees ≡ w2.cache.frees)
Move-keeps_model_example =
    Move-keeps_model config one_word w2 w3 reached (fires refl) some_holder some_holder

abbrev host : Host
host = record { tls_loads = λ cert key. true; listens = λ address port. true }

abbrev stof : Text → Option ℕ
stof t = some (length t)

abbrev options : Assignments
options = (to_auth_token, codes "abc") ∷ []

environment : config_from_env stof [] ≡ some default_config
unfolding config_from_env env
environment = refl

parsed_config : parse_args stof [] (arguments options) ≡ configured config
unfolding parse_args config_from_env env parse_loop flag_of Text_discrete set_flag
parsed_config = refl

starts : start host config ≡ some (serving config)
unfolding start default_config
starts = refl

client_closed : client.configured ≡ false
unfolding new_session
client_closed = refl

ready_configured : ready.session.configured ≡ true
unfolding handle_json_message Text_discrete dispatch handle_config authenticate is_auth_enabled
    serving auth_manager default_config validate configure_session load_engine ModelCache.acquire
    ModelCache.configure install_engine Engine.engine send_ready send_message new_session
ready_configured = refl

connected : Reach one_word w0 w1
connected = next begin (opens (codes "s") 0 refl)

token_guards_server_example : OpensWith (codes "abc") config_step
unfolding Flag_discrete
token_guards_server_example =
    token_guards_server host stof [] options default_config config (codes "abc") (serving config)
      one_word w1 client ready config_step environment (inr (Value.text (codes "abc"), refl), tt)
      refl (λ e. cc) (omega arith, (omega arith, (omega arith, tt))) parsed_config starts connected
      client_closed ready_configured

ready_says : ready.session.outbox ≡ Message.ready (codes "s") (codes "es") (pos 1) ∷ []
unfolding handle_json_message Text_discrete dispatch handle_config authenticate is_auth_enabled
    serving auth_manager default_config validate configure_session load_engine ModelCache.acquire
    ModelCache.configure install_engine Engine.engine send_ready send_message new_session
ready_says = refl
