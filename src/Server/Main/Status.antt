-- ===== src/Server/Main/Status.antt =====
-- From the command line to the end of the process.
use transcription_api.Prelude.{
  Text, ℤ, pos, pos_part, ℕ, ◌+◌, ◌*◌, ◌≤◌, ◌<◌, ◌≡◌, refl, ap, ◌∙◌, ◌≢◌, ◌⊎◌, inl, inr, Bool, true,
  false, Option, some, List, [], ◌∷◌, ◌++◌, arith, Bool-cases, All,
}
use transcription_api.Prelude.Dict.{Dict}
use transcription_api.Float.{FloatOps}
use transcription_api.Server.Numbers.{stoi}
use transcription_api.Server.DotEnv.{load_dot_env, extract_env_file}
use transcription_api.Server.Config.{ServerConfig, config_from_env, to_shutdown_timeout_sec}
use transcription_api.Server.Args.{configured, read_config}
use transcription_api.Server.Args.Values.{Reads, Value, integer}
use transcription_api.Server.Args.Assignments.{Assignments, arguments, last_of}
use transcription_api.Server.Args.Settings.{parse_args-settings}
use transcription_api.Server.Accept.{
  Acceptor, joining, broken, aborted, interrupted, failed, vanished, client, Event, signalled,
  tested, accept_returns, session_created, session_destroyed, thread_ends, run, step, listening,
  on_accept, on_client, on_signal,
}
use transcription_api.Server.Accept.Shutdown.{Phase-cases}
use transcription_api.Server.Start.{Host}
use transcription_api.Server.Start.Limits.{Permits, start-StartsAs}
use transcription_api.Server.Join.{returned, forced, shut_down}
use transcription_api.Server.Join.Deadline.{AllEndBy, shut_down_in_time}
use transcription_api.Server.Main.{main, behind_loop, shuts_down, exit_status}

-- No client resets its connection before its address is read.
abbrev pub is_steady : Event → Bool
is_steady (accept_returns vanished) = false
is_steady _ = true

-- The loop was not left by an exception, and it does not wait for a second signal.
abbrev IsSteady : Acceptor → Type 0
IsSteady a = (a.phase ≢ broken) × (a.waits ≡ false → a.is_open ≡ false)

step-IsSteady : (a : Acceptor) (e : Event) → is_steady e ≡ true → IsSteady a → IsSteady (step a e)
unfolding step on_accept on_signal on_client
step-IsSteady a signalled h (p, w) = (ground (arith, p), ground (arith, w))
step-IsSteady a tested h (p, w) =
    (ground (arith, p, Phase-cases a.phase), ground (arith, w, Phase-cases a.phase))
step-IsSteady a (accept_returns aborted) h (p, w) =
    (ground (arith, p, Phase-cases a.phase), ground (arith, w, Phase-cases a.phase))
step-IsSteady a (accept_returns interrupted) h (p, w) =
    (ground (arith, p, Phase-cases a.phase), ground (arith, w, Phase-cases a.phase))
step-IsSteady a (accept_returns failed) h (p, w) =
    (ground (arith, p, Phase-cases a.phase), ground (arith, w, Phase-cases a.phase))
step-IsSteady a (accept_returns vanished) h s = absurd (ground arith)
step-IsSteady a (accept_returns (client ip starts)) h (p, w) =
    (ground (arith, p, Phase-cases a.phase), ground (arith, w, Phase-cases a.phase))
step-IsSteady a (session_created n) h s = s
step-IsSteady a (session_destroyed n) h s = s
step-IsSteady a (thread_ends i) h s = s

run-IsSteady :
    (a : Acceptor) (es : List Event)
    → All (λ e. is_steady e ≡ true) es
    → IsSteady a
    → IsSteady (run a es)
unfolding run
run-IsSteady a [] h s = s
run-IsSteady a (e ∷ es) (h, hs) s = run-IsSteady (step a e) es hs (step-IsSteady a e h s)

-- What the operating system does with a signal: it ends the `accept` that waits.
abbrev pub interrupted_by_signal : List Event
interrupted_by_signal = signalled ∷ accept_returns interrupted ∷ tested ∷ []

stops : (a : Acceptor) → IsSteady a → (run a interrupted_by_signal).phase ≡ joining
unfolding run step on_accept on_signal
stops a (p, w) = ground (arith, p, w, Phase-cases a.phase, Bool-cases a.waits)

run-append : (a : Acceptor) (es more : List Event) → run a (es ++ more) ≡ run (run a es) more
unfolding run
run-append a [] more = refl
run-append a (e ∷ es) more = run-append (step a e) es more

behind_loop-joining :
    (timeout : ℤ) (ends : List (Option ℕ)) (a : Acceptor)
    → a.phase ≡ joining
    → behind_loop timeout ends a ≡ shuts_down (shut_down timeout ends)
unfolding behind_loop
behind_loop-joining timeout ends a joined = ground (arith, joined)

abbrev integer_of : {F : Type 0} → Option (Value F) → ℤ
integer_of (some (integer n)) = n
integer_of _ = pos 0

-- The server at its first test.
listening-IsSteady : (total per_ip : ℕ) → IsSteady (listening total per_ip)
unfolding listening
listening-IsSteady total per_ip = (λ e. cc, λ e. cc)

module _ {F : Type 0} ⦃fl : FloatOps F⦄ where
  -- `main` with arguments that are accepted, on a host that lets it start.
  main_started :
      (host : Host) (stof : Text → Option F) (files : Text → Option Text) (vars : Dict Text)
      (args : List Text) (config : ServerConfig F) (events : List Event) (ends : List (Option ℕ))
      → Permits host
      → read_config stof files vars args ≡ configured config
      → main host stof files vars args events ends
        ≡ behind_loop config.shutdown_timeout_sec ends
            (run (listening config.max_connections config.max_connections_per_ip) events)
  unfolding main
  main_started host stof files vars args config events ends permits parsed =
      let (r, starts, listens, _) = start-StartsAs host config permits in
      ground (arith, parsed, starts, listens)

  -- Let the arguments be options with values, `--env-file` among them or not, whose numbers can be read,
  -- the last `--shutdown-timeout-sec` of them with the number n, and let the environment behind the file
  -- of settings be readable. Take a host that lets the server start, and an accept loop that meets
  -- anything but a client that resets its connection before its address is read; then a signal comes,
  -- the system call of `accept` returns that it was interrupted, and the loop makes its next test. The
  -- process ends with status 0 less than 100 ms after n seconds: `main` returns once all threads have
  -- ended, or the watchdog forces the exit at n seconds or later, while some thread still runs.
  pub main_stops :
      (host : Host) (stof : Text → Option F) (files : Text → Option Text) (vars : Dict Text)
      (ss : Assignments) (c : ServerConfig F) (v : Text) (n : ℤ) (es : List Event)
      (ends : List (Option ℕ))
      → Permits host
      → config_from_env stof (load_dot_env (files (extract_env_file (arguments ss))) vars) ≡ some c
      → All (Reads stof) ss
      → last_of to_shutdown_timeout_sec ss ≡ some v
      → stoi v ≡ some n
      → All (λ e. is_steady e ≡ true) es
      → let ended = main host stof files vars (arguments ss) (es ++ interrupted_by_signal) ends in
        let deadline = pos_part n * 1000 in
        (exit_status ended ≡ some 0)
        × (((t : ℕ) × (ended ≡ shuts_down (returned t)) × (t < deadline + 100) × AllEndBy t ends)
            ⊎ ((t : ℕ) × (ended ≡ shuts_down (forced t))
                × (deadline ≤ t)
                × (t < deadline + 100)
                × (AllEndBy t ends → ⊥)))
  unfolding read_config exit_status
  main_stops host stof files vars ss c v n es ends permits e reads given is_n steady =
      let vars' = load_dot_env (files (extract_env_file (arguments ss))) vars in
      let (c', parsed, settings) = parse_args-settings stof vars' ss c e reads in
      let timeout : c'.shutdown_timeout_sec ≡ n =
        ap integer_of (settings to_shutdown_timeout_sec) ∙ rw given (rw is_n refl) in
      let a = listening c'.max_connections c'.max_connections_per_ip in
      let phase : (run a (es ++ interrupted_by_signal)).phase ≡ joining =
        ap (λ (b : Acceptor). b.phase) (run-append a es interrupted_by_signal)
        ∙ stops (run a es) (run-IsSteady a es steady (listening-IsSteady _ _)) in
      let is =
        main_started host stof files vars (arguments ss) c' (es ++ interrupted_by_signal) ends
          permits parsed
        ∙ behind_loop-joining c'.shutdown_timeout_sec ends (run a (es ++ interrupted_by_signal))
            phase
        ∙ ap (λ x. shuts_down (shut_down x ends)) timeout in
      elim (shut_down_in_time n ends) [
        | inl (t, x, early, by) ↦
            let ended = is ∙ ap shuts_down x in (ap exit_status ended, inl (t, ended, early, by))
        | inr (t, x, late, early, alive) ↦
            let ended = is ∙ ap shuts_down x in
            (ap exit_status ended, inr (t, ended, late, early, alive))
      ]
