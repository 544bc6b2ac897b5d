-- ===== src/Lib.antt =====
-- Verification of the transcription server: a WebSocket server that streams audio to whisper.cpp.
--
-- The parts and how they interact. `main` (src/server.cpp) accepts connections; `ConnectionLimiter`
-- admits them by total and by address, and a `ConnectionGuard` gives the slot back. Each connection
-- is a `StreamingSession` with two threads. The receive loop answers "config" (authentication by
-- `AuthManager`, then a reference to the model from `ModelCache` and a `StreamingWhisperEngine`),
-- audio frames (into the engine's buffer, filtered by `AudioPreprocessor`) and "end" (a last decode
-- and the final text). The flush thread decodes the buffer now and then, under `InferenceLimiter`,
-- commits text, and drops what `isHallucination` finds to be a decoder loop.
--
-- Which file models which part:
--   HallucinationGuard   src/utils/HallucinationGuard.h: isHallucination
--   AudioPreprocessor    src/utils/AudioPreprocessor.h: process
--   ConnectionLimiter    src/server/ConnectionLimiter.{h,cpp}, src/server/ConnectionGuard.{h,cpp},
--                        and the accept loop of src/server.cpp as a history of events
--   InferenceLimiter     src/whisper/InferenceLimiter.h; Workers: threads in any interleaving;
--                        Guard: the slot of a `Guard`
--   ModelCache           src/whisper/ModelCache.h; Sessions: references and timers in any order
--   Engine               src/whisper/StreamingWhisperEngine.{h,cpp}: the buffer (processAudioChunk,
--                        reset), the sliding window (transcribeSlidingWindow), the setters and the
--                        conversions of samples (Convert); Stream: runs of calls
--   Log                  src/log/Log.h: the levels, write, timestamp, tag, maskKey
--   Auth                 src/auth/AuthCache.{h,cpp}, src/server/AuthManager.{h,cpp};
--                        ApiClient: src/auth/ApiAuthClient.cpp; Compare: constantTimeEqual;
--                        Refinement: the cache against a book of answers
--   Session              src/server/StreamingSession.h: State (members, messages, releaseModel),
--                        Receive (handleJsonMessage, handleConfig, handleBinaryMessage, handleEnd),
--                        Flush (one round of flushLoop), Steps (both threads of a session, in any
--                        interleaving), Run (run and flushLoop on a schedule of events), Identifier
--                        (generateSessionId); Receive/Rate: the rate limit over many frames; Run/References: the
--                        reference to the model over a schedule; Run/Faults: what can end the
--                        program
--   Server               src/server.cpp: loadDotEnv, env, extractEnvFile (DotEnv), configFromEnv (Config),
--                        parseArgs and printUsage (Args), the endpoints and handleSession, with the three getMetrics
--                        (Http), the objects that main makes and what it logs of them (Start), the
--                        accept loop and the signal handler (Accept), the joins and the watchdog
--                        (Join), the whole of main with its exit statuses (Main), all sessions of a
--                        running server (World; World/Decoding: the context that each engine has,
--                        World/Kept: what a move does to a model in use);
--                        src/server/ServerConfig.h (Config);
--                        src/server/SessionTracker.h (Tracker). Numbers: stoi, stoul, to_string
--   Prelude, Float       shared helpers, byte strings, integers, maps, the operations of `float`
--
-- State and operations. A class is a record with its members' names, a method a function from the
-- members to the members, in the order of the source's branches and early returns. What runs under a
-- mutex is one step. A session's handler is one step too, although it takes the mutexes of the shared
-- objects one after the other: `Process` holds these objects, and the step relation lets other
-- sessions change them between any two handlers. A handler reads the clock once, and a second time for
-- the answer of the authentication API. An exception is a value (`Handled`, `Outcome`, or `none`);
-- where its text carries a number or a text of a library, the model's text stops before it. Calls of the logger are left out, but for the start of `main`. A
-- WebSocket is a flag, the messages written and the closes sent; on a closed one, writes and closes
-- have no effect, as the handlers catch and log their exceptions. A write on an open stream is taken to
-- succeed, and the text of a message to be valid UTF-8, without which `dump` throws.
--
-- Not part of the repository, and so arguments: whisper.cpp (`Decoder` for one decode, `Loader` and
-- `init_state` for contexts and states), the JSON reader (a message arrives parsed, as far as the
-- handlers look into it), the resolver and the HTTP exchange (`Network`), the steady clock (a number
-- of nanoseconds), the arithmetic of `float` (`FloatOps`, of which no law is assumed) with `std::stof`,
-- and whether the host can load a certificate and listen (`Host`). `std::stoi`, `std::stoul` and
-- `std::to_string` are written out as the C++ standard describes them.
--
-- The accept loop is a machine of two steps, the test of `is_open` and the return of `accept`;
-- signals, sessions and the ends of threads come between any two of them, and an event that
-- cannot happen is ignored. The three `getMetrics` of one request read their objects one after
-- the other, so the state that the model is given need not be of one moment. `World` is the
-- server with the sessions that are alive: a move opens a session, lets one make a step, ends
-- one, or lets a timer of the cache fire. The watchdog polls every 100 ms, on fuel: the timeout
-- divided by 100 ms, and two polls more, which its theorem shows to be enough.
--
-- Numbers. Sizes and counts are natural numbers; `size_t` wraps at 2^64 only where the source
-- subtracts two sizes, in `size_sub` of the flush loop. `int` values are integers without bounds.
-- Bytes are numbers below 256, strings are lists of bytes, and `operator>>` splits at the blanks of
-- the "C" locale. Bytes in memory are little-endian. All loops of the code run over a list or an
-- index, so the definitions are by structural recursion, but for the watchdog and `to_string`, which
-- use fuel.
--
-- `Run` is executable: an event is what a read gives, a wake-up of the flush thread, or a change of the
-- shared objects by other sessions.
--
-- `flushLoop` and `handleEnd` send behind the block that `state_mutex_` guards. The model takes each with
-- its sends as one step, so it has no state in which a partial message waits while the other thread goes
-- on: the order of the last partial message and the final one is not stated. An exception that ends the
-- loop of `run` leaves the stream as it is, and `Steps` lets such a session read on, which is more than
-- the code does. The signal handler waits from the start of the accept loop's model; `main` starts the
-- thread of `ioc` before it, and what an `io_context` without work does is Boost.Asio's. The limiter's
-- condition variable is a test that a sleeper makes at any time: notifications are left out, and with
-- them the question whether a sleeper is woken.
--
-- Not modelled: TLS and the sockets themselves, the two lines of text that `main` prints as its title,
-- and the socket timeout that `run` sets, whose effect on a read is Boost.Asio's: a read that times out
-- is one that fails. `shutdown` of a session cancels the read, which then fails. `isReady` is left out,
-- as it is true of every engine that the constructor returns. The sessions of `World` are given
-- their identifiers.
pub mod Prelude
pub mod HallucinationGuard
pub mod ConnectionLimiter
pub mod InferenceLimiter
pub mod ModelCache
pub mod Float
pub mod AudioPreprocessor
pub mod Engine
pub mod Log
pub mod Auth
pub mod Session
pub mod Server
