-- ===== src/Engine.antt =====
-- src/whisper/StreamingWhisperEngine.{h,cpp}: the audio buffer of a session and the sliding window.
-- Samples are of a type F with `FloatOps F`. whisper.cpp is an argument: `Decoder` is what
-- `whisper_full_with_state` and the readers of its state give for one call. Each method runs under
-- `buffer_mutex_`.
pub mod Segments
pub mod Buffer
pub mod Stream
pub mod Boundary
pub mod Window
pub mod Transcribe
pub mod Convert
mod Tests
use transcription_api.Prelude.{
  Text, codes, is_empty, ℤ, pos, pos_part, ltb_ℤ, is_zero, ℕ, ◌+◌, ◌-◌, ◌*◌, Bool, true, false,
  ◌||◌, Option, none, some, List, [], ◌++◌, ltb, leb, ◌==◌, if◌then◌else◌, length, take, drop,
}
use transcription_api.InferenceLimiter.{InferenceLimiter, guarded}
use transcription_api.Float.{FloatOps}
use Segments.{Segment, texts, commit_point, locked_language}
use transcription_api.AudioPreprocessor.{FilterState, process}

pub record Engine (F : Type 0) : Type 0 where
  -- the shared context of whisper.cpp
  pub ctx : Option ℕ
  pub audio_buffer : List F
  pub language : Text
  pub initial_prompt : Text
  pub n_threads : ℤ
  pub beam_size : ℤ
  pub vad_thold : F
  pub temperature : F
  pub temperature_inc : F
  pub no_speech_thold : F
  pub logprob_thold : F
  -- `hp_prev_raw_` and `hp_prev_filtered_`
  pub high_pass : FilterState F

-- 30 s, 20 s and 10 s at 16 kHz.
abbrev pub max_buffer_samples : ℕ
max_buffer_samples = 16000 * 30

abbrev pub high_water_mark : ℕ
high_water_mark = 16000 * 20

abbrev pub max_window_samples : ℕ
max_window_samples = 16000 * 10

-- The parameters of a decode that the engine sets; the rest are whisper's defaults.
pub data Sampling : Type 0 where
  greedy beam_search : Sampling

pub record FullParams (F : Type 0) : Type 0 where
  pub strategy : Sampling
  pub language : Text
  pub n_threads : ℤ
  pub beam : Option ℤ
  pub temperature : F
  pub temperature_inc : F
  pub no_speech_thold : F
  pub logprob_thold : F
  pub audio_ctx : ℤ
  pub initial_prompt : Option Text

-- What a call leaves: the result code, `whisper_lang_str` of the detected language, the segments.
pub record Decoded : Type 0 where
  pub result : ℤ
  pub detected : Option Text
  pub segments : List Segment

abbrev pub Decoder : Type 0 → Type 0
Decoder F = FullParams F → List F → Decoded

pub record TranscribeResult : Type 0 where
  pub partial_text : Text
  pub committed_text : Text

-- A call that ends normally, or throws.
pub data Outcome {ℓ} (A : Type ℓ) : Type ℓ where
  returns : A → Outcome A
  throws : Text → Outcome A

module _ {F : Type 0} ⦃fl : FloatOps F⦄ where
  -- The members that the constructor sets.
  unfoldable pub initial_engine : Engine F
  initial_engine = record {
    ctx = none;
    audio_buffer = [];
    language = codes "es";
    initial_prompt = [];
    n_threads = pos 4;
    beam_size = pos 5;
    vad_thold = fl.literal 0 1;
    temperature = fl.literal 2 10;
    temperature_inc = fl.literal 2 10;
    no_speech_thold = fl.literal 3 10;
    logprob_thold = fl.sub (fl.literal 0 1) (fl.literal 1 1);
    high_pass = record { prev_raw = fl.literal 0 1; prev_filtered = fl.literal 0 1 };
  }

  -- The constructor, for a context and a state of whisper.cpp that may be null.
  unfoldable pub engine : Option ℕ → Option ℕ → Outcome (Engine F)
  engine none state = throws (codes "[StreamingWhisperEngine] Null whisper context")
  engine (some ctx) none = throws (codes "[StreamingWhisperEngine] Failed to create whisper state")
  engine (some ctx) (some state) = returns (record initial_engine { ctx = some ctx })

  -- What the buffer holds after a chunk went in below the high-water mark.
  unfoldable pub append_capped : List F → List F → List F
  append_capped buffer prepped =
      let new_total_size = length buffer + length prepped in
      if ltb max_buffer_samples new_total_size
      then if leb max_buffer_samples (length prepped)
        then drop (length prepped - max_buffer_samples) prepped
        else drop (new_total_size - max_buffer_samples) buffer ++ prepped
      else buffer ++ prepped

  -- True if the chunk was dropped.
  unfoldable pub process_audio_chunk : List F → Engine F → Bool × Engine F
  process_audio_chunk pcm e =
      if leb high_water_mark (length e.audio_buffer)
      then (true, e)
      else let (prepped, s) = process pcm e.high_pass in
        (false, record e { audio_buffer = append_capped e.audio_buffer prepped; high_pass = s })

  -- `max(ceil(size / 16000 * 50), 64)`
  unfoldable pub audio_ctx : Engine F → ℤ
  audio_ctx e =
      let ctx = fl.ceil_int (
        fl.mul (fl.quot (fl.of_int (pos (length e.audio_buffer))) (fl.literal 16000 1))
          (fl.literal 50 1)) in
      if ltb_ℤ ctx (pos 64) then pos 64 else ctx

  unfoldable pub full_params : Engine F → FullParams F
  unfolding audio_ctx
  full_params e =
      let wide = ltb_ℤ (pos 1) e.beam_size in
      record {
        strategy = if wide then beam_search else greedy;
        language = e.language;
        n_threads = e.n_threads;
        beam = if wide then some e.beam_size else none;
        temperature = e.temperature;
        temperature_inc = e.temperature_inc;
        no_speech_thold =
            if fl.less (fl.literal 0 1) e.vad_thold then e.vad_thold else e.no_speech_thold;
        logprob_thold = e.logprob_thold;
        audio_ctx = audio_ctx e;
        initial_prompt = if is_empty e.initial_prompt then none else some e.initial_prompt;
      }

  -- The buffer behind a commit.
  unfoldable pub erase_committed : Bool → ℤ → List F → List F
  erase_committed force t1 buffer =
      if ltb_ℤ (pos 0) t1
      then if ltb (pos_part t1 * 160) (length buffer) then drop (pos_part t1 * 160) buffer else []
      else if force
      then []
      else buffer

  -- The result and the buffer, from the segments of a successful decode.
  unfoldable pub slide : Bool → List Segment → List F → TranscribeResult × List F
  unfolding commit_point erase_committed texts
  slide force segments buffer =
      let partial : TranscribeResult × List F =
        (record { partial_text = texts segments; committed_text = [] }, buffer) in
      if force || leb max_window_samples (length buffer)
      then elim (commit_point force (length buffer) segments) [
        | none ↦ partial
        | some (i, t1) ↦ (
          record {
            partial_text = texts (drop (i + 1) segments);
            committed_text = texts (take (i + 1) segments);
          },
          erase_committed force t1 buffer,
        )
      ]
      else partial

  unfoldable pub transcribe_sliding_window :
      Decoder F → Bool → Engine F → Outcome (TranscribeResult × Engine F)
  unfolding full_params locked_language slide
  transcribe_sliding_window decode force e =
      let d = decode (full_params e) e.audio_buffer in
      let (res, buffer) = slide force d.segments e.audio_buffer in
      elim e.audio_buffer [
        | [] ↦ returns (record { partial_text = []; committed_text = [] }, e)
        | _ ↦
            if is_zero d.result
            then returns (
              res,
              record e { audio_buffer = buffer; language = locked_language e.language d.detected },
            )
            else throws (codes "Whisper transcription failed")
      ]

  -- `transcribe`; `none` while it waits for a slot.
  unfoldable pub transcribe :
      Decoder F
      → Engine F
      → InferenceLimiter
      → Option (Outcome (Text × Engine F) × InferenceLimiter)
  transcribe decode e = guarded (elim (transcribe_sliding_window decode true e) [
    | returns (res, e') ↦ returns (res.committed_text, e')
    | throws what ↦ throws what
  ])

  unfoldable pub reset : ℕ → Engine F → Engine F
  reset keep_samples e = record e {
    audio_buffer =
        if keep_samples == 0 || leb (length e.audio_buffer) keep_samples
        then []
        else drop (length e.audio_buffer - keep_samples) e.audio_buffer;
  }

  unfoldable pub get_buffer_size : Engine F → ℕ
  get_buffer_size e = length e.audio_buffer

  unfoldable pub set_language : Text → Engine F → Engine F
  set_language lang e = record e { language = lang }

  unfoldable pub set_threads : ℤ → Engine F → Engine F
  set_threads n e = if ltb_ℤ (pos 0) n then record e { n_threads = n } else e

  unfoldable pub set_beam_size : ℤ → Engine F → Engine F
  set_beam_size n e = if ltb_ℤ (pos 0) n then record e { beam_size = n } else e

  unfoldable pub set_initial_prompt : Text → Engine F → Engine F
  set_initial_prompt prompt e = record e { initial_prompt = prompt }

  unfoldable pub set_vad_threshold : F → Engine F → Engine F
  set_vad_threshold x e = record e { vad_thold = x }

  unfoldable pub set_temperature : F → Engine F → Engine F
  set_temperature x e = record e { temperature = x }

  unfoldable pub set_temperature_inc : F → Engine F → Engine F
  set_temperature_inc x e = record e { temperature_inc = x }

  unfoldable pub set_no_speech_threshold : F → Engine F → Engine F
  set_no_speech_threshold x e = record e { no_speech_thold = x }

  unfoldable pub set_logprob_threshold : F → Engine F → Engine F
  set_logprob_threshold x e = record e { logprob_thold = x }
