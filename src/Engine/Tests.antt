-- ===== src/Engine/Tests.antt =====
-- Runs of the engine over numbers in place of floats, and the buffer's theorems at them.
use transcription_api.Prelude.{
  Text, codes, ℤ, pos, negsuc, pos_part, ltb_ℤ, ℕ, zero, suc, ◌-◌, ◌*◌, ◌/◌, ◌≤◌, ◌<◌, ◌≡◌, refl,
  true, false, none, some, List, [], ◌∷◌, ◌++◌, arith, length, get_elem?, take, drop, replicate,
  length-replicate,
}
use transcription_api.Float.{coarse}
use transcription_api.AudioPreprocessor.{FilterState}
use transcription_api.Engine.{Engine, Decoder, TranscribeResult, max_buffer_samples, slide}
use transcription_api.Engine.Segments.{Segment, texts}
use transcription_api.Engine.Stream.{Call, chunk, decoded, cut, calls, all_taken, buffer_is_queue}
use transcription_api.Engine.Window.{slide_keeps_overlap, slide_forced, slide_without_boundary}
use transcription_api.Engine.Convert.{
  convert_bytes_to_float32, convert_int16_to_float32, convert_bytes_roundtrip, bytes_of,
}

abbrev at_rest : FilterState ℕ
at_rest = record { prev_raw = 0; prev_filtered = 0 }

abbrev waiting : Engine ℕ
waiting = record {
  ctx = some 7;
  audio_buffer = 3 ∷ 1 ∷ 4 ∷ [];
  language = codes "auto";
  initial_prompt = [];
  n_threads = pos 4;
  beam_size = pos 5;
  vad_thold = 0;
  temperature = 0;
  temperature_inc = 0;
  no_speech_thold = 0;
  logprob_thold = 0;
  high_pass = at_rest;
}

abbrev said : Text → ℤ → Segment
said t t1 = record { text = some t; t1 = t1 }

some_inj : {A : Type 0} {a b : A} → some a ≡ some b → a ≡ b
some_inj h = cc

abbrev two_segments : List Segment
two_segments = said (codes " hola") (pos 500) ∷ said (codes " mundo") (pos 1000) ∷ []

-- Ten seconds and a bit.
abbrev long_buffer : List ℕ
long_buffer = replicate 160100 1

abbrev hears : Decoder ℕ
hears params buffer = record {
  result = pos 0;
  detected = some (codes "es");
  segments = two_segments;
}

abbrev breaks : Decoder ℕ
breaks params buffer = record { result = pos 1; detected = none; segments = [] }

length-long : length long_buffer ≡ 160100
length-long = length-replicate {A = ℕ} 160100 1

-- The bound is at 8 s, so the segment that ends at 5 s is the last one before it.
early_first : (m : ℕ) → m ≡ 160100 → ltb_ℤ (pos 500) (pos ((m - 32000) / 160)) ≡ true
early_first m e = rw e refl

late_second :
    (m j : ℕ) (u : Segment)
    → m ≡ 160100
    → 0 < j
    → get_elem? two_segments j ≡ some u
    → ltb_ℤ u.t1 (pos ((m - 32000) / 160)) ≡ false
late_second m zero u e lt at = absurd (omega arith)
late_second m (suc zero) u e lt at = rw e (rw (← some_inj at) refl)
late_second m (suc (suc j)) u e lt at = cc

slide_keeps_overlap_example :
    let (res, rest) = slide false two_segments long_buffer in
    (res.committed_text ≡ texts (take 1 two_segments))
    × (32000 ≤ length rest)
    × (rest ≡ drop (500 * 160) long_buffer)
slide_keeps_overlap_example =
    slide_keeps_overlap two_segments long_buffer 0 (said (codes " hola") (pos 500))
      (omega (arith, length-long)) refl (early_first (length long_buffer) length-long)
      (λ j u. late_second (length long_buffer) j u length-long)

-- Two segments that both end in the last two seconds.
abbrev late_segments : List Segment
late_segments = said (codes " hola") (pos 900) ∷ said (codes " mundo") (pos 1000) ∷ []

late_both :
    (m j : ℕ) (u : Segment)
    → m ≡ 160100
    → get_elem? late_segments j ≡ some u
    → ltb_ℤ u.t1 (pos ((m - 32000) / 160)) ≡ false
late_both m zero u e at = rw e (rw (← some_inj at) refl)
late_both m (suc zero) u e at = rw e (rw (← some_inj at) refl)
late_both m (suc (suc j)) u e at = cc

slide_without_boundary_example :
    let (res, rest) = slide false late_segments long_buffer in
    (length late_segments ≤ 1
      → (res.committed_text ≡ []) × (res.partial_text ≡ texts late_segments) × (rest ≡ long_buffer))
    × ((s : Segment)
        → 1 < length late_segments
        → get_elem? late_segments (length late_segments - 2) ≡ some s
        → (res.committed_text ≡ texts (take (length late_segments - 1) late_segments))
          × (res.partial_text ≡ texts (drop (length late_segments - 1) late_segments))
          × (rest ≡ drop (pos_part s.t1 * 160) long_buffer))
slide_without_boundary_example =
    slide_without_boundary late_segments long_buffer (omega (arith, length-long))
      (λ j u. late_both (length long_buffer) j u length-long)

slide_forced_example :
    let (res, rest) = slide {F = ℕ} true two_segments (3 ∷ 1 ∷ []) in
    (res.committed_text ≡ texts two_segments)
    × (res.partial_text ≡ [])
    × (0 < length two_segments → rest ≡ [])
    × (length two_segments ≡ 0 → rest ≡ 3 ∷ 1 ∷ [])
slide_forced_example = slide_forced two_segments (3 ∷ 1 ∷ [])

abbrev heard : TranscribeResult
heard = record { partial_text = []; committed_text = codes " hola mundo" }

convert_bytes_roundtrip_example :
    convert_bytes_to_float32 {F = ℕ} (bytes_of (pos 258 ∷ negsuc 1 ∷ []))
    ≡ some (convert_int16_to_float32 (pos 258 ∷ negsuc 1 ∷ []))
convert_bytes_roundtrip_example =
    convert_bytes_roundtrip (pos 258 ∷ negsuc 1 ∷ []) (omega arith, (omega arith, tt))

-- A chunk, a decode that throws, a reset that keeps two samples, and another chunk.
abbrev stream : List (Call ℕ)
stream = chunk (5 ∷ 6 ∷ []) ∷ decoded breaks false ∷ cut 2 ∷ chunk (7 ∷ []) ∷ []

buffer_is_queue_example :
    (n : ℕ) × (n ≤ length (waiting.audio_buffer ++ all_taken waiting stream))
    × ((calls waiting stream).audio_buffer
        ≡ drop n (waiting.audio_buffer ++ all_taken waiting stream))
    × (length (calls waiting stream).audio_buffer ≤ max_buffer_samples)
buffer_is_queue_example = buffer_is_queue waiting stream (omega arith)
