-- ===== src/Engine/Convert.antt =====
-- src/whisper/StreamingWhisperEngine.cpp: `convertInt16ToFloat32` and `convertBytesToFloat32`, on a
-- little-endian machine.
use transcription_api.Prelude.{
  ℤ, pos, negsuc, ℕ, ◌+◌, ◌-◌, ◌*◌, ◌/◌, ◌%◌, ◌<◌, ◌≡◌, refl, Option, none, some, List, [], ◌∷◌,
  map, arith, ltb, ◌==◌, if◌then◌else◌, length, All,
}
use transcription_api.Float.{FloatOps}

-- The int16_t of two bytes, the low one first.
unfoldable pub int16_of : ℕ → ℕ → ℤ
int16_of lo hi = let v = lo + 256 * hi in if ltb v 32768 then pos v else negsuc (65535 - v)

unfoldable pub int16s_of : List ℕ → List ℤ
int16s_of [] = []
int16s_of (lo ∷ []) = []
int16s_of (lo ∷ hi ∷ rest) = int16_of lo hi ∷ int16s_of rest

module _ {F : Type 0} ⦃fl : FloatOps F⦄ where
  unfoldable pub convert_int16_to_float32 : List ℤ → List F
  convert_int16_to_float32 = map (λ x. fl.quot (fl.of_int x) (fl.literal 32768 1))

  -- `none`: the vector has room for whole samples only, and `memcpy` writes an odd last byte behind it.
  unfoldable pub convert_bytes_to_float32 : List ℕ → Option (List F)
  unfolding convert_int16_to_float32 int16s_of
  convert_bytes_to_float32 bytes =
      if length bytes % 2 == 0 then some (convert_int16_to_float32 (int16s_of bytes)) else none

-- The two bytes of an int16_t.
abbrev pub low_byte : ℤ → ℕ
low_byte (pos n) = n % 256
low_byte (negsuc n) = (65535 - n) % 256

abbrev pub high_byte : ℤ → ℕ
high_byte (pos n) = n / 256
high_byte (negsuc n) = (65535 - n) / 256

abbrev pub bytes_of : List ℤ → List ℕ
bytes_of [] = []
bytes_of (x ∷ xs) = low_byte x ∷ high_byte x ∷ bytes_of xs

-- From -32768 to 32767.
abbrev pub IsInt16 : ℤ → Type 0
IsInt16 (pos n) = n < 32768
IsInt16 (negsuc n) = n < 32768

int16_of-bytes : (x : ℤ) → IsInt16 x → int16_of (low_byte x) (high_byte x) ≡ x
unfolding int16_of
int16_of-bytes (pos n) h = ground arith
int16_of-bytes (negsuc n) h = ground arith

int16s_of-bytes_of : (xs : List ℤ) → All IsInt16 xs → int16s_of (bytes_of xs) ≡ xs
unfolding int16s_of
int16s_of-bytes_of [] h = refl
int16s_of-bytes_of (x ∷ xs) h = cc (int16_of-bytes x h.0, int16s_of-bytes_of xs h.1)

length-bytes_of : (xs : List ℤ) → length (bytes_of xs) ≡ 2 * length xs
length-bytes_of [] = refl
length-bytes_of (x ∷ xs) = omega (arith, length-bytes_of xs)

module _ {F : Type 0} ⦃fl : FloatOps F⦄ where
  -- The bytes of int16 samples are read back as those samples.
  pub convert_bytes_roundtrip :
      (xs : List ℤ)
      → All IsInt16 xs
      → convert_bytes_to_float32 {F = F} (bytes_of xs) ≡ some (convert_int16_to_float32 xs)
  unfolding convert_bytes_to_float32
  convert_bytes_roundtrip xs h = ground (arith, length-bytes_of xs, int16s_of-bytes_of xs h)

  -- An odd number of bytes overruns the buffer.
  pub convert_bytes_odd :
      (bytes : List ℕ) → length bytes % 2 ≡ 1 → convert_bytes_to_float32 {F = F} bytes ≡ none
  unfolding convert_bytes_to_float32
  convert_bytes_odd bytes h = ground arith
