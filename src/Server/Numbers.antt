-- ===== src/Server/Numbers.antt =====
-- What src/server.cpp uses of the C++ library's numbers: `std::stoi`, `std::stoul` on a 64-bit machine,
-- and `std::to_string`. `none` is an exception.
use transcription_api.Prelude.{
  Text, ℤ, pos, negsuc, ℕ, zero, suc, ◌+◌, ◌-◌, ◌*◌, ◌/◌, ◌%◌, ◌^◌, Bool, true, false, ◌&&◌, Option,
  none, some, [], ◌∷◌, ltb, leb, ◌==◌, if◌then◌else◌,
}
use transcription_api.HallucinationGuard.{is_space}

unfoldable pub skip_spaces : Text → Text
unfolding is_space
skip_spaces [] = []
skip_spaces (c ∷ s) = let rest = skip_spaces s in if is_space c then rest else c ∷ s

abbrev pub is_digit : ℕ → Bool
is_digit c = leb b'0' c && leb c b'9'

-- The digits up to the first other byte, behind those that make up `acc`.
unfoldable pub read_digits : ℕ → Text → ℕ
read_digits acc [] = acc
read_digits acc (c ∷ s) =
    let more = read_digits (acc * 10 + (c - b'0')) s in if is_digit c then more else acc

abbrev pub starts_digit : Text → Bool
starts_digit [] = false
starts_digit (c ∷ s) = is_digit c

-- A minus sign or not, and what follows the sign.
unfoldable pub read_sign : Text → Bool × Text
read_sign [] = (false, [])
read_sign (c ∷ s) =
    if c == b'-' then (true, s) else if c == b'+' then (false, s) else (false, c ∷ s)

-- The number at the start of a text, with its sign; what follows is ignored.
unfoldable pub read_number : Text → Option (Bool × ℕ)
unfolding skip_spaces read_sign read_digits
read_number t =
    let (minus, s) = read_sign (skip_spaces t) in
    if starts_digit s then some (minus, read_digits 0 s) else none

abbrev pub int_of : Bool → ℕ → ℤ
int_of true zero = pos 0
int_of true (suc n) = negsuc n
int_of false n = pos n

unfoldable pub stoi : Text → Option ℤ
unfolding read_number
stoi t = elim (read_number t) [
  | none ↦ none
  | some (minus, n) ↦
      if leb n (if minus then 2 ^ 31 else 2 ^ 31 - 1) then some (int_of minus n) else none
]

-- A number with a minus sign wraps around.
unfoldable pub stoul : Text → Option ℕ
unfolding read_number
stoul t = elim (read_number t) [
  | none ↦ none
  | some (minus, n) ↦
      if ltb n (2 ^ 64) then some (if minus then (2 ^ 64 - n) % 2 ^ 64 else n) else none
]

-- The digits of n in front of `s`, for fuel above n.
unfoldable pub show_digits : ℕ → ℕ → Text → Text
show_digits zero n s = s
show_digits (suc fuel) n s =
    let rest = show_digits fuel (n / 10) ((b'0' + n % 10) ∷ s) in
    if ltb n 10 then (b'0' + n) ∷ s else rest

unfoldable pub to_string : ℕ → Text
unfolding show_digits
to_string n = show_digits (n + 1) n []

unfoldable pub to_string_ℤ : ℤ → Text
to_string_ℤ (pos n) = to_string n
to_string_ℤ (negsuc n) = b'-' ∷ to_string (n + 1)
