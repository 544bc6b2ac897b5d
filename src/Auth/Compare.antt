-- ===== src/Auth/Compare.antt =====
-- src/server/AuthManager.cpp: `constantTimeEqual`.
use Prim.Native.Nat.{bit_or, bit_xor}
use transcription_api.Prelude.{
  Text, ℕ, zero, suc, ◌<◌, ◌≡◌, refl, ap, ◌↔◌, inl, inr, Bool, true, false, not, ◌&&◌, [], ◌∷◌,
  arith, ltb, ◌==◌, if◌then◌else◌, Bool-cases, length, All,
}

-- The loop over the indices of two strings of one length; `diff` only gathers bits.
unfoldable pub diff_loop : ℕ → Text → Text → ℕ
diff_loop diff [] b = diff
diff_loop diff (x ∷ a) [] = diff
diff_loop diff (x ∷ a) (y ∷ b) = diff_loop (bit_or diff (bit_xor x y)) a b

unfoldable pub constant_time_equal : Text → Text → Bool
unfolding diff_loop
constant_time_equal a b = if not (length a == length b) then false else diff_loop 0 a b == 0

-- A test of all numbers up to a bound, the largest last.
holds_to : (ℕ → Bool) → ℕ → Bool
holds_to test zero = true
holds_to test (suc top) = holds_to test top && test top

holds_to_sound : (test : ℕ → Bool) (c top : ℕ) → c < top → holds_to test top ≡ true → test c ≡ true
unfolding holds_to
holds_to_sound test c (suc top) lt h = ground (arith, holds_to_sound test c top)
holds_to_sound test c zero lt h = absurd (omega arith)

-- Every pair of bytes: `^` is 0 on equal bytes only, and `|` on zeros only; both give bytes.
abbrev byte_facts : ℕ → ℕ → Bool
byte_facts x y =
    (if x == y then bit_xor x y == 0 else ltb 0 (bit_xor x y))
    && (if x == 0 then bit_or x y == y else ltb 0 (bit_or x y))
    && ltb (bit_xor x y) 256
    && ltb (bit_or x y) 256

byte_table : holds_to (λ x. holds_to (byte_facts x) 256) 256 ≡ true
unfolding holds_to
byte_table = refl

byte_facts_hold : (x y : ℕ) → x < 256 → y < 256 → byte_facts x y ≡ true
byte_facts_hold x y hx hy =
    let row = holds_to_sound (λ z. holds_to (byte_facts z) 256) x 256 hx byte_table in
    holds_to_sound (byte_facts x) y 256 hy row

abbrev pub IsBytes : Text → Type 0
IsBytes = All λ c. c < 256

diff_loop-zero :
    (diff : ℕ) (a b : Text)
    → diff < 256
    → IsBytes a
    → IsBytes b
    → length a ≡ length b
    → ((diff_loop diff a b ≡ 0) ↔ ((diff ≡ 0) × (a ≡ b)))
unfolding diff_loop
diff_loop-zero diff [] [] hd ha hb e = ((λ z. (z, refl)), λ z. z.0)
diff_loop-zero diff [] (y ∷ b) hd ha hb e = absurd (omega arith)
diff_loop-zero diff (x ∷ a) [] hd ha hb e = absurd (omega arith)
diff_loop-zero diff (x ∷ a) (y ∷ b) hd ha hb e = ground (
  arith,
  byte_facts_hold x y ha.0 hb.0,
  byte_facts_hold diff (bit_xor x y) hd,
  diff_loop-zero (bit_or diff (bit_xor x y)) a b,
)

-- The comparison that looks at every byte decides equality of the two strings.
pub constant_time_equal_iff :
    (a b : Text) → IsBytes a → IsBytes b → ((constant_time_equal a b ≡ true) ↔ (a ≡ b))
unfolding constant_time_equal
constant_time_equal_iff a b ha hb = elim (Bool-cases (length a == length b)) [
  | inl same ↦ ground (arith, diff_loop-zero 0 a b (omega arith) ha hb)
  | inr other ↦ ground (arith, lengths_differ)
]
  where
    lengths_differ : a ≡ b → length a ≡ length b
    lengths_differ e = ap length e
