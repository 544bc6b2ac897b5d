-- ===== src/Session/Identifier.antt =====
-- src/server/StreamingSession.h: the identifier of a session.
mod Tests
use transcription_api.Prelude.{
  Text, codes, ℕ, zero, suc, ◌+◌, ◌/◌, ◌%◌, ◌≡◌, refl, sym, ap, ◌∙◌, inl, inr, Bool, true, ◌&&◌, [],
  ◌∷◌, ◌++◌, append_assoc, arith, ltb, Bool-cases, drop,
}
use transcription_api.Server.Numbers.{to_string, show_digits, read_digits, is_digit}
use transcription_api.Server.Http.Lines.{read_digits-to_string}

-- The clock in milliseconds, and the random number, which is from 1000 to 9999.
unfoldable pub generate_session_id : ℕ → ℕ → Text
generate_session_id timestamp dis =
    codes "session-" ++ to_string timestamp ++ codes "-" ++ to_string dis

abbrev all_digits : Text → Bool
all_digits [] = true
all_digits (c ∷ s) = is_digit c && all_digits s

all_digits-show_digits :
    (fuel n : ℕ) (s : Text) → all_digits s ≡ true → all_digits (show_digits fuel n s) ≡ true
unfolding show_digits
all_digits-show_digits zero n s h = h
all_digits-show_digits (suc fuel) n s h =
    let more = all_digits-show_digits fuel (n / 10) ((b'0' + n % 10) ∷ s) in
    elim (Bool-cases (ltb n 10)) [
      | inl small ↦ ground (arith, h)
      | inr large ↦ ground (arith, h, more)
    ]

all_digits-to_string : (n : ℕ) → all_digits (to_string n) ≡ true
unfolding to_string
all_digits-to_string n = all_digits-show_digits (n + 1) n [] refl

-- Digits end at the first other byte.
digits_end :
    (a b a' b' : Text)
    → all_digits a ≡ true
    → all_digits a' ≡ true
    → a ++ b'-' ∷ b ≡ a' ++ b'-' ∷ b'
    → (a ≡ a') × (b ≡ b')
digits_end [] b [] b' h h' e = (refl, cc)
digits_end [] b (c ∷ a') b' h h' e = absurd (ground (arith, e))
digits_end (c ∷ a) b [] b' h h' e = absurd (ground (arith, e))
digits_end (c ∷ a) b (c' ∷ a') b' h h' e =
    let (same, rest) = digits_end a b a' b' (ground arith) (ground arith) cc in (cc, rest)

to_string-injective : (m n : ℕ) → to_string m ≡ to_string n → m ≡ n
to_string-injective m n e =
    sym (read_digits-to_string m) ∙ ap (read_digits 0) e ∙ read_digits-to_string n

-- Two sessions that get the same identifier were made in the same millisecond, with the same random
-- number.
pub generate_session_id-injective :
    (timestamp dis timestamp' dis' : ℕ)
    → generate_session_id timestamp dis ≡ generate_session_id timestamp' dis'
    → (timestamp ≡ timestamp') × (dis ≡ dis')
unfolding generate_session_id
generate_session_id-injective timestamp dis timestamp' dis' e =
    let (t, d) =
      digits_end (to_string timestamp) (to_string dis) (to_string timestamp') (to_string dis')
        (all_digits-to_string timestamp) (all_digits-to_string timestamp')
        (sym (append_assoc (to_string timestamp) (codes "-") (to_string dis))
          ∙ ap (drop 8) e
          ∙ append_assoc (to_string timestamp') (codes "-") (to_string dis')) in
    (to_string-injective timestamp timestamp' t, to_string-injective dis dis' d)
