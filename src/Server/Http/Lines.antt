-- ===== src/Server/Http/Lines.antt =====
-- Texts of several lines, and numbers on a line.
use transcription_api.Prelude.{
  Text, ℕ, zero, suc, ◌+◌, ◌/◌, ◌%◌, ◌<◌, ◌≡◌, refl, ap, ◌∙◌, inl, inr, Bool, true, not, ◌&&◌, List,
  [], ◌∷◌, ◌++◌, append_assoc, append-nil, arith, ltb, ◌==◌, Bool-cases, All,
}
use transcription_api.Server.DotEnv.{lines_from}
use transcription_api.Server.Numbers.{to_string, show_digits, read_digits}

-- No byte ends a line.
abbrev pub is_line : Text → Bool
is_line [] = true
is_line (c ∷ s) = not (c == 10) && is_line s

pub lines_from-line :
    (l s rest : Text)
    → is_line s ≡ true
    → lines_from l (s ++ 10 ∷ rest) ≡ (l ++ s) ∷ lines_from [] rest
unfolding lines_from
lines_from-line l [] rest h = rw (append-nil l) refl
lines_from-line l (c ∷ s) rest h =
    let same = lines_from-line (l ++ c ∷ []) s rest in
    let moved = append_assoc l (c ∷ []) s in ground (arith, same, moved)

pub is_line-append : (a b : Text) → is_line a ≡ true → is_line b ≡ true → is_line (a ++ b) ≡ true
is_line-append [] b ha hb = hb
is_line-append (c ∷ a) b ha hb = ground (arith, is_line-append a b)

pub is_line-show_digits :
    (fuel n : ℕ) (s : Text) → is_line s ≡ true → is_line (show_digits fuel n s) ≡ true
unfolding show_digits
is_line-show_digits zero n s h = h
is_line-show_digits (suc fuel) n s h =
    let more = is_line-show_digits fuel (n / 10) ((b'0' + n % 10) ∷ s) in
    elim (Bool-cases (ltb n 10)) [
      | inl small ↦ ground (arith, h)
      | inr large ↦ ground (arith, h, more)
    ]

-- The digits of a number are read back as the number.
pub read_digits-show_digits :
    (fuel n : ℕ) (s : Text) → n < fuel → read_digits 0 (show_digits fuel n s) ≡ read_digits n s
unfolding show_digits read_digits
read_digits-show_digits zero n s h = omega (arith, h)
read_digits-show_digits (suc fuel) n s h = elim (Bool-cases (ltb n 10)) [
  | inl small ↦ ground (arith, h)
  | inr large ↦ ground (arith, h, read_digits-show_digits fuel (n / 10) ((b'0' + n % 10) ∷ s))
]

pub read_digits-to_string : (n : ℕ) → read_digits 0 (to_string n) ≡ n
unfolding to_string read_digits
read_digits-to_string n = read_digits-show_digits (n + 1) n [] (omega arith)

abbrev pub unlines : List Text → Text
unlines [] = []
unlines (l ∷ ls) = l ++ 10 ∷ unlines ls

pub lines_from-unlines :
    (ls : List Text) → All (λ l. is_line l ≡ true) ls → lines_from [] (unlines ls) ≡ ls
unfolding lines_from
lines_from-unlines [] h = refl
lines_from-unlines (l ∷ ls) (h, hs) =
    lines_from-line [] l (unlines ls) h ∙ ap (λ r. l ∷ r) (lines_from-unlines ls hs)
