-- ===== src/HallucinationGuard.antt =====
-- src/utils/HallucinationGuard.h: the filter against decoder loops. A text is a list of bytes;
-- `words` is what `std::istringstream >> std::string` reads in the "C" locale.
pub mod Words
pub mod Runs
pub mod Bigrams
pub mod Exact
mod Tests
use transcription_api.Prelude.{
  Text, text_eq, is_empty, ℕ, ◌+◌, Bool, true, false, not, ◌&&◌, ◌||◌, Option, none, some, List, [],
  ◌∷◌, ◌++◌, ltb, leb, ◌==◌, if◌then◌else◌, length,
}
use transcription_api.Prelude.Dict.{Dict, lookup, insert}

-- `isspace`: blank, \t \n \v \f \r.
unfoldable pub is_space : ℕ → Bool
is_space c = c == 0x20 || (leb 9 c && leb c 13)

-- The word under way comes first, and is dropped if it is empty.
abbrev pub flush : Text → List Text → List Text
flush [] ws = ws
flush (c ∷ w) ws = (c ∷ w) ∷ ws

unfoldable pub words_from : Text → Text → List Text
unfolding is_space
words_from w [] = flush w []
words_from w (c ∷ s) = elim (is_space c) [
  | true ↦ flush w (words_from [] s)
  | false ↦ words_from (w ++ c ∷ []) s
]

-- The values that `ss >> cur` takes in turn.
unfoldable pub words : Text → List Text
unfolding words_from
words s = words_from [] s

-- `bigrams[key]`, where a missing key reads as 0.
abbrev pub counted : Option ℕ → ℕ
counted none = 0
counted (some n) = n

-- The body of `while (ss >> cur)`, on the words still to come.
unfoldable pub scan : Text → ℕ → Dict ℕ → List Text → Bool
scan prev consec bigrams [] = false
scan prev consec bigrams (cur ∷ rest) =
    let run = if text_eq cur prev then consec + 1 else 1 in
    let key = prev ++ 0x20 ∷ cur in
    let seen = counted (lookup key bigrams) + 1 in
    let later = scan cur run (if is_empty prev then bigrams else insert key seen bigrams) rest in
    if text_eq cur prev && leb 4 run
    then true
    else if not (is_empty prev) && leb 4 seen
    then true
    else later

unfoldable pub is_hallucination : Text → Bool
unfolding scan words
is_hallucination text = if ltb 500 (length text) then true else scan [] 0 [] (words text)
