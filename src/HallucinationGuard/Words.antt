-- ===== src/HallucinationGuard/Words.antt =====
-- What `ss >> cur` yields: words that are not empty and hold no white space.
use transcription_api.Prelude.{
  Text, ◌≡◌, ◌≢◌, inl, inr, false, List, [], ◌∷◌, ◌++◌, arith, Bool-cases, All,
}
use transcription_api.HallucinationGuard.{is_space, flush, words_from, words}

abbrev pub HasNoSpace : Text → Type 0
HasNoSpace = All λ c. is_space c ≡ false

abbrev pub IsWord : Text → Type 0
IsWord w = (w ≢ []) × HasNoSpace w

HasNoSpace-append : (v w : Text) → HasNoSpace v → HasNoSpace w → HasNoSpace (v ++ w)
HasNoSpace-append [] w hv hw = hw
HasNoSpace-append (c ∷ v) w hv hw = (hv.0, HasNoSpace-append v w hv.1 hw)

flush-IsWord : (w : Text) (ws : List Text) → HasNoSpace w → All IsWord ws → All IsWord (flush w ws)
flush-IsWord [] ws hw h = h
flush-IsWord (c ∷ w) ws hw h = (((λ e. cc), hw), h)

words_from-IsWord : (w s : Text) → HasNoSpace w → All IsWord (words_from w s)
unfolding words_from
words_from-IsWord w [] h = flush-IsWord w [] h tt
words_from-IsWord w (c ∷ s) h = elim (Bool-cases (is_space c)) [
  | inl space ↦ rw (space, words_from) (flush-IsWord w _ h (words_from-IsWord [] s tt))
  | inr letter ↦
      rw (letter, words_from)
        (words_from-IsWord (w ++ c ∷ []) s (HasNoSpace-append w (c ∷ []) h (letter, tt)))
]

pub words-IsWord : (s : Text) → All IsWord (words s)
unfolding words
words-IsWord s = words_from-IsWord [] s tt

-- A bigram's key tells its two words: the first blank ends the first word.
pub key-injective :
    (a b c d : Text)
    → HasNoSpace a
    → HasNoSpace c
    → a ++ 0x20 ∷ b ≡ c ++ 0x20 ∷ d
    → (a ≡ c) × (b ≡ d)
unfolding is_space
key-injective [] b [] d ha hc e = ground arith
key-injective [] b (x ∷ c) d ha hc e = ground arith
key-injective (x ∷ a) b [] d ha hc e = ground arith
key-injective (x ∷ a) b (y ∷ c) d ha hc e = ground (arith, key-injective a b c d ha.1 hc.1)
