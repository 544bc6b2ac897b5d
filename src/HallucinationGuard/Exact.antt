-- ===== src/HallucinationGuard/Exact.antt =====
-- `is_hallucination` decides its documented criterion.
use transcription_api.Prelude.{
  Text, ℕ, ◌+◌, ◌<◌, ◌≡◌, refl, ◌≢◌, ◌↔◌, ◌⊎◌, inl, inr, Bool, true, false, ◌||◌, List, [], ◌∷◌,
  arith, length, All,
}
use transcription_api.Prelude.Dict.{Dict, lookup, insert}
use transcription_api.HallucinationGuard.{counted, scan, words, is_hallucination}
use transcription_api.HallucinationGuard.Words.{IsWord, words-IsWord}
use transcription_api.HallucinationGuard.Runs.{HasRun, run_from, run_from_iff}
use transcription_api.HallucinationGuard.Bigrams.{bigram_from, HasBigram, key, bigram_from_iff}

-- `scan` stops at whichever of the two criteria is met.
scan-or :
    (prev : Text) (n : ℕ) (d : Dict ℕ) (ws : List Text)
    → prev ≢ []
    → All IsWord ws
    → scan prev n d ws ≡ (run_from prev n ws || bigram_from prev d ws)
unfolding scan run_from bigram_from
scan-or prev n d [] hp hw = refl
scan-or [] n d (c ∷ rest) hp hw = absurd (hp refl)
scan-or (x ∷ prev) n d (c ∷ rest) hp hw =
    ground
      (arith, scan-or c (n + 1) (seen c) rest hw.0.0 hw.1, scan-or c 1 (seen c) rest hw.0.0 hw.1)
  where
    seen : Text → Dict ℕ
    seen c = insert (key (x ∷ prev) c) (counted (lookup (key (x ∷ prev) c) d) + 1) d

or_iff {ℓ κ} :
    {P : Type ℓ} {Q : Type κ} (x y : Bool)
    → (x ≡ true) ↔ P
    → (y ≡ true) ↔ Q
    → ((x || y) ≡ true) ↔ (P ⊎ Q)
or_iff true y p q = ((λ e. inl (p.0 refl)), (λ h. refl))
or_iff false y p q = ((λ e. inr (q.0 e)), λ h. elim h [ inl l ↦ none_left (p.1 l) | inr r ↦ q.1 r ])
  where
    none_left : false ≡ true → y ≡ true
    none_left e = cc

-- The first word only starts the two searches.
scan-first :
    (w : Text) (ws : List Text)
    → IsWord w
    → All IsWord ws
    → scan [] 0 [] (w ∷ ws) ≡ (run_from w 1 ws || bigram_from w [] ws)
unfolding scan
scan-first [] ws hw hws = absurd (hw.0 refl)
scan-first (x ∷ w) ws hw hws = ground (arith, scan-or (x ∷ w) 1 [] ws hw.0 hws)

words_iff : (ws : List Text) → All IsWord ws → (scan [] 0 [] ws ≡ true) ↔ (HasRun ws ⊎ HasBigram ws)
unfolding scan
words_iff [] hw = (
  (λ e. cc),
  (λ h. elim h [ inl none_run ↦ absurd none_run | inr (a, b, many) ↦ absurd (omega arith) ]),
)
words_iff (w ∷ ws) hw =
    rw (scan-first w ws hw.0 hw.1)
      (or_iff _ _ (run_from_iff w 1 2 ws refl (omega arith)) (bigram_from_iff w ws hw.0.1 hw.1))

-- The filter fires exactly on texts of more than 500 bytes, on those in which some word stands four
-- times in a row, and on those in which some pair of words stands side by side four times.
pub is_hallucination_iff :
    (text : Text)
    → (is_hallucination text ≡ true)
      ↔ ((500 < length text) ⊎ HasRun (words text) ⊎ HasBigram (words text))
unfolding is_hallucination
is_hallucination_iff text = let listed = words_iff (words text) (words-IsWord text) in ground arith
