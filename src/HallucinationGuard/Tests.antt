-- ===== src/HallucinationGuard/Tests.antt =====
-- Runs of `is_hallucination` on the inputs of tests/unit/test_hallucination_guard.cpp.
use transcription_api.Prelude.{codes, Text_discrete, ◌<◌, ◌≡◌, refl, ◌↔◌, ◌⊎◌, true, false}
use transcription_api.HallucinationGuard.{is_hallucination, words}
use transcription_api.HallucinationGuard.Runs.{HasRun}
use transcription_api.HallucinationGuard.Bigrams.{HasBigram}
use transcription_api.HallucinationGuard.Exact.{is_hallucination_iff}

four_words : is_hallucination (codes "hola hola hola hola") ≡ true
unfolding is_hallucination Text_discrete
four_words = refl

three_words : is_hallucination (codes "hola hola hola mundo") ≡ false
unfolding is_hallucination Text_discrete
three_words = refl

four_bigrams : is_hallucination (codes "la verdad la verdad la verdad la verdad") ≡ true
unfolding is_hallucination Text_discrete
four_bigrams = refl

three_bigrams : is_hallucination (codes "la verdad la verdad la verdad") ≡ false
unfolding is_hallucination Text_discrete
three_bigrams = refl

is_hallucination_iff_example : (is_hallucination (codes "hola hola hola hola") ≡ true) ↔ (
    (500 < 19)
    ⊎ HasRun (words (codes "hola hola hola hola"))
    ⊎ HasBigram (words (codes "hola hola hola hola")))
is_hallucination_iff_example = is_hallucination_iff (codes "hola hola hola hola")
