-- ===== src/HallucinationGuard/Bigrams.antt =====
-- Repeated bigrams: the dictionary of `scan` against the number of adjacent pairs.
use transcription_api.Prelude.{
  Text, text_eq, Text_discrete, ℕ, ◌+◌, ◌≤◌, ◌<◌, ◌≡◌, subst, ◌↔◌, inl, inr, Bool, true, false,
  ◌&&◌, ◌||◌, List, [], ◌∷◌, ◌++◌, arith, leb, if◌then◌else◌, leb→le, Bool-cases, All,
}
use transcription_api.Prelude.Dict.{Dict, lookup, insert, lookup-insert_self, lookup-insert_ne}
use transcription_api.HallucinationGuard.{counted}
use transcription_api.HallucinationGuard.Words.{IsWord, HasNoSpace, key-injective}

-- How often `a` then `b` stand side by side in `prev ∷ ws`.
abbrev pub pairs_after : Text → Text → Text → List Text → ℕ
pairs_after a b prev [] = 0
pairs_after a b prev (c ∷ ws) =
    (if text_eq prev a && text_eq c b then 1 else 0) + pairs_after a b c ws

abbrev pub pairs : Text → Text → List Text → ℕ
pairs a b [] = 0
pairs a b (w ∷ ws) = pairs_after a b w ws

-- Some pair of words stands side by side four times or more.
abbrev pub HasBigram : List Text → Type 0
HasBigram ws = (a : Text) × (b : Text) × (4 ≤ pairs a b ws)

abbrev pub key : Text → Text → Text
key a b = a ++ 0x20 ∷ b

-- The part of `scan` that counts bigrams, behind a first word.
unfoldable pub bigram_from : Text → Dict ℕ → List Text → Bool
bigram_from prev d [] = false
bigram_from prev d (c ∷ rest) =
    leb 4 (counted (lookup (key prev c) d) + 1)
    || bigram_from c (insert (key prev c) (counted (lookup (key prev c) d) + 1) d) rest

-- One round moves one occurrence of a pair from the words ahead into the dictionary.
counted-insert :
    (a b prev c : Text) (d : Dict ℕ)
    → HasNoSpace a
    → HasNoSpace prev
    → counted (lookup (key a b) (insert (key prev c) (counted (lookup (key prev c) d) + 1) d))
      ≡ counted (lookup (key a b) d) + (if text_eq prev a && text_eq c b then 1 else 0)
counted-insert a b prev c d ha hp = elim (Text_discrete (key prev c) (key a b)) [
  | yes e ↦ ground (
    arith,
    key-injective prev c a b hp ha e,
    lookup-insert_self (key prev c) (counted (lookup (key prev c) d) + 1) d,
  )
  | no e ↦
      ground
        (arith, lookup-insert_ne (key a b) (key prev c) (counted (lookup (key prev c) d) + 1) d)
]

bigram_from_sound :
    (prev : Text) (d : Dict ℕ) (ws : List Text)
    → HasNoSpace prev
    → All IsWord ws
    → bigram_from prev d ws ≡ true
    → (a : Text) × (b : Text) × HasNoSpace a
      × (4 ≤ counted (lookup (key a b) d) + pairs_after a b prev ws)
unfolding bigram_from
bigram_from_sound prev d [] hp hw h = ground arith
bigram_from_sound prev d (c ∷ rest) hp hw h =
    elim (Bool-cases (leb 4 (counted (lookup (key prev c) d) + 1))) [
      | inl now ↦ (prev, c, hp, ground (arith, leb→le _ _ now))
      | inr wait ↦
          let (a, b, ha, more) =
            bigram_from_sound c (insert (key prev c) (counted (lookup (key prev c) d) + 1) d) rest
              hw.0.1 hw.1 (ground arith) in
          (a, b, ha, omega (arith, counted-insert a b prev c d ha hp))
    ]

bigram_from_complete :
    (a b prev : Text) (d : Dict ℕ) (ws : List Text)
    → HasNoSpace a
    → HasNoSpace prev
    → All IsWord ws
    → counted (lookup (key a b) d) < 4
    → 4 ≤ counted (lookup (key a b) d) + pairs_after a b prev ws
    → bigram_from prev d ws ≡ true
unfolding bigram_from
bigram_from_complete a b prev d [] ha hp hw lt h = absurd (omega arith)
bigram_from_complete a b prev d (c ∷ rest) ha hp hw lt h = ground (
  arith,
  counted-insert a b prev c d ha hp,
  bigram_from_complete a b c (insert (key prev c) (counted (lookup (key prev c) d) + 1) d) rest ha
      hw.0.1 hw.1,
)

pairs_after-HasNoSpace :
    (a b prev : Text) (ws : List Text)
    → HasNoSpace prev
    → All IsWord ws
    → 0 < pairs_after a b prev ws
    → HasNoSpace a
pairs_after-HasNoSpace a b prev [] hp hw h = absurd (omega arith)
pairs_after-HasNoSpace a b prev (c ∷ ws) hp hw h = elim (Text_discrete prev a) [
  | yes e ↦ subst HasNoSpace e hp
  | no e ↦ pairs_after-HasNoSpace a b c ws hw.0.1 hw.1 (ground arith)
]

-- From an empty dictionary the loop finds exactly the pairs that stand four times.
pub bigram_from_iff :
    (w : Text) (ws : List Text)
    → HasNoSpace w
    → All IsWord ws
    → (bigram_from w [] ws ≡ true) ↔ HasBigram (w ∷ ws)
bigram_from_iff w ws hw hws = (sound, complete)
  where
    sound : bigram_from w [] ws ≡ true → HasBigram (w ∷ ws)
    sound h = let (a, b, _, many) = bigram_from_sound w [] ws hw hws h in (a, b, omega arith)

    complete : HasBigram (w ∷ ws) → bigram_from w [] ws ≡ true
    complete (a, b, many) =
        bigram_from_complete a b w [] ws (pairs_after-HasNoSpace a b w ws hw hws (omega arith)) hw
          hws (omega arith) (omega arith)
