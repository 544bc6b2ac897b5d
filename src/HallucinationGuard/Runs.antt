-- ===== src/HallucinationGuard/Runs.antt =====
-- Consecutive identical words: the counter of `scan` against the list of words.
use transcription_api.Prelude.{
  Text, text_eq, ℕ, zero, suc, ◌+◌, ◌≤◌, ◌<◌, ◌≡◌, refl, subst, ◌↔◌, ◌⊎◌, inl, inr, Bool, true,
  false, ◌&&◌, ◌||◌, List, [], ◌∷◌, arith, leb, if◌then◌else◌,
}

-- The next n words are all `w`.
abbrev pub Leads : Text → ℕ → List Text → Type 0
Leads w zero ws = Unit
Leads w (suc n) [] = ⊥
Leads w (suc n) (v ∷ ws) = (v ≡ w) × Leads w n ws

-- Somewhere a word stands four times in a row.
abbrev pub HasRun : List Text → Type 0
HasRun [] = ⊥
HasRun (w ∷ ws) = Leads w 3 ws ⊎ HasRun ws

-- The part of `scan` that counts runs.
unfoldable pub run_from : Text → ℕ → List Text → Bool
run_from prev n [] = false
run_from prev n (c ∷ rest) =
    (text_eq c prev && leb 4 (n + 1)) || run_from c (if text_eq c prev then n + 1 else 1) rest

Leads-fewer : (w : Text) (n : ℕ) (ws : List Text) → Leads w (suc n) ws → Leads w n ws
Leads-fewer w zero ws h = tt
Leads-fewer w (suc n) [] h = h
Leads-fewer w (suc n) (v ∷ ws) h = (h.0, Leads-fewer w n ws h.1)

-- What one round of the loop can have seen.
run_from_cases :
    (prev : Text) (n : ℕ) (c : Text) (rest : List Text)
    → run_from prev n (c ∷ rest) ≡ true
    → ((c ≡ prev) × (4 ≤ n + 1))
      ⊎ ((c ≡ prev) × (run_from c (n + 1) rest ≡ true))
      ⊎ (run_from c 1 rest ≡ true)
unfolding run_from
run_from_cases prev n c rest h = ground arith

run_from_sound :
    (prev : Text) (n left : ℕ) (ws : List Text)
    → n + suc left ≡ 4
    → left < 3
    → run_from prev n ws ≡ true
    → Leads prev (suc left) ws ⊎ HasRun ws
unfolding run_from
run_from_sound prev n left [] e l h = ground arith
run_from_sound prev n zero (c ∷ rest) e l h = elim (run_from_cases prev n c rest h) [
  | inl (same, full) ↦ inl (same, tt)
  | inr (inl (same, more)) ↦ inl (same, tt)
  | inr (inr more) ↦ inr (run_from_sound c 1 2 rest refl (omega arith) more)
]
run_from_sound prev n (suc k) (c ∷ rest) e l h = elim (run_from_cases prev n c rest h) [
  | inl (same, full) ↦ absurd (omega arith)
  | inr (inl (same, more)) ↦
      elim (run_from_sound c (n + 1) k rest (omega arith) (omega arith) more) [
        | inl ahead ↦ inl (same, subst (λ w. Leads w (suc k) rest) same ahead)
        | inr later ↦ inr (inr later)
      ]
  | inr (inr more) ↦ inr (run_from_sound c 1 2 rest refl (omega arith) more)
]

run_from_complete :
    (prev : Text) (n left : ℕ) (ws : List Text)
    → n + suc left ≡ 4
    → left < 3
    → Leads prev (suc left) ws ⊎ HasRun ws
    → run_from prev n ws ≡ true
unfolding run_from
run_from_complete prev n left [] e l h = ground arith
run_from_complete prev n zero (c ∷ rest) e l h = ground (arith, run_from_complete c 1 2 rest)
run_from_complete prev n (suc zero) (c ∷ rest) e l h = ground (
  arith,
  run_from_complete c 1 2 rest,
  run_from_complete c (n + 1) 0 rest,
  Leads-fewer c 1 rest,
  Leads-fewer c 2 rest,
)
run_from_complete prev n (suc (suc zero)) (c ∷ rest) e l h =
    ground (
      arith,
      run_from_complete c 1 2 rest,
      run_from_complete c (n + 1) 1 rest,
      Leads-fewer c 2 rest,
    )
run_from_complete prev n (suc (suc (suc left))) (c ∷ rest) e l h = absurd (omega arith)

-- With n words equal to `prev` behind it, the loop looks for what is missing to four.
pub run_from_iff :
    (prev : Text) (n left : ℕ) (ws : List Text)
    → n + suc left ≡ 4
    → left < 3
    → (run_from prev n ws ≡ true) ↔ (Leads prev (suc left) ws ⊎ HasRun ws)
run_from_iff prev n left ws e l =
    (run_from_sound prev n left ws e l, run_from_complete prev n left ws e l)
