-- ===== src/Engine/Boundary.antt =====
-- The boundary segment of a window, and the texts on its two sides.
use transcription_api.Prelude.{
  Text, ℤ, pos, ltb_ℤ, ℕ, zero, suc, ◌+◌, ◌-◌, ◌/◌, ◌<◌, ◌≡◌, refl, ap, ◌∙◌, subst, ◌≢◌, inl, inr,
  Bool, true, false, none, some, List, [], ◌∷◌, ◌++◌, append_assoc, arith, dec_lt, Bool-cases,
  Option-cases, length, get_elem?, take, drop, All,
}
use transcription_api.Engine.Segments.{Segment, texts, last_before, commit_point}

pub texts-split : (n : ℕ) (ss : List Segment) → texts (take n ss) ++ texts (drop n ss) ≡ texts ss
unfolding texts
texts-split zero ss = refl
texts-split (suc n) [] = refl
texts-split (suc n) (s ∷ ss) = elim (Option-cases s.text) [
  | inl e ↦ rw (e, texts) (texts-split n ss)
  | inr (t, e) ↦ rw (e, texts) (append_assoc t _ _ ∙ ap (◌++◌ t) (texts-split n ss))
]

last_before-none :
    (bound : ℤ) (ss : List Segment) (n j : ℕ) (s : Segment)
    → last_before bound ss n ≡ none
    → j < n
    → get_elem? ss j ≡ some s
    → ltb_ℤ s.t1 bound ≡ false
unfolding last_before
last_before-none bound ss zero j s e h g = absurd (omega arith)
last_before-none bound ss (suc n) j s e h g = elim (dec_lt j n) [
  | yes below ↦ ground (arith, last_before-none bound ss n j s)
  | no top ↦ at_top (omega arith) e g
]
  where
    at_top :
        j ≡ n
        → last_before bound ss (suc n) ≡ none
        → get_elem? ss j ≡ some s
        → ltb_ℤ s.t1 bound ≡ false
    at_top q e g = ground (arith, ap (get_elem? ss) q)

-- The search from the end stops at the last segment that ends before the bound.
pub last_before-some :
    (bound : ℤ) (ss : List Segment) (n i : ℕ) (t1 : ℤ)
    → last_before bound ss n ≡ some (i, t1)
    → (s : Segment) × (get_elem? ss i ≡ some s) × (s.t1 ≡ t1) × (i < n) × (ltb_ℤ t1 bound ≡ true)
unfolding last_before
last_before-some bound ss zero i t1 e = cc
last_before-some bound ss (suc n) i t1 e = elim (Option-cases (get_elem? ss n)) [
  | inl missing ↦ later (last_before-some bound ss n i t1 (ground arith))
  | inr (s, found) ↦ elim (Bool-cases (ltb_ℤ s.t1 bound)) [
    | inl here ↦ (s, ground arith, ground arith, ground arith, ground arith)
    | inr not_here ↦ later (last_before-some bound ss n i t1 (ground arith))
  ]
]
  where
    later :
        (s : Segment) × (get_elem? ss i ≡ some s) × (s.t1 ≡ t1) × (i < n) × (ltb_ℤ t1 bound ≡ true)
        → (s : Segment) × (get_elem? ss i ≡ some s)
          × (s.t1 ≡ t1)
          × (i < suc n)
          × (ltb_ℤ t1 bound ≡ true)
    later (s, g, q, lt, b) = (s, g, q, omega arith, b)

-- No segment behind it does.
pub last_before-after :
    (bound : ℤ) (ss : List Segment) (n i j : ℕ) (t1 : ℤ) (s : Segment)
    → last_before bound ss n ≡ some (i, t1)
    → i < j
    → j < n
    → get_elem? ss j ≡ some s
    → ltb_ℤ s.t1 bound ≡ false
unfolding last_before
last_before-after bound ss zero i j t1 s e lo hi g = cc
last_before-after bound ss (suc n) i j t1 s e lo hi g = elim (dec_lt j n) [
  | yes below ↦ ground (arith, last_before-after bound ss n i j t1 s)
  | no top ↦ ground (arith, ap (get_elem? ss) (top_is_n top), last_before-some bound ss n i t1)
]
  where
    top_is_n : ¬ (j < n) → j ≡ n
    top_is_n top = omega arith

-- The search finds segment i, if it ends before the bound and no later one does.
pub last_before-eq :
    (bound : ℤ) (ss : List Segment) (n i : ℕ) (s : Segment)
    → i < n
    → get_elem? ss i ≡ some s
    → ltb_ℤ s.t1 bound ≡ true
    → ((j : ℕ) (u : Segment) → i < j → get_elem? ss j ≡ some u → ltb_ℤ u.t1 bound ≡ false)
    → last_before bound ss n ≡ some (i, s.t1)
unfolding last_before
last_before-eq bound ss zero i s lt at early last = absurd (omega arith)
last_before-eq bound ss (suc n) i s lt at early last = elim (dec_lt i n) [
  | no top ↦
      let here : get_elem? ss n ≡ some s = ap (get_elem? ss) (top_is_n top) ∙ at in
      ground (arith, here, top_is_n top)
  | yes below ↦
      let found = last_before-eq bound ss n i s below at early last in
      elim (Option-cases (get_elem? ss n)) [
        | inl missing ↦ ground (arith, found)
        | inr (u, there) ↦ ground (arith, found, last n u below there)
      ]
]
  where
    top_is_n : ¬ (i < n) → n ≡ i
    top_is_n top = omega arith

-- It finds nothing, if no segment ends before the bound.
pub last_before-eq-none :
    (bound : ℤ) (ss : List Segment) (n : ℕ)
    → ((j : ℕ) (u : Segment) → get_elem? ss j ≡ some u → ltb_ℤ u.t1 bound ≡ false)
    → last_before bound ss n ≡ none
unfolding last_before
last_before-eq-none bound ss zero late = refl
last_before-eq-none bound ss (suc n) late =
    let earlier = last_before-eq-none bound ss n late in
    elim (Option-cases (get_elem? ss n)) [
      | inl missing ↦ ground (arith, earlier)
      | inr (u, there) ↦ ground (arith, earlier, late n u there)
    ]

pub commit_point_below :
    (force : Bool) (size : ℕ) (ss : List Segment) (i : ℕ) (t1 : ℤ)
    → commit_point force size ss ≡ some (i, t1)
    → i < length ss
unfolding commit_point
commit_point_below true size ss i t1 e = ground arith
commit_point_below false size ss i t1 e =
    elim (Option-cases (last_before (pos ((size - 32000) / 160)) ss (length ss))) [
      | inl missing ↦ ground arith
      | inr ((j, u), found) ↦
          let (_, _, _, below, _) =
            last_before-some (pos ((size - 32000) / 160)) ss (length ss) j u found in
          ground arith
    ]

-- A segment with some text.
abbrev pub HasText : Segment → Type 0
HasText s = (t : Text) × (s.text ≡ some t) × (t ≢ [])

append-ne : (t u : Text) → t ≢ [] → t ++ u ≢ []
append-ne [] u ne = absurd (ne refl)
append-ne (c ∷ t) u ne = λ e. cc

texts-cons : (s : Segment) (ss : List Segment) → HasText s → texts (s ∷ ss) ≢ []
unfolding texts
texts-cons s ss (t, e, ne) = rw (e, texts) (append-ne t (texts ss) ne)

pub texts-take :
    (i : ℕ) (ss : List Segment) → All HasText ss → i < length ss → texts (take (i + 1) ss) ≢ []
unfolding texts
texts-take i [] h lt = absurd (omega arith)
texts-take i (s ∷ ss) h lt =
    subst (λ (k : ℕ). texts (take k (s ∷ ss)) ≢ []) suc_i (texts-cons s (take i ss) h.0)
  where
    suc_i : suc i ≡ i + 1
    suc_i = omega arith
