-- ===== src/Engine/Segments.antt =====
-- src/whisper/StreamingWhisperEngine.cpp: how the segments of a decode are read. Their times and
-- texts are data of whisper.cpp.
use transcription_api.Prelude.{
  Text, codes, text_eq, ℤ, pos, ltb_ℤ, ℕ, zero, suc, ◌-◌, ◌/◌, Bool, true, false, Option, none,
  some, List, [], ◌∷◌, ◌++◌, ltb, ◌==◌, if◌then◌else◌, length, get_elem?,
}

-- A segment ends at `t1`, in units of 10 ms; its text may be a null pointer.
pub record Segment : Type 0 where
  pub t1 : ℤ
  pub text : Option Text

-- The language that is kept after a decode: a detected one replaces "auto".
unfoldable pub locked_language : Text → Option Text → Text
locked_language language detected =
    if text_eq language (codes "auto")
    then elim detected [
      | none ↦ language
      | some d ↦ if text_eq d (codes "auto") then language else d
    ]
    else language

-- `+=` of the texts of some segments.
unfoldable pub texts : List Segment → Text
texts [] = []
texts (s ∷ ss) = elim s.text [ none ↦ texts ss | some t ↦ t ++ texts ss ]

-- `for (i = n - 1; i >= 0; --i)`: the last of the first n segments that ends before the bound.
unfoldable pub last_before : ℤ → List Segment → ℕ → Option (ℕ × ℤ)
last_before bound segments zero = none
last_before bound segments (suc i) =
    let earlier = last_before bound segments i in
    elim (get_elem? segments i) [
      | none ↦ earlier
      | some s ↦ if ltb_ℤ s.t1 bound then some (i, s.t1) else earlier
    ]

-- `commit_up_to_segment` with `commit_t1`; `none` is -1. The bound is read only for a buffer of ten
-- seconds or more, where the subtraction does not go below zero.
unfoldable pub commit_point : Bool → ℕ → List Segment → Option (ℕ × ℤ)
unfolding last_before
commit_point true size segments =
    if length segments == 0 then none else some (length segments - 1, pos 0)
commit_point false size segments =
    elim (last_before (pos ((size - 32000) / 160)) segments (length segments)) [
      | some p ↦ some p
      | none ↦
          if ltb 1 (length segments)
          then elim (get_elem? segments (length segments - 2)) [
            | none ↦ none
            | some s ↦ some (length segments - 2, s.t1)
          ]
          else none
    ]
