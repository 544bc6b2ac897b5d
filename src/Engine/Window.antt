-- ===== src/Engine/Window.antt =====
-- The sliding window: what a decode commits, what stays in flight, what stays in the buffer.
use transcription_api.Prelude.{
  ℤ, pos, pos_part, ltb_ℤ, ℕ, zero, suc, ◌+◌, ◌-◌, ◌*◌, ◌/◌, ◌≤◌, ◌<◌, ◌≡◌, refl, ap, inl, inr,
  Bool, true, false, ◌||◌, some, List, [], ◌∷◌, ◌++◌, arith, leb, Bool-cases, Option-cases, length,
  get_elem?, take, drop, length-drop, take-all, drop-all, All,
}
use transcription_api.Float.{FloatOps}
use transcription_api.Engine.Segments.{Segment, texts, last_before, commit_point}
use transcription_api.Engine.{slide, erase_committed, max_window_samples}
use transcription_api.Engine.Boundary.{
  texts-split, last_before-eq, last_before-eq-none, last_before-some, commit_point_below, HasText,
  texts-take,
}

get_elem?-lt : (i : ℕ) (ss : List Segment) {s : Segment} → get_elem? ss i ≡ some s → i < length ss
get_elem?-lt i [] at = cc
get_elem?-lt zero (x ∷ ss) at = omega arith
get_elem?-lt (suc i) (x ∷ ss) at = omega (arith, get_elem?-lt i ss at)

module _ {F : Type 0} ⦃fl : FloatOps F⦄ where
  -- Committed and partial text together are the texts of all segments, in order: a window loses
  -- nothing and repeats nothing.
  pub slide-texts :
      (force : Bool) (ss : List Segment) (buffer : List F)
      → let (res, _) = slide force ss buffer in res.committed_text ++ res.partial_text ≡ texts ss
  unfolding slide
  slide-texts force ss buffer = elim (Option-cases (commit_point force (length buffer) ss)) [
    | inl e ↦ ground arith
    | inr ((i, t1), e) ↦ ground (arith, texts-split (i + 1) ss)
  ]

  boundary_overlap :
      (ss : List Segment) (buffer : List F) (i : ℕ) (t1 : ℤ)
      → max_window_samples ≤ length buffer
      → last_before (pos ((length buffer - 32000) / 160)) ss (length ss) ≡ some (i, t1)
      → let (res, rest) = slide false ss buffer in
        (res.committed_text ≡ texts (take (i + 1) ss))
        × (32000 ≤ length rest)
        × (rest ≡ drop (pos_part t1 * 160) buffer)
  unfolding slide commit_point erase_committed
  boundary_overlap ss buffer i t1 long found =
      let (_, _, _, _, before) =
        last_before-some (pos ((length buffer - 32000) / 160)) ss (length ss) i t1 found in
      (ground arith, ground (arith, length-drop (pos_part t1 * 160) buffer), ground arith)

  -- In a buffer of 10 s or more, let segment i end before the mark 2 s before the buffer's end, in
  -- units of 10 ms, and let no later segment do so. A commit that is not forced takes exactly the texts
  -- up to segment i, erases the audio up to its end, and leaves at least 2 s of audio. So if it ends
  -- at time 0 or before, its text is committed and no audio is erased.
  pub slide_keeps_overlap :
      (ss : List Segment) (buffer : List F) (i : ℕ) (s : Segment)
      → max_window_samples ≤ length buffer
      → get_elem? ss i ≡ some s
      → ltb_ℤ s.t1 (pos ((length buffer - 32000) / 160)) ≡ true
      → ((j : ℕ) (u : Segment)
          → i < j
          → get_elem? ss j ≡ some u
          → ltb_ℤ u.t1 (pos ((length buffer - 32000) / 160)) ≡ false)
      → let (res, rest) = slide false ss buffer in
        (res.committed_text ≡ texts (take (i + 1) ss))
        × (32000 ≤ length rest)
        × (rest ≡ drop (pos_part s.t1 * 160) buffer)
  slide_keeps_overlap ss buffer i s long at early last = boundary_overlap ss buffer i s.t1 long (
      last_before-eq (pos ((length buffer - 32000) / 160)) ss (length ss) i s (get_elem?-lt i ss at)
        at early last)

  -- In a buffer of 10 s or more, let no segment end before the mark 2 s before the buffer's end. A
  -- commit that is not forced then takes all texts but the last, and erases the audio up to the end of
  -- the last segment but one, however little that leaves; of one segment or none it takes nothing, and
  -- the buffer stays.
  pub slide_without_boundary :
      (ss : List Segment) (buffer : List F)
      → max_window_samples ≤ length buffer
      → ((j : ℕ) (u : Segment)
          → get_elem? ss j ≡ some u
          → ltb_ℤ u.t1 (pos ((length buffer - 32000) / 160)) ≡ false)
      → let (res, rest) = slide false ss buffer in
        (length ss ≤ 1
          → (res.committed_text ≡ []) × (res.partial_text ≡ texts ss) × (rest ≡ buffer))
        × ((s : Segment)
            → 1 < length ss
            → get_elem? ss (length ss - 2) ≡ some s
            → (res.committed_text ≡ texts (take (length ss - 1) ss))
              × (res.partial_text ≡ texts (drop (length ss - 1) ss))
              × (rest ≡ drop (pos_part s.t1 * 160) buffer))
  unfolding slide commit_point erase_committed
  slide_without_boundary ss buffer long late =
      let none_found =
        last_before-eq-none (pos ((length buffer - 32000) / 160)) ss (length ss) late in
      (
        (λ few. ground (arith, none_found)),
        λ s many at.
            let one_back : length ss - 2 + 1 ≡ length ss - 1 = omega arith in
            ground (
              arith,
              none_found,
              ap (λ (k : ℕ). texts (take k ss)) one_back,
              ap (λ (k : ℕ). texts (drop k ss)) one_back,
              drop-all (pos_part s.t1 * 160) buffer,
            ),
      )

  -- Below 10 s nothing is committed unless the commit is forced, and the buffer stays.
  pub slide_short :
      (ss : List Segment) (buffer : List F)
      → length buffer < max_window_samples
      → slide false ss buffer ≡ (record { partial_text = texts ss; committed_text = [] }, buffer)
  unfolding slide
  slide_short ss buffer h = ground arith

  -- A forced commit of some segments takes them all and empties the buffer. Of no segment it commits
  -- nothing, and the audio stays in the buffer.
  pub slide_forced :
      (ss : List Segment) (buffer : List F)
      → let (res, rest) = slide true ss buffer in
        (res.committed_text ≡ texts ss)
        × (res.partial_text ≡ [])
        × (0 < length ss → rest ≡ [])
        × (length ss ≡ 0 → rest ≡ buffer)
  unfolding slide commit_point erase_committed texts
  slide_forced [] buffer = (refl, refl, (λ h. absurd (omega arith)), λ h. refl)
  slide_forced (s ∷ ss) buffer = ground (
    arith,
    take-all (length (s ∷ ss) - 1 + 1) (s ∷ ss),
    drop-all (length (s ∷ ss) - 1 + 1) (s ∷ ss),
  )

  erase_committed-drop :
      (force : Bool) (t1 : ℤ) (buffer : List F)
      → (n : ℕ) × (erase_committed force t1 buffer ≡ drop n buffer)
  unfolding erase_committed
  erase_committed-drop force t1 buffer = elim (Bool-cases (ltb_ℤ (pos 0) t1)) [
    | inl late ↦ (pos_part t1 * 160, ground (arith, drop-all (pos_part t1 * 160) buffer))
    | inr early ↦ elim (Bool-cases force) [
      | inl forced ↦ (length buffer, ground (arith, drop-all (length buffer) buffer))
      | inr kept ↦ (0, ground arith)
    ]
  ]

  -- The buffer only ever loses samples at its front.
  pub slide-drop :
      (force : Bool) (ss : List Segment) (buffer : List F)
      → (n : ℕ) × ((slide force ss buffer).1 ≡ drop n buffer)
  unfolding slide erase_committed
  slide-drop force ss buffer = elim (Bool-cases (force || leb max_window_samples (length buffer))) [
    | inl long ↦ elim (Option-cases (commit_point force (length buffer) ss)) [
      | inl e ↦ (0, ground arith)
      | inr ((i, t1), e) ↦ let (n, q) = erase_committed-drop force t1 buffer in (n, ground arith)
    ]
    | inr short ↦ (0, ground arith)
  ]

  -- A window whose texts are all there commits no audio without text.
  pub slide_silent :
      (ss : List Segment) (buffer : List F)
      → All HasText ss
      → (slide false ss buffer).0.committed_text ≡ []
      → (slide false ss buffer).1 ≡ buffer
  unfolding slide
  slide_silent ss buffer h e = elim (Option-cases (commit_point false (length buffer) ss)) [
    | inl no_commit ↦ ground arith
    | inr ((i, t1), at) ↦
        ground (arith, texts-take i ss h (commit_point_below false (length buffer) ss i t1 at))
  ]

  pub length-slide :
      (force : Bool) (ss : List Segment) (buffer : List F)
      → length (slide force ss buffer).1 ≤ length buffer
  length-slide force ss buffer =
      let (n, e) = slide-drop force ss buffer in omega (arith, ap length e, length-drop n buffer)
