-- ===== src/Server/Tracker.antt =====
-- src/server/SessionTracker.h. A session is the number of its address; the set is a list without
-- repetition, in an order that nothing depends on. Each method runs under the mutex.
use transcription_api.Prelude.{
  ℕ, ◌+◌, ◌≤◌, ◌<◌, ◌≡◌, refl, Bool, true, false, not, ◌&&◌, ◌||◌, List, [], ◌∷◌, arith, ◌==◌,
  if◌then◌else◌,
}

abbrev pub Tracker : Type 0
Tracker = List ℕ

abbrev pub contains : ℕ → List ℕ → Bool
contains s [] = false
contains s (t ∷ ts) = t == s || contains s ts

-- `insert`, which does nothing for an element that is there.
unfoldable pub add : ℕ → Tracker → Tracker
add s ts = if contains s ts then ts else s ∷ ts

-- `erase`
unfoldable pub remove : ℕ → Tracker → Tracker
remove s [] = []
remove s (t ∷ ts) = let rest = remove s ts in if t == s then rest else t ∷ rest

-- The sessions whose `shutdown` is called, in the order of the calls.
unfoldable pub shutdown_all : Tracker → List ℕ
shutdown_all ts = ts

-- The constructor of a session adds it, the destructor removes it.
pub data Life : Type 0 where
  created destroyed : ℕ → Life

-- A history, the latest event first.
unfoldable pub tracked : List Life → Tracker
tracked [] = []
tracked (created s ∷ h) = add s (tracked h)
tracked (destroyed s ∷ h) = remove s (tracked h)

-- The session was created and not destroyed since.
abbrev pub lives : ℕ → List Life → Bool
lives s [] = false
lives s (created t ∷ h) = t == s || lives s h
lives s (destroyed t ∷ h) = not (t == s) && lives s h

abbrev pub calls : ℕ → List ℕ → ℕ
calls s [] = 0
calls s (t ∷ ts) = let rest = calls s ts in if t == s then 1 + rest else rest

calls-contains : (s : ℕ) (ts : Tracker) → contains s ts ≡ false → calls s ts ≡ 0
calls-contains s [] h = refl
calls-contains s (t ∷ ts) h = ground (arith, calls-contains s ts)

contains-calls : (s : ℕ) (ts : Tracker) → contains s ts ≡ true → 0 < calls s ts
contains-calls s [] h = cc
contains-calls s (t ∷ ts) h = ground (arith, contains-calls s ts)

calls-remove : (s t : ℕ) (ts : Tracker) → calls s (remove t ts) ≡ (if t == s then 0 else calls s ts)
unfolding remove
calls-remove s t [] = ground arith
calls-remove s t (u ∷ ts) = ground (arith, calls-remove s t ts)

calls-add :
    (s t : ℕ) (ts : Tracker)
    → calls s ts ≤ 1
    → calls s (add t ts) ≡ (if t == s then 1 else calls s ts)
unfolding add
calls-add s t ts h = ground (arith, calls-contains t ts, contains-calls t ts)

calls-tracked : (s : ℕ) (h : List Life) → calls s (tracked h) ≡ (if lives s h then 1 else 0)
unfolding tracked
calls-tracked s [] = refl
calls-tracked s (created t ∷ h) = ground (arith, calls-tracked s h, calls-add s t (tracked h))
calls-tracked s (destroyed t ∷ h) = ground (arith, calls-tracked s h, calls-remove s t (tracked h))

-- At a shutdown every session that lives is shut down exactly once, and no other is.
pub shutdown_all_lem :
    (s : ℕ) (h : List Life) → calls s (shutdown_all (tracked h)) ≡ (if lives s h then 1 else 0)
unfolding shutdown_all
shutdown_all_lem s h = calls-tracked s h
