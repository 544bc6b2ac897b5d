-- ===== src/InferenceLimiter/Workers.antt =====
-- Threads that share the limiter, in any interleaving of their calls.
use transcription_api.Prelude.{
  ℤ, pos_part, ℕ, zero, suc, ◌+◌, ◌≤◌, ◌<◌, ◌≡◌, refl, ◌≢◌, some, List, [], ◌∷◌, arith,
  if◌then◌else◌, get_elem?,
}
use transcription_api.InferenceLimiter.{
  InferenceLimiter, set_max_concurrency, acquire, try_acquire, release,
}

-- What a thread is doing: nothing with the limiter, asleep in `acquire`, inside an inference that has a
-- slot, or inside the last decode of `handleEnd`, which asks for none.
pub data Phase : Type 0 where
  away asleep decoding ending : Phase

pub record Crew : Type 0 where
  pub limiter : InferenceLimiter
  pub phases : List Phase

abbrev pub decoders : List Phase → ℕ
decoders [] = 0
decoders (decoding ∷ ps) = suc (decoders ps)
decoders (away ∷ ps) = decoders ps
decoders (asleep ∷ ps) = decoders ps
decoders (ending ∷ ps) = decoders ps

-- The threads in a last decode.
abbrev pub enders : List Phase → ℕ
enders [] = 0
enders (ending ∷ ps) = suc (enders ps)
enders (away ∷ ps) = enders ps
enders (asleep ∷ ps) = enders ps
enders (decoding ∷ ps) = enders ps

abbrev pub put : ℕ → Phase → List Phase → List Phase
put i q [] = []
put zero q (p ∷ ps) = q ∷ ps
put (suc i) q (p ∷ ps) = p ∷ put i q ps

-- The steps of one thread, the last decode of `handleEnd` among them, and `setMaxConcurrency` from
-- outside. A bound on the limits that are
-- ever set is a parameter of the relation.
pub data Step (bound : ℕ) (s t : Crew) : Type 0 where
  tries :
      (i : ℕ)
      → get_elem? s.phases i ≡ some away
      → t ≡ record {
        limiter = (try_acquire s.limiter).1;
        phases = put i (if (try_acquire s.limiter).0 then decoding else away) s.phases;
      }
      → Step bound s t
  waits :
      (i : ℕ)
      → get_elem? s.phases i ≡ some away
      → t ≡ record s { phases = put i asleep s.phases }
      → Step bound s t
  wakes :
      (i : ℕ) (l : InferenceLimiter)
      → get_elem? s.phases i ≡ some asleep
      → acquire s.limiter ≡ some l
      → t ≡ record { limiter = l; phases = put i decoding s.phases }
      → Step bound s t
  finishes :
      (i : ℕ)
      → get_elem? s.phases i ≡ some decoding
      → t ≡ record { limiter = release s.limiter; phases = put i away s.phases }
      → Step bound s t
  ends :
      (i : ℕ)
      → get_elem? s.phases i ≡ some away
      → t ≡ record s { phases = put i ending s.phases }
      → Step bound s t
  ended :
      (i : ℕ)
      → get_elem? s.phases i ≡ some ending
      → t ≡ record s { phases = put i away s.phases }
      → Step bound s t
  limits :
      (n : ℤ)
      → pos_part n ≤ bound
      → t ≡ record s { limiter = set_max_concurrency n s.limiter }
      → Step bound s t

pub data Reach (bound : ℕ) (s : Crew) : Crew → Type 0 where
  begin : Reach bound s s
  next : {t u : Crew} → Reach bound s t → Step bound t u → Reach bound s u

-- The counter is the number of threads inside an inference, and the bound holds.
pub record IsCounted (bound : ℕ) (s : Crew) : Type 0 where
  pub counted : s.limiter.active_count ≡ decoders s.phases
  pub limited : s.limiter.max_concurrent ≤ bound
  pub positive : 0 < s.limiter.max_concurrent
  pub capped : s.limiter.active_count ≤ bound

decoders-put_away :
    (i : ℕ) (ps : List Phase)
    → get_elem? ps i ≡ some decoding
    → decoders (put i away ps) + 1 ≡ decoders ps
decoders-put_away i [] h = cc
decoders-put_away zero (decoding ∷ ps) h = omega arith
decoders-put_away zero (away ∷ ps) h = cc
decoders-put_away zero (asleep ∷ ps) h = cc
decoders-put_away zero (ending ∷ ps) h = cc
decoders-put_away (suc i) (decoding ∷ ps) h = omega (arith, decoders-put_away i ps h)
decoders-put_away (suc i) (away ∷ ps) h = decoders-put_away i ps h
decoders-put_away (suc i) (asleep ∷ ps) h = decoders-put_away i ps h
decoders-put_away (suc i) (ending ∷ ps) h = decoders-put_away i ps h

-- A thread that was not decoding, and what its new phase adds.
decoders-put :
    (i : ℕ) (q : Phase) (ps : List Phase) {p : Phase}
    → get_elem? ps i ≡ some p
    → p ≢ decoding
    → decoders (put i q ps) ≡ decoders (q ∷ ps)
decoders-put i q [] h ne = cc
decoders-put zero q (decoding ∷ ps) h ne = absurd (ne (cc))
decoders-put zero decoding (away ∷ ps) h ne = refl
decoders-put zero away (away ∷ ps) h ne = refl
decoders-put zero asleep (away ∷ ps) h ne = refl
decoders-put zero ending (away ∷ ps) h ne = refl
decoders-put zero decoding (asleep ∷ ps) h ne = refl
decoders-put zero away (asleep ∷ ps) h ne = refl
decoders-put zero asleep (asleep ∷ ps) h ne = refl
decoders-put zero ending (asleep ∷ ps) h ne = refl
decoders-put zero decoding (ending ∷ ps) h ne = refl
decoders-put zero away (ending ∷ ps) h ne = refl
decoders-put zero asleep (ending ∷ ps) h ne = refl
decoders-put zero ending (ending ∷ ps) h ne = refl
decoders-put (suc i) q (p ∷ ps) h ne = ground (arith, decoders-put i q ps h ne)

pub Step-IsCounted :
    {bound : ℕ} {s t : Crew} → Step bound s t → IsCounted bound s → IsCounted bound t
unfolding set_max_concurrency acquire try_acquire release
Step-IsCounted {bound} {s} {t} (tries i h e) v = rw e (
    ground (
      arith,
      decoders-put i decoding s.phases h (λ x. cc),
      decoders-put i away s.phases h (λ x. cc),
    ))
Step-IsCounted {bound} {s} {t} (waits i h e) v =
    rw e (ground (arith, decoders-put i asleep s.phases h (λ x. cc)))
Step-IsCounted {bound} {s} {t} (wakes i l h a e) v =
    rw e (ground (arith, decoders-put i decoding s.phases h (λ x. cc)))
Step-IsCounted {bound} {s} {t} (finishes i h e) v =
    rw e (ground (arith, decoders-put_away i s.phases h))
Step-IsCounted {bound} {s} {t} (ends i h e) v =
    rw e (ground (arith, decoders-put i ending s.phases h (λ x. cc)))
Step-IsCounted {bound} {s} {t} (ended i h e) v =
    rw e (ground (arith, decoders-put i away s.phases h (λ x. cc)))
Step-IsCounted {bound} {s} {t} (limits n b e) v = rw e (ground arith)

pub Reach-IsCounted :
    {bound : ℕ} {s t : Crew} → Reach bound s t → IsCounted bound s → IsCounted bound t
Reach-IsCounted begin v = v
Reach-IsCounted (next r st) v = Step-IsCounted st (Reach-IsCounted r v)
