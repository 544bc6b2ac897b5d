-- ===== src/Prelude/Dict.antt =====
-- `std::unordered_map<std::string, V>` as an association list, at most one entry for a key.
use mathlib.Core.Path.{◌≡◌, refl}
use mathlib.Core.Logic.{◌≢◌}
use mathlib.Core.List.{List, [], ◌∷◌}
use mathlib.Core.Option.{Option, none, some}
use native.Mathlib.Omega.{arith}
use transcription_api.Prelude.Tests.{if◌then◌else◌}
use transcription_api.Prelude.Texts.{Text, text_eq}

abbrev pub Dict {ℓ} : Type ℓ → Type ℓ
Dict V = List (Text × V)

module _ {ℓ} {V : Type ℓ} where
  abbrev pub lookup : Text → Dict V → Option V
  lookup k [] = none
  lookup k ((j, v) ∷ d) = if text_eq j k then some v else lookup k d

  -- `d[k] = v`
  abbrev pub insert : Text → V → Dict V → Dict V
  insert k v [] = (k, v) ∷ []
  insert k v ((j, w) ∷ d) = if text_eq j k then (k, v) ∷ d else (j, w) ∷ insert k v d

  -- `d.erase(k)`
  abbrev pub erase : Text → Dict V → Dict V
  erase k [] = []
  erase k ((j, w) ∷ d) = if text_eq j k then d else (j, w) ∷ erase k d

  -- Every key stands once.
  abbrev pub Keyed : Dict V → Type ℓ
  Keyed [] = Unit
  Keyed ((j, w) ∷ d) = (lookup j d ≡ none) × Keyed d

  pub lookup-erase_ne : (j k : Text) (d : Dict V) → j ≢ k → lookup j (erase k d) ≡ lookup j d
  lookup-erase_ne j k [] ne = refl
  lookup-erase_ne j k ((i, w) ∷ d) ne = ground (arith, lookup-erase_ne j k d ne)

  pub lookup-erase_self : (k : Text) (d : Dict V) → Keyed d → lookup k (erase k d) ≡ none
  lookup-erase_self k [] h = refl
  lookup-erase_self k (e ∷ d) h = ground (arith, lookup-erase_self k d h.1)

  -- The entry that was written, and the others.
  pub lookup-insert_ne :
      (other k : Text) (v : V) (d : Dict V)
      → other ≢ k
      → lookup other (insert k v d) ≡ lookup other d
  lookup-insert_ne other k v ((i, w) ∷ d) ne = ground (arith, lookup-insert_ne other k v d ne)
  lookup-insert_ne other k v [] ne = ground arith

  pub lookup-insert_self : (k : Text) (v : V) (d : Dict V) → lookup k (insert k v d) ≡ some v
  lookup-insert_self k v ((i, w) ∷ d) = ground (arith, lookup-insert_self k v d)
  lookup-insert_self k v [] = ground arith

  pub insert-Keyed : (k : Text) (v : V) (d : Dict V) → Keyed d → Keyed (insert k v d)
  insert-Keyed k v [] h = ground arith
  insert-Keyed k v (e ∷ d) h = ground (arith, insert-Keyed k v d h.1, lookup-insert_ne e.0 k v d)

  pub erase-Keyed : (k : Text) (d : Dict V) → Keyed d → Keyed (erase k d)
  erase-Keyed k [] h = tt
  erase-Keyed k (e ∷ d) h = ground (arith, erase-Keyed k d h.1, lookup-erase_ne e.0 k d)
