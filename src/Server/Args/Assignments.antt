-- ===== src/Server/Args/Assignments.antt =====
-- Assignments to settings, from the environment and from the command line.
use transcription_api.Prelude.{
  Text, is_empty, ◌≡◌, refl, sym, ap, inl, inr, Option, none, some, List, [], ◌∷◌, ◌++◌, arith,
  if◌then◌else◌, Bool-cases, Option-cases, All,
}
use transcription_api.Prelude.Dict.{Dict}
use transcription_api.Server.DotEnv.{env}
use transcription_api.Server.Config.{ServerConfig, Flag, set_flag, load_env, ◌>>=◌}
use transcription_api.Server.Args.{parse_loop}
use transcription_api.Server.Args.Names.{
  flag_name, flag_of-flag_name, text_eq-flag_name, Flag_discrete,
}
use transcription_api.Server.Args.Values.{
  Reads, Value, setting, reading, setting-set_flag_self, setting-set_flag_ne, set_flag-Reads,
}

pub >>=-eq-some :
    {A B : Type 0} (m : Option A) (f : A → Option B) {b : B}
    → (m >>= f) ≡ some b
    → (a : A) × (m ≡ some a) × (f a ≡ some b)
>>=-eq-some none f h = cc
>>=-eq-some (some a) f h = (a, refl, h)

pub >>=-ext :
    {A B : Type 0} (m : Option A) (f g : A → Option B)
    → ((a : A) → f a ≡ g a)
    → (m >>= f) ≡ (m >>= g)
>>=-ext none f g h = refl
>>=-ext (some a) f g h = h a

pub some_inj : {A : Type 0} {a b : A} → some a ≡ some b → a ≡ b
some_inj h = cc

-- Texts for settings, the first one first.
abbrev pub Assignments : Type 0
Assignments = List (Flag × Text)

-- The last text for a setting.
abbrev pub last_of : Flag → Assignments → Option Text
last_of f [] = none
last_of f ((g, v) ∷ ss) = elim (last_of f ss) [
  | some w ↦ some w
  | none ↦ elim (Flag_discrete f g) [ yes _ ↦ some v | no _ ↦ none ]
]

-- The arguments that make some assignments.
abbrev pub arguments : Assignments → List Text
arguments [] = []
arguments ((f, v) ∷ ss) = flag_name f ∷ v ∷ arguments ss

-- The assignments that some variables make: those that are not empty.
abbrev pub given : Dict Text → List (Text × Flag) → Assignments
given vars [] = []
given vars ((name, f) ∷ rest) =
    if is_empty (env name vars) then given vars rest else (f, env name vars) ∷ given vars rest

module _ {F : Type 0} (stof : Text → Option F) where
  abbrev pub assign : Assignments → ServerConfig F → Option (ServerConfig F)
  assign [] c = some c
  assign ((f, v) ∷ ss) c = set_flag stof f v c >>= λ c'. assign ss c'

  -- The value of a setting behind some assignments to it.
  abbrev pub value_of : Flag → Option Text → Option (Value F) → Option (Value F)
  value_of f none old = old
  value_of f (some v) old = reading stof f v

  pub setting-assign :
      (ss : Assignments) (c c' : ServerConfig F) (f : Flag)
      → assign ss c ≡ some c'
      → setting f c' ≡ value_of f (last_of f ss) (setting f c)
  setting-assign [] c c' f h = ap (setting f) (some_inj (sym h))
  setting-assign ((g, v) ∷ ss) c c' f h =
      let (d, first, rest) = >>=-eq-some (set_flag stof g v c) (λ x. assign ss x) h in
      let later = setting-assign ss d c' f rest in
      elim (Option-cases (last_of f ss)) [
        | inr (w, again) ↦ ground (arith, later)
        | inl once ↦ elim (Flag_discrete f g) [
          | yes same ↦ ground (arith, later, setting-set_flag_self stof g v c d first)
          | no other ↦ ground (arith, later, setting-set_flag_ne stof g f v c d first other)
        ]
      ]

  -- What the environment sets is what its assignments set.
  pub load_env-assign :
      (vars : Dict Text) (rest : List (Text × Flag)) (c : ServerConfig F)
      → load_env stof vars rest c ≡ assign (given vars rest) c
  unfolding load_env
  load_env-assign vars [] c = refl
  load_env-assign vars ((name, f) ∷ rest) c = elim (Bool-cases (is_empty (env name vars))) [
    | inl unset ↦ rw (unset, load_env) (load_env-assign vars rest c)
    | inr set ↦
        rw (set, load_env)
          (>>=-ext (set_flag stof f (env name vars) c) _ _ (λ d. load_env-assign vars rest d))
  ]

  pub parse_loop-arguments :
      (ss : Assignments) (c c' : ServerConfig F) (rest : List Text)
      → assign ss c ≡ some c'
      → parse_loop stof c (arguments ss ++ rest) ≡ parse_loop stof c' rest
  unfolding parse_loop
  parse_loop-arguments [] c c' rest h =
      ap (λ (x : ServerConfig F). parse_loop stof x rest) (some_inj h)
  parse_loop-arguments ((f, v) ∷ ss) c c' rest h =
      let (d, first, more) = >>=-eq-some (set_flag stof f v c) (λ x. assign ss x) h in
      rw (text_eq-flag_name f, parse_loop)
        (rw (flag_of-flag_name f) (rw first (parse_loop-arguments ss d c' rest more)))

  pub assign-Reads :
      (ss : Assignments) (c : ServerConfig F)
      → All (Reads stof) ss
      → (c' : ServerConfig F) × (assign ss c ≡ some c')
  assign-Reads [] c r = (c, refl)
  assign-Reads ((f, v) ∷ ss) c (readable, r) =
      let (d, first) = set_flag-Reads stof f v c readable in
      let (c', more) = assign-Reads ss d r in (c', rw first more)
