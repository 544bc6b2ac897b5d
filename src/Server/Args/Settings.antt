-- ===== src/Server/Args/Settings.antt =====
-- The value of every setting: the command line over the environment over the default.
use transcription_api.Prelude.{
  Text, is_empty, ◌≡◌, refl, sym, ap, ◌∙◌, Option, none, some, List, [], ◌∷◌, append-nil, arith,
  if◌then◌else◌, All,
}
use transcription_api.Prelude.Dict.{Dict}
use transcription_api.Float.{FloatOps}
use transcription_api.Server.DotEnv.{env}
use transcription_api.Server.Config.{
  ServerConfig, Flag, default_config, config_from_env, env_settings,
}
use transcription_api.Server.Args.{configured, parse_loop, parse_args}
use transcription_api.Server.Args.Names.{Flag_discrete}
use transcription_api.Server.Args.Values.{Reads, setting}
use transcription_api.Server.Args.Assignments.{
  Assignments, last_of, arguments, given, assign, value_of, setting-assign, load_env-assign,
  parse_loop-arguments, assign-Reads,
}

-- The variable of a setting in a list of them.
abbrev pub variable_in : Flag → List (Text × Flag) → Option Text
variable_in f [] = none
variable_in f ((name, g) ∷ rest) = elim (Flag_discrete f g) [
  | yes _ ↦ some name
  | no _ ↦ variable_in f rest
]

-- No setting stands twice.
abbrev pub Single : List (Text × Flag) → Type 0
Single [] = Unit
Single ((name, g) ∷ rest) = (variable_in g rest ≡ none) × Single rest

-- The text that the environment has for a setting; an empty one counts for nothing.
abbrev pub from_env : Dict Text → Option Text → Option Text
from_env vars none = none
from_env vars (some name) = if is_empty (env name vars) then none else some (env name vars)

pub last_of-given :
    (vars : Dict Text) (f : Flag) (l : List (Text × Flag))
    → Single l
    → last_of f (given vars l) ≡ from_env vars (variable_in f l)
last_of-given vars f [] s = refl
last_of-given vars f ((name, g) ∷ rest) s = elim (Flag_discrete f g) [
  | yes same ↦ ground (arith, last_of-given vars f rest s.1)
  | no other ↦ ground (arith, last_of-given vars f rest s.1)
]

pub single : Single env_settings
unfolding Flag_discrete
single = (
  refl,
  (
    refl,
    (
      refl,
      (
        refl,
        (
          refl,
          (
            refl,
            (
              refl,
              (
                refl,
                (
                  refl,
                  (
                    refl,
                    (
                      refl,
                      (
                        refl,
                        (
                          refl,
                          (
                            refl,
                            (
                              refl,
                              (refl, (refl, (refl, (refl, (refl, (refl, (refl, (refl, tt)))))))),
                            ),
                          ),
                        ),
                      ),
                    ),
                  ),
                ),
              ),
            ),
          ),
        ),
      ),
    ),
  ),
)

module _ {F : Type 0} ⦃fl : FloatOps F⦄ where
  -- The settings of what the environment and some assignments make.
  pub settings_end :
      (stof : Text → Option F) (vars : Dict Text) (ss : Assignments) (c c' : ServerConfig F)
      (f : Flag)
      → config_from_env stof vars ≡ some c
      → assign stof ss c ≡ some c'
      → setting f c'
        ≡ value_of stof f (last_of f ss) (
            value_of stof f (from_env vars (variable_in f env_settings)) (setting f default_config))
  unfolding config_from_env
  settings_end stof vars ss c c' f e done =
      setting-assign stof ss c c' f done
      ∙ ap (value_of stof f (last_of f ss)) (
          setting-assign stof (given vars env_settings) default_config c f
            (sym (load_env-assign stof vars env_settings default_config) ∙ e)
          ∙ ap (λ o. value_of stof f o (setting f default_config))
              (last_of-given vars f env_settings single))

  -- Let the environment be readable, and let the arguments be any options with values, `--env-file` among
  -- them or not, whose numbers can be read, in any order and number. Then the arguments are accepted, and each setting has the value of its last
  -- option; without one, that of its variable, if that is not empty; and otherwise its default.
  pub parse_args-settings :
      (stof : Text → Option F) (vars : Dict Text) (ss : Assignments) (c : ServerConfig F)
      → config_from_env stof vars ≡ some c
      → All (Reads stof) ss
      → (c' : ServerConfig F) × (parse_args stof vars (arguments ss) ≡ configured c')
        × ((f : Flag)
            → setting f c'
              ≡ value_of stof f (last_of f ss) (
                  value_of stof f
                    (from_env vars (variable_in f env_settings))
                    (setting f default_config)))
  unfolding parse_args parse_loop
  parse_args-settings stof vars ss c e r =
      let (c', done) = assign-Reads stof ss c r in
      (
        c',
        rw (e, parse_args)
            (rw (← append-nil (arguments ss)) (parse_loop-arguments stof ss c c' [] done)),
        λ f. settings_end stof vars ss c c' f e done,
      )
