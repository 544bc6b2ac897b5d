-- ===== src/Server/Args/Positional.antt =====
-- Arguments that are no option.
use transcription_api.Prelude.{
  Text, codes, text_eq, Text_discrete, ◌≡◌, refl, ap, false, Option, none, some, List, [], ◌∷◌,
  ◌++◌, arith, All,
}
use transcription_api.Prelude.Dict.{Dict}
use transcription_api.Float.{FloatOps}
use transcription_api.Server.DotEnv.{env}
use transcription_api.Server.Config.{ServerConfig, default_config, config_from_env, to_model_path}
use transcription_api.Server.Args.{flag_of, unknown, parse_loop, parse_args, plain}
use transcription_api.Server.Args.Names.{Flag_discrete}
use transcription_api.Server.Args.Values.{Reads, Value, text}
use transcription_api.Server.Args.Assignments.{
  Assignments, arguments, last_of, assign-Reads, parse_loop-arguments,
}
use transcription_api.Server.Args.Settings.{settings_end}

abbrev model_of : {F : Type 0} → Option (Value F) → Text
model_of (some (text t)) = t
model_of _ = []

module _ {F : Type 0} ⦃fl : FloatOps F⦄ where
  -- An argument that is no option, while the model path is another than ggml-base.bin.
  parse_loop-plain :
      (stof : Text → Option F) (c : ServerConfig F) (arg : Text) (rest : List Text)
      → text_eq arg (codes "--help") ≡ false
      → text_eq arg (codes "--thread-safe") ≡ false
      → flag_of arg ≡ none
      → text_eq c.model_path (codes "third_party/whisper.cpp/models/ggml-base.bin") ≡ false
      → parse_loop stof c (arg ∷ rest) ≡ unknown arg
  unfolding parse_loop plain
  parse_loop-plain stof c arg [] help safe option other = ground arith
  parse_loop-plain stof c arg (v ∷ rest) help safe option other = ground arith

  -- Let the environment be readable and have no MODEL_PATH, and let some options with values that can be
  -- read, none of them `--model`, come first. Then any argument behind them that is not the name of an
  -- option is rejected as unknown, whatever follows it: no model path is taken from it.
  pub positional_rejected :
      (stof : Text → Option F) (vars : Dict Text) (ss : Assignments) (c : ServerConfig F)
      (arg : Text) (rest : List Text)
      → config_from_env stof vars ≡ some c
      → All (Reads stof) ss
      → env (codes "MODEL_PATH") vars ≡ []
      → last_of to_model_path ss ≡ none
      → text_eq arg (codes "--help") ≡ false
      → text_eq arg (codes "--thread-safe") ≡ false
      → flag_of arg ≡ none
      → parse_args stof vars (arguments ss ++ arg ∷ rest) ≡ unknown arg
  unfolding parse_args default_config Text_discrete Flag_discrete
  positional_rejected stof vars ss c arg rest e r unset no_model help safe option =
      let (c', done) = assign-Reads stof ss c r in
      let path = ap model_of (settings_end stof vars ss c c' to_model_path e done) in
      rw (e, parse_args)
        (rw (parse_loop-arguments stof ss c c' (arg ∷ rest) done) (
          parse_loop-plain stof c' arg rest help safe option
            (rw path (rw no_model (rw unset refl)))))
