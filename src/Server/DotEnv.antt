-- ===== src/Server/DotEnv.antt =====
-- src/server.cpp: `loadDotEnv`, `env` and `extractEnvFile`. A file is its bytes, `none` if it cannot be
-- opened; no byte of it is 0.
use transcription_api.Prelude.{
  Text, codes, text_eq, is_empty, Text_discrete, ℕ, ◌≡◌, ◌∙◌, inl, inr, ◌&&◌, ◌||◌, Option, none,
  some, List, [], ◌∷◌, ◌++◌, arith, ◌==◌, if◌then◌else◌, Option-cases,
}
use transcription_api.Prelude.Dict.{Dict, lookup, insert, lookup-insert_self, lookup-insert_ne}

-- The lines that `std::getline` takes in turn.
unfoldable pub lines_from : Text → Text → List Text
lines_from l [] = if is_empty l then [] else l ∷ []
lines_from l (c ∷ s) =
    let same = lines_from (l ++ c ∷ []) s in
    let fresh = lines_from [] s in if c == 10 then l ∷ fresh else same

-- `line.pop_back()` on a last '\r'.
unfoldable pub drop_return : Text → Text
drop_return [] = []
drop_return (c ∷ []) = if c == 13 then [] else c ∷ []
drop_return (c ∷ d ∷ s) = c ∷ drop_return (d ∷ s)

-- The parts before and behind the first '='.
unfoldable pub split_eq : Text → Option (Text × Text)
split_eq [] = none
split_eq (c ∷ s) =
    let rest = split_eq s in
    if c == b'='
    then some ([], s)
    else elim rest [ none ↦ none | some (key, value) ↦ some (c ∷ key, value) ]

-- The last byte, and the text before it.
abbrev pub unsnoc : Text → Option (Text × ℕ)
unsnoc [] = none
unsnoc (c ∷ s) = elim (unsnoc s) [ none ↦ some ([], c) | some (t, d) ↦ some (c ∷ t, d) ]

-- A pair of equal quotes around the value is taken off.
unfoldable pub unquote : Text → Text
unquote [] = []
unquote (q ∷ s) = elim (unsnoc s) [
  | none ↦ q ∷ s
  | some (inner, last) ↦ if (q == b'"' || q == 39) && last == q then inner else q ∷ s
]

-- What one line assigns, if anything.
unfoldable pub assignment : Text → Option (Text × Text)
unfolding drop_return
assignment line0 = elim (drop_return line0) [
  | [] ↦ none
  | c ∷ s ↦ if c == b'#' then none else elim (split_eq (c ∷ s)) [
    | none ↦ none
    | some ([], value) ↦ none
    | some (k ∷ key, value) ↦ some (k ∷ key, unquote value)
  ]
]

-- The body of the loop: a variable that is set stays as it is.
unfoldable pub load_line : Text → Dict Text → Dict Text
unfolding assignment
load_line line vars = elim (assignment line) [
  | none ↦ vars
  | some (key, value) ↦ elim (lookup key vars) [ none ↦ insert key value vars | some v ↦ vars ]
]

unfoldable pub load_lines : List Text → Dict Text → Dict Text
load_lines [] vars = vars
load_lines (l ∷ ls) vars = load_lines ls (load_line l vars)

unfoldable pub load_dot_env : Option Text → Dict Text → Dict Text
unfolding load_lines lines_from
load_dot_env none vars = vars
load_dot_env (some bytes) vars = load_lines (lines_from [] bytes) vars

-- `env`: a variable that is not set reads as the empty text.
unfoldable pub env : Text → Dict Text → Text
env key vars = elim (lookup key vars) [ none ↦ [] | some v ↦ v ]

-- `extractEnvFile`, on the arguments behind the program's name.
unfoldable pub extract_env_file : List Text → Text
extract_env_file [] = codes ".env"
extract_env_file (a ∷ []) = codes ".env"
extract_env_file (a ∷ b ∷ rest) =
    let later = extract_env_file (b ∷ rest) in if text_eq a (codes "--env-file") then b else later

-- The value that some lines give a variable: that of the first line that assigns it.
abbrev pub first_value : Text → List Text → Option Text
first_value key [] = none
first_value key (l ∷ ls) = elim (assignment l) [
  | none ↦ first_value key ls
  | some (k, v) ↦ if text_eq k key then some v else first_value key ls
]

abbrev pub or_else : Option Text → Option Text → Option Text
or_else none y = y
or_else (some v) y = some v

load_line-lookup :
    (key line : Text) (ls : List Text) (vars : Dict Text)
    → or_else (lookup key (load_line line vars)) (first_value key ls)
      ≡ or_else (lookup key vars) (first_value key (line ∷ ls))
unfolding load_line
load_line-lookup key line ls vars = elim (Option-cases (assignment line)) [
  | inl nothing ↦ ground arith
  | inr ((k, v), set) ↦ elim (Option-cases (lookup k vars)) [
    | inl missing ↦ elim (Text_discrete k key) [
      | yes same ↦ ground (arith, lookup-insert_self k v vars)
      | no other ↦ ground (arith, lookup-insert_ne key k v vars)
    ]
    | inr (w, there) ↦ ground arith
  ]
]

load_lines-lookup :
    (key : Text) (ls : List Text) (vars : Dict Text)
    → lookup key (load_lines ls vars) ≡ or_else (lookup key vars) (first_value key ls)
unfolding load_lines
load_lines-lookup key [] vars = elim (Option-cases (lookup key vars)) [
  | inl missing ↦ ground arith
  | inr (v, set) ↦ ground arith
]
load_lines-lookup key (l ∷ ls) vars =
    load_lines-lookup key ls (load_line l vars) ∙ load_line-lookup key l ls vars

-- Behind the file every variable has the value that it had before, where it was set; otherwise the
-- value of the first line of the file that assigns it; and otherwise it is not set.
pub load_dot_env_lem :
    (key bytes : Text) (vars : Dict Text)
    → lookup key (load_dot_env (some bytes) vars)
      ≡ or_else (lookup key vars) (first_value key (lines_from [] bytes))
unfolding load_dot_env
load_dot_env_lem key bytes vars = load_lines-lookup key (lines_from [] bytes) vars
