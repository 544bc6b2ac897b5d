-- ===== src/Float.antt =====
-- The arithmetic of `float`, of which the development knows no law: the program's code is modelled
-- over any type with these operations.
use transcription_api.Prelude.{ℤ, pos, pos_part, ℕ, ◌+◌, ◌-◌, ◌*◌, ◌/◌, Bool, ltb, if◌then◌else◌}

pub record FloatOps (F : Type 0) : Type 0 where
  -- the literal n / d, as 969 / 1000 for 0.969f
  pub literal : ℕ → ℕ → F
  pub of_int : ℤ → F
  -- the float of four bytes in memory
  pub of_bytes : ℕ → ℕ → ℕ → ℕ → F
  pub add : F → F → F
  pub sub : F → F → F
  pub mul : F → F → F
  pub quot : F → F → F
  pub abs : F → F
  -- `a < b`
  pub less : F → F → Bool
  -- `static_cast<int>(std::ceil(a))`
  pub ceil_int : F → ℤ

-- `std::max` and `std::min`, by their definition from `<`.
module _ {F : Type 0} ⦃fl : FloatOps F⦄ where
  abbrev pub fmax : F → F → F
  fmax a b = if fl.less a b then b else a

  abbrev pub fmin : F → F → F
  fmin a b = if fl.less b a then b else a

-- The integers with exact order, as a value that shows that the operations can be given.
instance abbrev pub coarse : FloatOps ℕ
coarse = record {
  literal = λ n d. n / d;
  of_int = pos_part;
  of_bytes = λ a b c d. a;
  add = λ a b. a + b;
  sub = λ a b. a - b;
  mul = λ a b. a * b;
  quot = λ a b. a / b;
  abs = λ a. a;
  less = ltb;
  ceil_int = pos;
}
