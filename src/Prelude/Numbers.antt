-- ===== src/Prelude/Numbers.antt =====
-- JavaScript numbers where the program only floors and clamps them: the floor is kept, and whether
-- the number is finite.
use Prim.Native.Nat.{ℕ}

-- `nonneg n` has the floor `n`, and `neg n` the floor `-(n + 1)`. `not_finite` is NaN (also the
-- value of `Number(undefined)`) or an infinity.
pub data Number : Type 0 where
  not_finite : Number
  nonneg : ℕ → Number
  neg : ℕ → Number
