-- ===== src/Number.antt =====
-- JavaScript's numbers as far as the rule engine reads them: comparison, equality, finiteness.
-- Every finite double is a whole multiple of 2^-1074, the least positive double, and `finite n`
-- is n such units; the two zeros compare equal and are one value here.
use optio_ai_assignment.Prelude.{ℕ, ◌*◌, ◌^◌, Bool, true, false}
use optio_ai_assignment.Prelude.Int.{ℤ, pos, le_ℤ, lt_ℤ}

pub data Number : Type 0 where
  finite : ℤ → Number
  infinity neg_infinity nan : Number

-- The double that is the natural number n; exact for n up to 2^53.
unfoldable pub of_ℕ : ℕ → Number
of_ℕ n = finite (pos (n * 2 ^ 1074))

-- `a < b`
unfoldable pub lt : Number → Number → Bool
unfolding lt_ℤ
lt (finite a) (finite b) = lt_ℤ a b
lt (finite a) infinity = true
lt neg_infinity (finite b) = true
lt neg_infinity infinity = true
lt _ _ = false

-- `a <= b`
unfoldable pub le : Number → Number → Bool
unfolding le_ℤ
le (finite a) (finite b) = le_ℤ a b
le (finite a) infinity = true
le infinity infinity = true
le neg_infinity (finite b) = true
le neg_infinity infinity = true
le neg_infinity neg_infinity = true
le _ _ = false

-- `a === b`
unfoldable pub strict_eq : Number → Number → Bool
unfolding le
strict_eq a b = elim (le a b) [ true ↦ le b a | false ↦ false ]

-- `Number.isFinite(a)`
unfoldable pub is_finite : Number → Bool
is_finite (finite a) = true
is_finite _ = false

-- `Number.isNaN(a)`
unfoldable pub is_nan : Number → Bool
is_nan nan = true
is_nan _ = false
