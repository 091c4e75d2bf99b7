-- ===== src/Prelude/Counting.antt =====
-- Counting the elements of sets.
use Prim.Native.Nat.{◌+◌, ◌≤◌}
use Prim.Native.String.{String}
use mathlib.Core.Path.{◌≡◌, sym, ◌∙◌}
use mathlib.Core.Bool.{true, not}
use mathlib.Core.List.{List, [], ◌∷◌}
use native.Mathlib.Omega.{arith}
use text.Mathlib.Text.{◌==◌}
use text.Mathlib.TextEquality.{eq_iff}
use optio_ai_assignment.Prelude.Lists.{length, filter, length-filter-le}
use optio_ai_assignment.Prelude.Sets.{has, distinct, has-filter}

abbrev without : String → List String → List String
without x = filter (λ y. not (x == y))

length-without :
    (x : String) (ys : List String) → has ys x ≡ true → length (without x ys) + 1 ≤ length ys
unfolding has
length-without x [] h = absurd (ground arith)
length-without x (y ∷ ys) h =
    ground
      (arith, length-without x ys, length-filter-le (λ z. not (x == z)) ys, eq_iff x y, eq_iff y x)

-- A set whose elements all lie in a list is no longer than the list.
pub length-le_of_subset :
    (xs ys : List String)
    → distinct xs ≡ true
    → ((x : String) → has xs x ≡ true → has ys x ≡ true)
    → length xs ≤ length ys
unfolding distinct has
length-le_of_subset [] ys d h = omega arith
length-le_of_subset (x ∷ xs) ys d h =
    let there : has ys x ≡ true = ground (arith, h x, eq_iff x x) in
    let rest : length xs ≤ length (without x ys) =
      length-le_of_subset xs (without x ys) (ground arith)
        (λ z m. ground (arith, h z, has-filter (λ y. not (x == y)) ys z, eq_iff x z)) in
    omega (arith, rest, length-without x ys there)

-- Two sets with the same elements have the same number of them.
pub length-eq_of_same :
    (xs ys : List String)
    → distinct xs ≡ true
    → distinct ys ≡ true
    → ((x : String) → has xs x ≡ has ys x)
    → length xs ≡ length ys
length-eq_of_same xs ys d e same = omega (
  arith,
  length-le_of_subset xs ys d (λ x m. sym (same x) ∙ m),
  length-le_of_subset ys xs e (λ x m. same x ∙ m),
)
