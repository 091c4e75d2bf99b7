-- ===== src/Prelude/Sets.antt =====
-- `Set<string>` as the list of its elements in insertion order, and `Array.prototype.includes`.

use Prim.Native.String.{String}
use mathlib.Core.Path.{◌≡◌, refl}
use mathlib.Core.Bool.{Bool, true, false, not, ◌&&◌, ◌||◌}
use mathlib.Core.List.{List, [], ◌∷◌, ◌++◌}
use native.Mathlib.Omega.{arith}
use text.Mathlib.Text.{◌==◌}
use text.Mathlib.TextEquality.{eq_iff}
use optio_ai_assignment.Prelude.Tests.{if◌then◌else◌}
use optio_ai_assignment.Prelude.Lists.{filter, all}

-- `xs.includes(x)`, `set.has(x)`
unfoldable pub has : List String → String → Bool
has [] x = false
has (y ∷ ys) x = y == x || has ys x

-- `set.add(x)`
unfoldable pub add : List String → String → List String
add xs x = if has xs x then xs else xs ++ x ∷ []

-- `new Set(array)`
unfoldable pub to_set_onto : List String → List String → List String
to_set_onto acc [] = acc
to_set_onto acc (x ∷ xs) = to_set_onto (add acc x) xs

-- No element stands twice.
unfoldable pub distinct : List String → Bool
unfolding has
distinct [] = true
distinct (x ∷ xs) = not (has xs x) && distinct xs

pub has-append : (xs ys : List String) (x : String) → has (xs ++ ys) x ≡ (has xs x || has ys x)
unfolding has
has-append [] ys x = refl
has-append (y ∷ xs) ys x = ground (arith, has-append xs ys x)

pub has-filter :
    (p : String → Bool) (xs : List String) (x : String) → has (filter p xs) x ≡ (has xs x && p x)
unfolding has
has-filter p [] x = refl
has-filter p (y ∷ xs) x = ground (arith, has-filter p xs x, eq_iff y x)

pub has-add : (xs : List String) (y x : String) → has (add xs y) x ≡ (has xs x || y == x)
unfolding add has
has-add xs y x = ground (arith, has-append xs (y ∷ []) x, eq_iff y x)

pub has-to_set_onto :
    (acc xs : List String) (x : String) → has (to_set_onto acc xs) x ≡ (has acc x || has xs x)
unfolding to_set_onto has
has-to_set_onto acc [] x = ground arith
has-to_set_onto acc (y ∷ xs) x = ground (arith, has-to_set_onto (add acc y) xs x, has-add acc y x)

pub distinct-snoc :
    (xs : List String) (x : String)
    → has xs x ≡ false
    → distinct xs ≡ true
    → distinct (xs ++ x ∷ []) ≡ true
unfolding distinct
distinct-snoc [] x h d = refl
distinct-snoc (y ∷ xs) x h d =
    ground (arith, distinct-snoc xs x, has-append xs (x ∷ []) y, eq_iff x y, eq_iff y x)

pub distinct-append :
    (xs ys : List String)
    → distinct xs ≡ true
    → distinct ys ≡ true
    → ((x : String) → has xs x ≡ true → has ys x ≡ false)
    → distinct (xs ++ ys) ≡ true
unfolding distinct has
distinct-append [] ys d e apart = e
distinct-append (x ∷ xs) ys d e apart = ground (
  arith,
  distinct-append xs ys (ground arith) e (λ z m. apart z (ground arith)),
  has-append xs ys x,
  apart x (ground (arith, eq_iff x x)),
)

pub distinct-add : (xs : List String) (x : String) → distinct xs ≡ true → distinct (add xs x) ≡ true
unfolding add
distinct-add xs x d = ground (arith, distinct-snoc xs x)

pub distinct-to_set_onto :
    (acc xs : List String) → distinct acc ≡ true → distinct (to_set_onto acc xs) ≡ true
unfolding to_set_onto
distinct-to_set_onto acc [] d = d
distinct-to_set_onto acc (x ∷ xs) d = distinct-to_set_onto (add acc x) xs (distinct-add acc x d)

pub distinct-filter :
    (p : String → Bool) (xs : List String) → distinct xs ≡ true → distinct (filter p xs) ≡ true
unfolding distinct
distinct-filter p [] d = refl
distinct-filter p (x ∷ xs) d = ground (arith, distinct-filter p xs, has-filter p xs x)

-- `every` over a list of names, read at one of them.
pub all_at :
    (p : String → Bool) (xs : List String) (x : String)
    → all p xs ≡ true
    → has xs x ≡ true
    → p x ≡ true
unfolding has
all_at p (y ∷ xs) x h m = ground (arith, all_at p xs x, eq_iff y x)
all_at p [] x h m = ground arith

pub all_intro :
    (p : String → Bool) (xs : List String)
    → ((x : String) → has xs x ≡ true → p x ≡ true)
    → all p xs ≡ true
unfolding has
all_intro p [] h = refl
all_intro p (y ∷ xs) h = ground (arith, h y, eq_iff y y, all_intro p xs (λ x m. h x (ground arith)))

-- No element is left out exactly when nothing is in the list.
pub has-nil : (xs : List String) → ((x : String) → has xs x ≡ false) → xs ≡ []
unfolding has
has-nil [] h = refl
has-nil (y ∷ xs) h = ground (arith, h y, eq_iff y y)

pub ruleset set_laws = (has-append, has-filter, has-add, has-to_set_onto)
