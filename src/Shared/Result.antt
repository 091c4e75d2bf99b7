-- ===== src/Shared/Result.antt =====
-- What the services throw, one constructor for each message, and the results of code that throws.
-- A method that changes the database is an `Exec`: what was written before a throw stays written,
-- so the state comes back beside the error too.
use optio_ai_assignment.Prelude.{ℕ, String, List, ◌≡◌, refl, ap, ◌⊎◌, inl, inr}

-- What `validateRule` objects to at a node.
pub data Fault : Type 0 where
  too_deep not_an_object bad_metric bad_op bad_value bad_segment_id bad_children bad_kind : Fault

pub data Error : Type 0 where
  not_found : String → Error
  static_segment : String → Error
  self_reference : String → Error
  missing_membership : String → Error
  foreign_key : Error
  unresolvable : List String → Error
  bad_request : String → Error
  -- the path to the node, as the positions of the children that lead to it
  invalid_rule : List ℕ → Fault → Error
  already_exists : String → Error
  unknown_segments : List String → Error
  has_dependents : String → List String → Error
  -- an error that a handler caught and threw again with status 400
  evaluation_failed : Error → Error

pub data Result {ℓ} (A : Type ℓ) : Type ℓ where
  ok : A → Result A
  err : Error → Result A

abbrev pub bind {ℓ κ} : {A : Type ℓ} {B : Type κ} → Result A → (A → Result B) → Result B
bind (ok a) f = f a
bind (err e) f = err e

abbrev pub Exec {ℓ} : Type ℓ → Type ℓ → Type ℓ
Exec S A = S → Result A × S

module _ {ℓ} {S A : Type ℓ} where
  abbrev pub pure : A → Exec S A
  pure a s = (ok a, s)

  abbrev pub throw : Error → Exec S A
  throw e s = (err e, s)

  abbrev pub lift : Result A → Exec S A
  lift r s = (r, s)

  abbrev pub gets : (S → A) → Exec S A
  gets f s = (ok (f s), s)

module _ {ℓ} {S A B : Type ℓ} where
  abbrev pub continue : Result A → (A → Exec S B) → S → Result B × S
  continue (ok a) f s = f a s
  continue (err e) f s = (err e, s)

  infixl 10 ◌>>=◌ ◌>>◌
  abbrev pub ◌>>=◌ : Exec S A → (A → Exec S B) → Exec S B
  ◌>>=◌ m f s = continue (m s).0 f (m s).1

  abbrev pub ◌>>◌ : Exec S A → Exec S B → Exec S B
  m >> n = m >>= λ _. n

result_value {ℓ} : {A : Type ℓ} → A → Result A → A
result_value d (ok a) = a
result_value d (err e) = d

pub ok-injective {ℓ} : {A : Type ℓ} {a b : A} → ok a ≡ ok b → a ≡ b
unfolding result_value
ok-injective {a} p = ap (result_value a) p

-- To split on a computed result and keep the equation.
pub Result-cases {ℓ} :
    {A : Type ℓ} (r : Result A) → ((a : A) × (r ≡ ok a)) ⊎ ((e : Error) × (r ≡ err e))
Result-cases (ok a) = inl (a, refl)
Result-cases (err e) = inr (e, refl)
