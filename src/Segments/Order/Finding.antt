-- ===== src/Segments/Order/Finding.antt =====
-- Rows found by a test, in a table whose ids are distinct.
use mathlib.Core.Option.{some-injective}
use optio_ai_assignment.Prelude.{
  String, Bool, true, false, ◌≡◌, sym, ap, subst, none, some, List, [], ◌∷◌, filter, find, has,
  distinct, ◌==◌, eq_iff, arith, Bool-cases, inl, inr,
}
use optio_ai_assignment.Database.{Segment}
use optio_ai_assignment.Database.Views.{segment_ids, find_segment_row}

pub find-holds {ℓ} :
    {A : Type ℓ} (p : A → Bool) (rows : List A) (s : A) → find p rows ≡ some s → p s ≡ true
find-holds p [] s h = absurd (ground arith)
find-holds p (r ∷ rows) s h = elim (Bool-cases (p r)) [
  | inl passes ↦ subst (λ x. p x ≡ true) (some-injective r s (rw passes at h)) passes
  | inr fails ↦ find-holds p rows s (rw fails at h)
]

-- The row with an id has that id.
pub find_segment_row-id :
    (rows : List Segment) (id : String) (s : Segment)
    → find_segment_row rows id ≡ some s
    → s.id ≡ id
find_segment_row-id rows id s h = (eq_iff s.id id).0 (find-holds (λ x. x.id == id) rows s h)

pub has-find :
    (p : Segment → Bool) (rows : List Segment) (s : Segment)
    → find p rows ≡ some s
    → has (segment_ids rows) s.id ≡ true
unfolding has
has-find p [] s h = absurd (ground arith)
has-find p (r ∷ rows) s h = elim (Bool-cases (p r)) [
  | inl passes ↦ rw (← some-injective r s (rw passes at h)) (ground (arith, eq_iff r.id r.id))
  | inr fails ↦ ground (arith, has-find p rows s (rw fails at h))
]

-- Where ids are distinct, a row that some test finds is the row of its id.
pub find-find_segment_row :
    (p : Segment → Bool) (rows : List Segment) (s : Segment)
    → distinct (segment_ids rows) ≡ true
    → find p rows ≡ some s
    → find_segment_row rows s.id ≡ some s
unfolding distinct
find-find_segment_row p [] s d h = absurd (ground arith)
find-find_segment_row p (r ∷ rows) s d h = elim (Bool-cases (p r)) [
  | inl passes ↦
      let e = some-injective r s (rw passes at h) in
      subst (λ x. find_segment_row (r ∷ rows) x.id ≡ some x) e (ground (arith, eq_iff r.id r.id))
  | inr fails ↦
      let later : find p rows ≡ some s = rw fails at h in
      ground (
        arith,
        find-find_segment_row p rows s (ground arith) later,
        has-find p rows s later,
        eq_iff r.id s.id,
      )
]

-- If no row passes a test, the row of any id fails it.
pub find-none :
    (p : Segment → Bool) (rows : List Segment) (id : String) (s : Segment)
    → find p rows ≡ none
    → find_segment_row rows id ≡ some s
    → p s ≡ false
find-none p [] id s h k = absurd (ground arith)
find-none p (r ∷ rows) id s h k = elim (Bool-cases (p r)) [
  | inl passes ↦ absurd (ground arith)
  | inr fails ↦ elim (Bool-cases (r.id == id)) [
    | inl here ↦ subst (λ x. p x ≡ false) (some-injective r s (rw here at k)) fails
    | inr there ↦ find-none p rows id s (rw fails at h) (rw there at k)
  ]
]

-- An id of the table has a row.
pub find_segment_row-total :
    (rows : List Segment) (id : String)
    → has (segment_ids rows) id ≡ true
    → (s : Segment) × (find_segment_row rows id ≡ some s)
unfolding has
find_segment_row-total [] id h = absurd (ground arith)
find_segment_row-total (r ∷ rows) id h = elim (Bool-cases (r.id == id)) [
  | inl here ↦ (r, rw here)
  | inr there ↦
      let (s, found) = find_segment_row-total rows id (ground arith) in (s, rw there found)
]

-- Selecting rows by a test keeps ids distinct, and keeps the row of an id.
pub has-filter_rows :
    (p : Segment → Bool) (rows : List Segment) (id : String)
    → has (segment_ids (filter p rows)) id ≡ true
    → has (segment_ids rows) id ≡ true
unfolding has
has-filter_rows p [] id h = h
has-filter_rows p (r ∷ rows) id h = ground (arith, has-filter_rows p rows id)

pub distinct-filter_rows :
    (p : Segment → Bool) (rows : List Segment)
    → distinct (segment_ids rows) ≡ true
    → distinct (segment_ids (filter p rows)) ≡ true
unfolding distinct
distinct-filter_rows p [] d = d
distinct-filter_rows p (r ∷ rows) d =
    ground (arith, distinct-filter_rows p rows, has-filter_rows p rows r.id)

pub find_segment_row-filter :
    (p : Segment → Bool) (rows : List Segment) (id : String) (s : Segment)
    → distinct (segment_ids rows) ≡ true
    → find_segment_row (filter p rows) id ≡ some s
    → (find_segment_row rows id ≡ some s) × (p s ≡ true)
unfolding distinct
find_segment_row-filter p [] id s d h = absurd (ground arith)
find_segment_row-filter p (r ∷ rows) id s d h = elim (Bool-cases (p r)) [
  | inl passes ↦ elim (Bool-cases (r.id == id)) [
    | inl here ↦
        let e : r ≡ s = some-injective r s (rw (passes, here) at h) in
        (rw here (ap some e), subst (λ x. p x ≡ true) e passes)
    | inr there ↦
        let (found, good) =
          find_segment_row-filter p rows id s (ground arith) (rw (passes, there) at h) in
        (rw there found, good)
  ]
  | inr fails ↦
      let (found, good) = find_segment_row-filter p rows id s (ground arith) (rw fails at h) in
      let apart : (r.id == id) ≡ false = ground (
        arith,
        has-find (λ x. x.id == id) rows s found,
        find_segment_row-id rows id s found,
        eq_iff r.id id,
      ) in
      (rw apart found, good)
]

pub find_segment_row-keep :
    (p : Segment → Bool) (rows : List Segment) (id : String) (s : Segment)
    → find_segment_row rows id ≡ some s
    → p s ≡ true
    → find_segment_row (filter p rows) id ≡ some s
find_segment_row-keep p [] id s h good = absurd (ground arith)
find_segment_row-keep p (r ∷ rows) id s h good = elim (Bool-cases (r.id == id)) [
  | inl here ↦
      let e : r ≡ s = some-injective r s (rw here at h) in
      let passes : p r ≡ true = subst (λ x. p x ≡ true) (sym e) good in
      rw (passes, here) (ap some e)
  | inr there ↦
      let later = find_segment_row-keep p rows id s (rw there at h) good in
      elim (Bool-cases (p r)) [ inl passes ↦ rw (passes, there) later | inr fails ↦ rw fails later ]
]
