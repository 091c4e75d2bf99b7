-- ===== src/System/History.antt =====
-- The table `SegmentDelta` as a log: replayed from the start, it gives the members of every dynamic
-- segment.
use optio_ai_assignment.Prelude.{
  String, Bool, true, false, not, ◌&&◌, ◌||◌, ◌≡◌, refl, ap, ◌∙◌, some, List, [], ◌∷◌, ◌++◌, map,
  filter, has, ◌==◌, eq_iff, arith, if◌then◌else◌, Bool-cases, inl, inr,
}
use optio_ai_assignment.Database.{
  Segment, SegmentMember, SegmentDelta, DeltaChange, add, remove, Tables,
}
use optio_ai_assignment.Database.Views.{is_dynamic, segment_ids, find_segment_row, members_of}
use optio_ai_assignment.Segments.Evaluation.{delta_rows}
use optio_ai_assignment.Segments.Evaluation.Pass.{is_in}

abbrev is_add : DeltaChange → Bool
is_add add = true
is_add remove = false

-- Whether the customer is in the segment after the rows of the log, read in order.
unfoldable pub replay : List SegmentDelta → String → String → Bool → Bool
replay [] id c was = was
replay (d ∷ rows) id c was =
    replay rows id c (if d.segment_id == id && d.customer_id == c then is_add d.change else was)

replay-append :
    (xs ys : List SegmentDelta) (id c : String) (was : Bool)
    → replay (xs ++ ys) id c was ≡ replay ys id c (replay xs id c was)
unfolding replay
replay-append [] ys id c was = refl
replay-append (d ∷ xs) ys id c was = replay-append xs ys id c _

replay-added :
    (id batch_id : String) (cs : List String) (j c : String) (was : Bool)
    → replay
        (map
          (λ x. record { segment_id = id; customer_id = x; change = add; batch_id = batch_id })
          cs)
        j
        c
        was
      ≡ (was || id == j && has cs c)
unfolding replay has
replay-added id batch_id [] j c was = ground arith
replay-added id batch_id (x ∷ cs) j c was =
    replay-added id batch_id cs j c (if id == j && x == c then true else was) ∙ ground arith

replay-removed :
    (id batch_id : String) (cs : List String) (j c : String) (was : Bool)
    → replay
        (map
          (λ x. record { segment_id = id; customer_id = x; change = remove; batch_id = batch_id })
          cs)
        j
        c
        was
      ≡ (was && not (id == j && has cs c))
unfolding replay has
replay-removed id batch_id [] j c was = ground arith
replay-removed id batch_id (x ∷ cs) j c was =
    replay-removed id batch_id cs j c (if id == j && x == c then false else was) ∙ ground arith

-- The rows of one pass, read after the older ones.
pub replay-pass :
    (rows : List SegmentDelta) (id batch_id : String) (added removed : List String) (j c : String)
    → replay (rows ++ delta_rows id batch_id added removed) j c false
      ≡ ((replay rows j c false || id == j && has added c) && not (id == j && has removed c))
replay-pass rows id batch_id added removed j c =
    replay-append rows (delta_rows id batch_id added removed) j c false
    ∙ replay-append
        (map (λ x. record { segment_id = id; customer_id = x; change = add; batch_id = batch_id })
          added)
        _ j c _
    ∙ replay-removed id batch_id removed j c _
    ∙ ap (λ b. b && not (id == j && has removed c)) (replay-added id batch_id added j c _)

pub replay-deleted :
    (id : String) (rows : List SegmentDelta) (j c : String) (was : Bool)
    → replay (filter (λ d. not (d.segment_id == id)) rows) j c was
      ≡ (if j == id then was else replay rows j c was)
unfolding replay
replay-deleted id [] j c was = ground arith
replay-deleted id (d ∷ rows) j c was = elim (Bool-cases (d.segment_id == id)) [
  | inl gone ↦
      let apart : (j == id) ≡ false → (d.segment_id == j) ≡ false =
        λ other. ground (arith, eq_iff d.segment_id id, eq_iff d.segment_id j, eq_iff j id) in
      rw gone (replay-deleted id rows j c was ∙ ground (arith, apart))
  | inr kept ↦
      let apart : (j == id) ≡ true → (d.segment_id == j) ≡ false =
        λ same. ground (arith, eq_iff d.segment_id id, eq_iff d.segment_id j, eq_iff j id) in
      rw kept (
        replay-deleted id rows j c
          (if d.segment_id == j && d.customer_id == c then is_add d.change else was)
        ∙ ground (arith, apart))
]

pub members_of-deleted :
    (id : String) (rows : List SegmentMember) (j c : String)
    → has (members_of (filter (λ m. not (m.segment_id == id)) rows) j) c
      ≡ (has (members_of rows j) c && not (j == id))
unfolding members_of has
members_of-deleted id [] j c = refl
members_of-deleted id (m ∷ rows) j c = ground (
  arith,
  members_of-deleted id rows j c,
  eq_iff m.segment_id id,
  eq_iff m.segment_id j,
  eq_iff j id,
)

-- The members of every dynamic segment are those that the log gives, and a segment that is not there
-- has neither members nor a past.
pub record IsRecorded (t : Tables) : Type 0 where
  pub recorded :
      (id c : String) (s : Segment)
      → find_segment_row t.segments id ≡ some s
      → is_dynamic s ≡ true
      → is_in t id c ≡ replay t.deltas id c false
  pub nobody : (id c : String) → has (segment_ids t.segments) id ≡ false → is_in t id c ≡ false
  pub nothing :
      (id c : String) → has (segment_ids t.segments) id ≡ false → replay t.deltas id c false ≡ false
