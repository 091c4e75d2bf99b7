-- ===== src/Segments/Dependency/Laws.antt =====
-- What the dependency service computes.
use optio_ai_assignment.Prelude.{
  String, true, ◌||◌, ◌≡◌, refl, List, [], has, distinct, arith, has-add, distinct-add,
}
use optio_ai_assignment.Shared.Rule.{SegmentRule, compare, in_segment, and, Rules, nil, cons}
use optio_ai_assignment.Segments.Evaluator.Meaning.{refers, any_refers}
use optio_ai_assignment.Segments.Dependency.{collect_parent_ids, collect_from}

mutual
  unfolding collect_parent_ids refers

  has-collect_aux :
      (rule : SegmentRule) (acc : List String) (id : String)
      → has (collect_parent_ids rule acc) id ≡ (has acc id || refers rule id)
  has-collect_aux (compare metric op value) acc id = ground arith
  has-collect_aux (in_segment segment_id) acc id = has-add acc segment_id id
  has-collect_aux (and children) acc id = has-collect_from children acc id

  has-collect_from :
      (children : Rules) (acc : List String) (id : String)
      → has (collect_from children acc) id ≡ (has acc id || any_refers children id)
  has-collect_from nil acc id = ground arith
  has-collect_from (cons child rest) acc id =
      ground (
        arith,
        has-collect_from rest (collect_parent_ids child acc) id,
        has-collect_aux child acc id,
      )

mutual
  unfolding collect_parent_ids

  distinct-collect_aux :
      (rule : SegmentRule) (acc : List String)
      → distinct acc ≡ true
      → distinct (collect_parent_ids rule acc) ≡ true
  distinct-collect_aux (compare metric op value) acc d = d
  distinct-collect_aux (in_segment segment_id) acc d = distinct-add acc segment_id d
  distinct-collect_aux (and children) acc d = distinct-collect_from children acc d

  distinct-collect_from :
      (children : Rules) (acc : List String)
      → distinct acc ≡ true
      → distinct (collect_from children acc) ≡ true
  distinct-collect_from nil acc d = d
  distinct-collect_from (cons child rest) acc d =
      distinct-collect_from rest _ (distinct-collect_aux child acc d)

-- The collected set holds exactly the segments that the rule refers to, each once.
pub collect_parent_ids-refers :
    (rule : SegmentRule)
    → ((id : String) → has (collect_parent_ids rule []) id ≡ refers rule id)
      × (distinct (collect_parent_ids rule []) ≡ true)
unfolding has distinct
collect_parent_ids-refers rule =
    ((λ id. has-collect_aux rule [] id), distinct-collect_aux rule [] refl)
