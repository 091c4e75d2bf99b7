-- ===== src/Database/Views.antt =====
-- What can be read off the tables, and the effect of inserts that skip duplicates and of deletes:
-- the words in which the queries' documented behaviour is stated.
use optio_ai_assignment.Prelude.{
  ℕ, ◌≤◌, String, Bool, true, false, not, ◌&&◌, ◌||◌, Option, List, [], ◌∷◌, ◌++◌, map, filter,
  find, has, ◌==◌, if◌then◌else◌,
}
use optio_ai_assignment.Shared.Json.{Fields}
use optio_ai_assignment.Database.{
  dynamic, static, Segment, SegmentMember, SegmentDependency, Customer, OutboxEvent, pending,
  published, ProcessedEvent,
}

abbrev pub is_dynamic : Segment → Bool
is_dynamic s = elim s.type [ dynamic ↦ true | static ↦ false ]

-- The customers of one segment, over the rows of `SegmentMember`.
unfoldable pub members_of : List SegmentMember → String → List String
members_of [] id = []
members_of (m ∷ rows) id =
    let rest = members_of rows id in if m.segment_id == id then m.customer_id ∷ rest else rest

-- `createMany` of members of one segment with `skipDuplicates`.
unfoldable pub insert_member : String → String → List SegmentMember → List SegmentMember
insert_member id c rows =
    if has (members_of rows id) c
    then rows
    else rows ++ record { segment_id = id; customer_id = c } ∷ []

unfoldable pub insert_members : String → List String → List SegmentMember → List SegmentMember
insert_members id [] rows = rows
insert_members id (c ∷ cs) rows = insert_members id cs (insert_member id c rows)

-- `deleteMany` of the members of one segment whose customer is listed.
unfoldable pub delete_members : String → List String → List SegmentMember → List SegmentMember
delete_members id cs rows = filter (λ m. not (m.segment_id == id && has cs m.customer_id)) rows

-- The parents of one segment, over the rows of `SegmentDependency`.
unfoldable pub parents_of : List SegmentDependency → String → List String
parents_of [] id = []
parents_of (d ∷ rows) id =
    let rest = parents_of rows id in if d.child_id == id then d.parent_id ∷ rest else rest

-- The children of one segment, over the rows of `SegmentDependency`.
unfoldable pub children_of : List SegmentDependency → String → List String
children_of [] id = []
children_of (d ∷ rows) id =
    let rest = children_of rows id in if d.parent_id == id then d.child_id ∷ rest else rest

-- `deleteMany` of the edges into one child whose parent is not listed.
unfoldable pub delete_dependencies :
    String → List String → List SegmentDependency → List SegmentDependency
delete_dependencies child keep rows =
    filter (λ d. not (d.child_id == child && not (has keep d.parent_id))) rows

-- `createMany` of edges into one child with `skipDuplicates`.
unfoldable pub insert_dependency : String → String → List SegmentDependency → List SegmentDependency
insert_dependency child p rows =
    if has (parents_of rows child) p
    then rows
    else rows ++ record { parent_id = p; child_id = child } ∷ []

unfoldable pub insert_dependencies :
    String → List String → List SegmentDependency → List SegmentDependency
insert_dependencies child [] rows = rows
insert_dependencies child (p ∷ ps) rows =
    insert_dependencies child ps (insert_dependency child p rows)

abbrev pub find_segment_row : List Segment → String → Option Segment
find_segment_row segments id = find (λ s. s.id == id) segments

abbrev pub segment_ids : List Segment → List String
segment_ids segments = map (λ s. s.id) segments

-- `update` of one row of `Segment`.
unfoldable pub replace_row : Segment → List Segment → List Segment
replace_row s [] = []
replace_row s (u ∷ rows) = (if u.id == s.id then s else u) ∷ replace_row s rows

-- `update({ where: { id }, data: { profile } })`
unfoldable pub set_profile : String → Fields → List Customer → List Customer
set_profile id profile [] = []
set_profile id profile (c ∷ rows) =
    (if c.id == id then record c { profile = profile } else c) ∷ set_profile id profile rows

abbrev pub customer_ids : List Customer → List String
customer_ids customers = map (λ c. c.id) customers

-- Rows of the outbox.
abbrev pub event_ids : List OutboxEvent → List String
event_ids rows = map (λ e. e.id) rows

abbrev pub is_pending : OutboxEvent → Bool
is_pending e = elim e.status [ pending ↦ true | published ↦ false ]

-- `update({ where: { id }, data: { status: 'PUBLISHED' } })`
unfoldable pub mark_published : String → List OutboxEvent → List OutboxEvent
mark_published id [] = []
mark_published id (e ∷ rows) =
    (if e.id == id then record e { status = published } else e) ∷ mark_published id rows

-- Ascending by the instant of creation.
abbrev pub IsSortedFrom : ℕ → List OutboxEvent → Type 0
IsSortedFrom low [] = Unit
IsSortedFrom low (e ∷ rows) = (low ≤ e.created_at) × IsSortedFrom e.created_at rows

-- Whether a consumer has claimed an event.
unfoldable pub is_claimed : List ProcessedEvent → String → String → Bool
is_claimed [] event_id consumer = false
is_claimed (p ∷ rows) event_id consumer =
    p.event_id == event_id && p.consumer_name == consumer || is_claimed rows event_id consumer
