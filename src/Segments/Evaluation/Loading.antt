-- ===== src/Segments/Evaluation/Loading.antt =====
-- The parent memberships that a pass loads are those of the member table.
use optio_ai_assignment.Prelude.{
  String, true, ◌||◌, ◌≡◌, refl, some, List, [], ◌∷◌, filter, has, add, ◌==◌, eq_iff, arith,
  has-add, if◌then◌else◌,
}
use optio_ai_assignment.Database.{SegmentMember, Tables}
use optio_ai_assignment.Database.Views.{members_of}
use optio_ai_assignment.Database.Prisma.{Prisma}
use optio_ai_assignment.Segments.Evaluator.{Memberships, get}
use optio_ai_assignment.Segments.Evaluation.{add_row, add_rows, empty_sets, load_parent_memberships}

get-add_row :
    (m : Memberships) (row : SegmentMember) (id : String) (members : List String)
    → get m id ≡ some members
    → get (add_row m row) id
      ≡ some (if id == row.segment_id then add members row.customer_id else members)
unfolding get add_row
get-add_row [] row id members h = absurd (ground arith)
get-add_row ((k, ms) ∷ m) row id members h = ground (
  arith,
  get-add_row m row id members,
  eq_iff k id,
  eq_iff k row.segment_id,
  eq_iff id row.segment_id,
)

-- Each loaded set grows by the rows of its segment.
has-add_rows :
    (rows : List SegmentMember) (m : Memberships) (id : String) (members : List String) (c : String)
    → get m id ≡ some members
    → (after : List String) × (get (add_rows m rows) id ≡ some after)
      × (has after c ≡ (has members c || has (members_of rows id) c))
unfolding add_rows members_of has
has-add_rows [] m id members c h = (members, h, ground arith)
has-add_rows (row ∷ rows) m id members c h =
    let now : List String = if id == row.segment_id then add members row.customer_id else members in
    let (after, found, same) =
      has-add_rows rows (add_row m row) id now c (get-add_row m row id members h) in
    (
      after,
      found,
      ground (
        arith,
        has-add members row.customer_id c,
        eq_iff id row.segment_id,
        eq_iff row.segment_id id,
      ),
    )

get-empty_sets :
    (ids : List String) (id : String) → has ids id ≡ true → get (empty_sets ids) id ≡ some []
unfolding get has
get-empty_sets [] id h = absurd (ground arith)
get-empty_sets (k ∷ ids) id h = ground (arith, get-empty_sets ids id, eq_iff k id)

members_of-filter :
    (ids : List String) (rows : List SegmentMember) (id c : String)
    → has ids id ≡ true
    → has (members_of (filter (λ m. has ids m.segment_id) rows) id) c ≡ has (members_of rows id) c
unfolding members_of has
members_of-filter ids [] id c h = refl
members_of-filter ids (m ∷ rows) id c h =
    ground (arith, members_of-filter ids rows id c, eq_iff m.segment_id id)

module _ ⦃prisma : Prisma⦄ where
  -- For each segment that is asked for, a set is loaded, and it holds the members of the segment.
  pub loaded-members :
      (ids : List String) (t : Tables) (id c : String)
      → has ids id ≡ true
      → (members : List String) × (get (load_parent_memberships ids t) id ≡ some members)
        × (has members c ≡ has (members_of t.members id) c)
  unfolding load_parent_memberships has
  loaded-members [] t id c h = absurd (ground arith)
  loaded-members (k ∷ ids) t id c h =
      let (after, found, same) =
        has-add_rows (prisma.find_members_in t (k ∷ ids)) (empty_sets (k ∷ ids)) id [] c
          (get-empty_sets (k ∷ ids) id h) in
      (
        after,
        found,
        rw (same, prisma.find_members_in_lem t (k ∷ ids))
            (members_of-filter (k ∷ ids) t.members id c h),
      )
