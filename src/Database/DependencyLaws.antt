-- ===== src/Database/DependencyLaws.antt =====
-- Inserts and deletes of dependency edges, as a reader of one child sees them.
use optio_ai_assignment.Prelude.{
  String, true, not, ◌&&◌, ◌||◌, ◌≡◌, refl, List, [], ◌∷◌, ◌++◌, has, ◌==◌, eq_iff, arith,
}
use optio_ai_assignment.Database.{SegmentDependency}
use optio_ai_assignment.Database.Views.{
  parents_of, children_of, insert_dependency, insert_dependencies, delete_dependencies,
}

parents_of-append :
    (xs ys : List SegmentDependency) (j p : String)
    → has (parents_of (xs ++ ys) j) p ≡ (has (parents_of xs j) p || has (parents_of ys j) p)
unfolding parents_of has
parents_of-append [] ys j p = refl
parents_of-append (d ∷ xs) ys j p = ground (arith, parents_of-append xs ys j p)

has-insert_edge :
    (id p' : String) (rows : List SegmentDependency) (j p : String)
    → has (parents_of (insert_dependency id p' rows) j) p
      ≡ (has (parents_of rows j) p || id == j && p' == p)
unfolding insert_dependency parents_of has
has-insert_edge id p' rows j p = ground (
  arith,
  parents_of-append rows (record { parent_id = p'; child_id = id } ∷ []) j p,
  eq_iff id j,
  eq_iff p' p,
)

-- After the insert the listed segments are parents of the child, and nothing else changed.
pub has-insert_dependencies :
    (id : String) (ps : List String) (rows : List SegmentDependency) (j p : String)
    → has (parents_of (insert_dependencies id ps rows) j) p
      ≡ (has (parents_of rows j) p || id == j && has ps p)
unfolding insert_dependencies has
has-insert_dependencies id [] rows j p = ground arith
has-insert_dependencies id (p' ∷ ps) rows j p = ground (
  arith,
  has-insert_dependencies id ps (insert_dependency id p' rows) j p,
  has-insert_edge id p' rows j p,
)

-- After the delete the child has no parent that is not listed, and nothing else changed.
pub has-delete_dependencies :
    (id : String) (keep : List String) (rows : List SegmentDependency) (j p : String)
    → has (parents_of (delete_dependencies id keep rows) j) p
      ≡ (has (parents_of rows j) p && not (id == j && not (has keep p)))
unfolding delete_dependencies parents_of has
has-delete_dependencies id keep [] j p = refl
has-delete_dependencies id keep (d ∷ rows) j p = ground (
  arith,
  has-delete_dependencies id keep rows j p,
  eq_iff d.child_id id,
  eq_iff d.child_id j,
  eq_iff id j,
  eq_iff d.parent_id p,
)

-- The two ways to read an edge agree.
pub children-parents :
    (rows : List SegmentDependency) (parent child : String)
    → has (children_of rows parent) child ≡ has (parents_of rows child) parent
unfolding children_of parents_of has
children-parents [] parent child = refl
children-parents (d ∷ rows) parent child =
    ground (
      arith,
      children-parents rows parent child,
      eq_iff d.parent_id parent,
      eq_iff d.child_id child,
    )

-- An insert of edges that are all there changes no row.
pub insert_dependencies_present :
    (id : String) (ps : List String) (rows : List SegmentDependency)
    → ((p : String) → has ps p ≡ true → has (parents_of rows id) p ≡ true)
    → insert_dependencies id ps rows ≡ rows
unfolding insert_dependencies insert_dependency has
insert_dependencies_present id [] rows h = refl
insert_dependencies_present id (p ∷ ps) rows h =
    ground
      (arith, h p, eq_iff p p, insert_dependencies_present id ps rows (λ q m. h q (ground arith)))

-- A delete that finds no edge to drop changes no row.
pub delete_dependencies_absent :
    (id : String) (keep : List String) (rows : List SegmentDependency)
    → ((p : String) → has (parents_of rows id) p ≡ true → has keep p ≡ true)
    → delete_dependencies id keep rows ≡ rows
unfolding delete_dependencies parents_of has
delete_dependencies_absent id keep [] h = refl
delete_dependencies_absent id keep (d ∷ rows) h = ground (
  arith,
  h d.parent_id,
  eq_iff d.parent_id d.parent_id,
  eq_iff d.child_id id,
  delete_dependencies_absent id keep rows (λ q m. h q (ground arith)),
)
