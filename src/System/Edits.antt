-- ===== src/System/Edits.antt =====
-- Creating, changing and removing segments keeps the tables sound.
use mathlib.Core.Option.{some-injective}
use optio_ai_assignment.Prelude.{
  String, Bool, true, false, not, ◌&&◌, ◌||◌, ◌≡◌, refl, sym, subst, ◌∙◌, some, List, [], ◌∷◌, ◌++◌,
  filter, has, distinct, ◌==◌, eq_iff, arith, Bool-cases, inl, inr, is_empty, true_not_false,
}
use optio_ai_assignment.Database.{Segment, SegmentDependency, Tables}
use optio_ai_assignment.Database.Views.{
  is_dynamic, segment_ids, find_segment_row, parents_of, children_of, replace_row,
}
use optio_ai_assignment.Database.DependencyLaws.{children-parents}
use optio_ai_assignment.Segments.Order.Finding.{distinct-filter_rows}
use optio_ai_assignment.Api.Segments.Creating.{has-ids-append}
use optio_ai_assignment.Api.Segments.Removing.{has-filter_ids}
use optio_ai_assignment.Api.Segments.Updating.{ids-replace_row}
use optio_ai_assignment.System.Soundness.{IsSoundBut, IsSound, only}

pub has-ids-snoc :
    (rows : List Segment) (s : Segment) (p : String)
    → has (segment_ids (rows ++ s ∷ [])) p ≡ (has (segment_ids rows) p || s.id == p)
unfolding has
has-ids-snoc [] s p = ground arith
has-ids-snoc (u ∷ rows) s p = ground (arith, has-ids-snoc rows s p)

distinct-ids-append :
    (rows : List Segment) (s : Segment)
    → distinct (segment_ids rows) ≡ true
    → has (segment_ids rows) s.id ≡ false
    → distinct (segment_ids (rows ++ s ∷ [])) ≡ true
unfolding distinct has
distinct-ids-append [] s d fresh = refl
distinct-ids-append (u ∷ rows) s d fresh = ground (
  arith,
  distinct-ids-append rows s,
  has-ids-snoc rows s u.id,
  eq_iff s.id u.id,
  eq_iff u.id s.id,
)

pub find-append_other :
    (rows : List Segment) (s : Segment) (id : String)
    → (s.id == id) ≡ false
    → find_segment_row (rows ++ s ∷ []) id ≡ find_segment_row rows id
find-append_other [] s id other = rw other
find-append_other (u ∷ rows) s id other = ground (arith, find-append_other rows s id other)

-- A new segment has no edges yet.
pub IsSound-appended :
    (s : Segment) (t : Tables)
    → has (segment_ids t.segments) s.id ≡ false
    → IsSound t
    → IsSoundBut (only s.id) (record t { segments = t.segments ++ s ∷ [] })
IsSound-appended s t fresh h = record {
  ids = distinct-ids-append t.segments s h.ids fresh;
  ends = λ id p m. has-ids-append t.segments s p (h.ends id p m);
  owners = λ id p m. has-ids-append t.segments s id (h.owners id p m);
  edges = λ id u found d other.
      h.edges id u (rw (find-append_other t.segments s id other) at found) d refl;
  no_self = λ id u found d other.
      h.no_self id u (rw (find-append_other t.segments s id other) at found) d refl;
}

pub find-replaced_other :
    (s : Segment) (rows : List Segment) (id : String)
    → (s.id == id) ≡ false
    → find_segment_row (replace_row s rows) id ≡ find_segment_row rows id
unfolding replace_row
find-replaced_other s [] id other = refl
find-replaced_other s (u ∷ rows) id other =
    ground
      (arith, find-replaced_other s rows id other, eq_iff u.id s.id, eq_iff s.id id, eq_iff u.id id)

pub IsSound-replaced :
    (s : Segment) (t : Tables)
    → IsSound t
    → IsSoundBut (only s.id) (record t { segments = replace_row s t.segments })
IsSound-replaced s t h = record {
  ids = rw (ids-replace_row s t.segments) h.ids;
  ends = rw (ids-replace_row s t.segments) h.ends;
  owners = rw (ids-replace_row s t.segments) h.owners;
  edges = λ id u found d other.
      h.edges id u (rw (find-replaced_other s t.segments id other) at found) d refl;
  no_self = λ id u found d other.
      h.no_self id u (rw (find-replaced_other s t.segments id other) at found) d refl;
}

-- A static segment may have any edges, and a dynamic one those that it had, if its rule stays.
pub IsSoundBut-static :
    (s : Segment) (t : Tables)
    → find_segment_row t.segments s.id ≡ some s
    → is_dynamic s ≡ false
    → IsSoundBut (only s.id) t
    → IsSound t
IsSoundBut-static s t found fixed h = record {
  ids = h.ids;
  ends = h.ends;
  owners = h.owners;
  edges = λ id u row d o. h.edges id u row d (apart id u row d);
  no_self = λ id u row d o. h.no_self id u row d (apart id u row d);
}
  where
    apart :
        (id : String) (u : Segment)
        → find_segment_row t.segments id ≡ some u
        → is_dynamic u ≡ true
        → (s.id == id) ≡ false
    apart id u row d = elim (Bool-cases (s.id == id)) [
      | inr other ↦ other
      | inl here ↦
          let same : s ≡ u = some-injective s u (sym found ∙ rw ((eq_iff s.id id).0 here) row) in
          let clash : true ≡ false = sym d ∙ subst (λ x. is_dynamic x ≡ false) same fixed in
          absurd (true_not_false clash)
    ]

parents-filtered :
    (rows : List SegmentDependency) (id c p : String)
    → has (parents_of (filter (λ d. not (d.parent_id == id || d.child_id == id)) rows) c) p
      ≡ (has (parents_of rows c) p && not (p == id || c == id))
unfolding parents_of has
parents-filtered [] id c p = refl
parents-filtered (d ∷ rows) id c p = elim (Bool-cases (d.child_id == c)) [
  | inl own ↦ elim (Bool-cases (d.parent_id == id || d.child_id == id)) [
    | inl gone ↦
        rw (own, gone, parents-filtered rows id c p)
          (dropped (d.parent_id == p) (has (parents_of rows c) p) (p == id) (c == id)
            (ground (arith, eq_iff d.parent_id p, eq_iff d.child_id c)))
    | inr stays ↦
        rw (stays, own, parents-filtered rows id c p)
          (kept (d.parent_id == p) (has (parents_of rows c) p) (p == id) (c == id)
            (ground (arith, eq_iff d.parent_id p, eq_iff d.child_id c)))
  ]
  | inr other ↦ elim (Bool-cases (d.parent_id == id || d.child_id == id)) [
    | inl gone ↦ rw (other, gone) (parents-filtered rows id c p)
    | inr stays ↦ rw (stays, other) (parents-filtered rows id c p)
  ]
]
  where
    dropped :
        (here there a b : Bool)
        → (here ≡ true → (a || b) ≡ true)
        → (there && not (a || b)) ≡ ((here || there) && not (a || b))
    dropped here there a b h = ground (arith, h)

    kept :
        (here there a b : Bool)
        → (here ≡ true → (a || b) ≡ false)
        → (here || there && not (a || b)) ≡ ((here || there) && not (a || b))
    kept here there a b h = ground (arith, h)

-- A row that is found after the removal of another was found before.
pub find-filtered :
    (rows : List Segment) (id x : String) (u : Segment)
    → find_segment_row (filter (λ s. not (s.id == id)) rows) x ≡ some u
    → (find_segment_row rows x ≡ some u) × ((x == id) ≡ false)
find-filtered [] id x u found = absurd (ground arith)
find-filtered (s ∷ rows) id x u found = elim (Bool-cases (s.id == id)) [
  | inl gone ↦
      let (row, other) = find-filtered rows id x u (rw gone at found) in
      (ground (arith, row, eq_iff s.id id, eq_iff s.id x, eq_iff x id), other)
  | inr stays ↦ elim (Bool-cases (s.id == x)) [
    | inl here ↦ (ground arith, ground (arith, eq_iff s.id x, eq_iff s.id id, eq_iff x id))
    | inr later ↦
        let (row, other) = find-filtered rows id x u (rw (stays, later) at found) in
        (rw later row, other)
  ]
]

-- A segment on which nothing depends can go.
pub IsSound-deleted :
    (id : String) (t : Tables)
    → is_empty (children_of t.dependencies id) ≡ true
    → IsSound t
    → IsSound (record t {
      segments = filter (λ s. not (s.id == id)) t.segments;
      dependencies = filter (λ d. not (d.parent_id == id || d.child_id == id)) t.dependencies;
    })
unfolding has
IsSound-deleted id t free h = record {
  ids = distinct-filter_rows (λ s. not (s.id == id)) t.segments h.ids;
  ends = λ c p m.
      ground
        (arith, parents-filtered t.dependencies id c p, has-filter_ids t.segments id p, h.ends c p);
  owners = λ c p m.
      ground (
        arith,
        parents-filtered t.dependencies id c p,
        has-filter_ids t.segments id c,
        h.owners c p,
      );
  edges = λ c u found d o p.
      let (row, other) = find-filtered t.segments id c u found in
      ground (
        arith,
        parents-filtered t.dependencies id c p,
        h.edges c u row d refl p,
        no_child c p,
        eq_iff p id,
      );
  no_self = λ c u found d o. h.no_self c u (find-filtered t.segments id c u found).0 d refl;
}
  where
    empty_has : (xs : List String) (c : String) → is_empty xs ≡ true → has xs c ≡ false
    empty_has [] c e = refl
    empty_has (x ∷ xs) c e = absurd (ground arith)

    no_child : (c p : String) → (p == id) ≡ true → has (parents_of t.dependencies c) p ≡ false
    no_child c p e = rw ((eq_iff p id).0 e) (
        sym (children-parents t.dependencies id c)
        ∙ empty_has (children_of t.dependencies id) c free)

-- A segment that keeps its type and its rule keeps its edges.
pub IsSound-renamed :
    (s u : Segment) (t : Tables)
    → find_segment_row t.segments s.id ≡ some u
    → find_segment_row (replace_row s t.segments) s.id ≡ some s
    → is_dynamic s ≡ is_dynamic u
    → s.rule ≡ u.rule
    → IsSound t
    → IsSound (record t { segments = replace_row s t.segments })
IsSound-renamed s u t found now_found typed ruled h = record {
  ids = but.ids;
  ends = but.ends;
  owners = but.owners;
  edges = λ id v row d o p. elim (Bool-cases (s.id == id)) [
    | inr other ↦ but.edges id v row d other p
    | inl here ↦
        let (same, e) = the_row id v here row in
        let d' : is_dynamic u ≡ true = sym typed ∙ subst (λ x. is_dynamic x ≡ true) (sym same) d in
        rw (← e, ← same, ruled) (h.edges s.id u found d' refl p)
  ];
  no_self = λ id v row d o. elim (Bool-cases (s.id == id)) [
    | inr other ↦ but.no_self id v row d other
    | inl here ↦
        let (same, e) = the_row id v here row in
        let d' : is_dynamic u ≡ true = sym typed ∙ subst (λ x. is_dynamic x ≡ true) (sym same) d in
        rw (← e, ← same, ruled) (h.no_self s.id u found d' refl)
  ];
}
  where
    but : IsSoundBut (only s.id) (record t { segments = replace_row s t.segments })
    but = IsSound-replaced s t h

    the_row :
        (id : String) (v : Segment)
        → (s.id == id) ≡ true
        → find_segment_row (replace_row s t.segments) id ≡ some v
        → (s ≡ v) × (s.id ≡ id)
    the_row id v here row =
        let e : s.id ≡ id = (eq_iff s.id id).0 here in
        (
          some-injective s v (
              sym now_found
              ∙ subst (λ x. find_segment_row (replace_row s t.segments) x ≡ some v) (sym e) row),
          e,
        )
