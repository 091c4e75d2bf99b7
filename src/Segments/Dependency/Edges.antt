-- ===== src/Segments/Dependency/Edges.antt =====
-- The dependency edges after `replaceDependencies`.
use optio_ai_assignment.Prelude.{
  String, true, false, ◌≡◌, sym, ap, subst, ◌∙◌, List, [], ◌∷◌, has, all, ◌==◌, eq_iff, arith,
  if◌then◌else◌, Bool-cases, ◌⊎◌, inl, inr, all_intro, all_at,
}
use optio_ai_assignment.Shared.Rule.{SegmentRule}
use optio_ai_assignment.Shared.Result.{Error, Result, ok, err, self_reference, foreign_key}
use optio_ai_assignment.Database.{SegmentDependency, Tables}
use optio_ai_assignment.Database.Views.{
  parents_of, insert_dependencies, delete_dependencies, segment_ids,
}
use optio_ai_assignment.Database.DependencyLaws.{
  has-insert_dependencies, has-delete_dependencies, insert_dependencies_present,
  delete_dependencies_absent,
}
use optio_ai_assignment.Database.Prisma.{Prisma}
use optio_ai_assignment.Segments.Evaluator.Meaning.{refers}
use optio_ai_assignment.Segments.Dependency.{
  collect_parent_ids, replace_edges, replace_dependencies,
}
use optio_ai_assignment.Segments.Dependency.Laws.{collect_parent_ids-refers}

-- The edges that stay, and the new ones behind them.
unfoldable pub replaced : String → SegmentRule → List SegmentDependency → List SegmentDependency
replaced id rule rows =
    let parent_ids = collect_parent_ids rule [] in
    insert_dependencies id parent_ids (delete_dependencies id parent_ids rows)

-- The new parents of the segment are those that its rule refers to; other segments keep theirs.
pub parents-replaced :
    (id : String) (rule : SegmentRule) (rows : List SegmentDependency) (child p : String)
    → has (parents_of (replaced id rule rows) child) p
      ≡ (if id == child then refers rule p else has (parents_of rows child) p)
unfolding replaced
parents-replaced id rule rows child p = ground (
  arith,
  (collect_parent_ids-refers rule).0 p,
  has-insert_dependencies id (collect_parent_ids rule [])
      (delete_dependencies id (collect_parent_ids rule []) rows) child p,
  has-delete_dependencies id (collect_parent_ids rule []) rows child p,
  eq_iff id child,
)

-- Every segment that the rule refers to is there.
abbrev pub ParentsExist : SegmentRule → Tables → Type 0
ParentsExist rule t = (p : String) → refers rule p ≡ true → has (segment_ids t.segments) p ≡ true

collected_exist :
    (rule : SegmentRule) (t : Tables)
    → ParentsExist rule t
    → all (has (segment_ids t.segments)) (collect_parent_ids rule []) ≡ true
collected_exist rule t h =
    all_intro (has (segment_ids t.segments)) (collect_parent_ids rule [])
      (λ p m. h p (ground (arith, (collect_parent_ids-refers rule).0 p)))

replaced_twice :
    (id : String) (rule : SegmentRule) (rows : List SegmentDependency)
    → replaced id rule (replaced id rule rows) ≡ replaced id rule rows
unfolding replaced
replaced_twice id rule rows =
    let ps = collect_parent_ids rule [] in
    rw (delete_dependencies_absent id ps (replaced id rule rows) (λ p m. kept p m))
      (insert_dependencies_present id ps (replaced id rule rows) (λ p m. there p m))
  where
    kept :
        (p : String)
        → has (parents_of (replaced id rule rows) id) p ≡ true
        → has (collect_parent_ids rule []) p ≡ true
    kept p m = ground (
      arith,
      parents-replaced id rule rows id p,
      eq_iff id id,
      (collect_parent_ids-refers rule).0 p,
    )

    there :
        (p : String)
        → has (collect_parent_ids rule []) p ≡ true
        → has (parents_of (replaced id rule rows) id) p ≡ true
    there p m = ground (
      arith,
      parents-replaced id rule rows id p,
      eq_iff id id,
      (collect_parent_ids-refers rule).0 p,
    )

module _ ⦃prisma : Prisma⦄ where
  abbrev edges_result : String → List String → Tables → Result (Unit {0}) × Tables
  edges_result id ps t =
      if has ps id
      then (err (self_reference id), t)
      else if all (has (segment_ids t.segments)) ps
      then (
        ok tt,
        record t {
          dependencies = insert_dependencies id ps (delete_dependencies id ps t.dependencies);
        },
      )
      else (err foreign_key, t)

  replace_edges-result :
      (id : String) (ps : List String) (t : Tables) → replace_edges id ps t ≡ edges_result id ps t
  unfolding replace_edges insert_dependencies has
  replace_edges-result id [] t = rw (prisma.remove_dependencies_lem id [] t)
  replace_edges-result id (p ∷ ps) t =
      rw (prisma.remove_dependencies_lem id (p ∷ ps) t, prisma.create_dependencies_lem id (p ∷ ps))
        (ground arith)

  replace_edges-ok :
      (id : String) (ps : List String) (t : Tables)
      → has ps id ≡ false
      → all (has (segment_ids t.segments)) ps ≡ true
      → replace_edges id ps t ≡ (
        ok tt,
        record t {
          dependencies = insert_dependencies id ps (delete_dependencies id ps t.dependencies);
        },
      )
  replace_edges-ok id ps t h k = rw (replace_edges-result id ps t, h, k)

  -- If the rule does not refer to the segment itself, and only to segments that are there, the
  -- call succeeds, replaces the edges and changes nothing else.
  pub replace_dependencies-ok :
      (id : String) (rule : SegmentRule) (t : Tables)
      → refers rule id ≡ false
      → ParentsExist rule t
      → replace_dependencies id rule t
        ≡ (ok tt, record t { dependencies = replaced id rule t.dependencies })
  unfolding replace_dependencies replaced
  replace_dependencies-ok id rule t h k =
      replace_edges-ok id (collect_parent_ids rule []) t
        (ground (arith, (collect_parent_ids-refers rule).0 id)) (collected_exist rule t k)

  -- A rule that refers to its own segment is refused, and the tables stay as they are.
  pub replace_dependencies_self :
      (id : String) (rule : SegmentRule) (t : Tables)
      → refers rule id ≡ true
      → replace_dependencies id rule t ≡ (err (self_reference id), t)
  unfolding replace_dependencies
  replace_dependencies_self id rule t r =
      let own : has (collect_parent_ids rule []) id ≡ true =
        ground (arith, (collect_parent_ids-refers rule).0 id) in
      rw (replace_edges-result id (collect_parent_ids rule []) t, own)

  -- Either the rule is fit for the segment, or the call throws and the tables stay as they are.
  pub replace_dependencies_cases :
      (id : String) (rule : SegmentRule) (t : Tables)
      → ((refers rule id ≡ false) × ParentsExist rule t)
        ⊎ ((e : Error) × (replace_dependencies id rule t ≡ (err e, t)))
  unfolding replace_dependencies
  replace_dependencies_cases id rule t = elim (Bool-cases (has (collect_parent_ids rule []) id)) [
    | inl self ↦
        inr (self_reference id, rw (replace_edges-result id (collect_parent_ids rule []) t, self))
    | inr other ↦
        elim (Bool-cases (all (has (segment_ids t.segments)) (collect_parent_ids rule []))) [
          | inl there ↦
              inl (ground (arith, (collect_parent_ids-refers rule).0 id), λ p r. exist there p r)
          | inr missing ↦ inr (
            foreign_key,
            rw (replace_edges-result id (collect_parent_ids rule []) t, other, missing),
          )
        ]
  ]
    where
      exist :
          all (has (segment_ids t.segments)) (collect_parent_ids rule []) ≡ true
          → ParentsExist rule t
      exist there p r =
          all_at (has (segment_ids t.segments)) (collect_parent_ids rule []) p there
            (ground (arith, (collect_parent_ids-refers rule).0 p))

  -- The second call with the same rule leaves every row as the first call left it.
  pub replace_dependencies_idem :
      (id : String) (rule : SegmentRule) (t t' : Tables)
      → replace_dependencies id rule t ≡ (ok tt, t')
      → replace_dependencies id rule t' ≡ (ok tt, t')
  unfolding replace_dependencies
  replace_dependencies_idem id rule t t' h = elim (Bool-cases (has ps id)) [
    | inl self ↦ absurd (refused (self_reference id) (rw (replace_edges-result id ps t, self) at h))
    | inr other ↦ elim (Bool-cases (all (has (segment_ids t.segments)) ps)) [
      | inr missing ↦
          absurd (refused foreign_key (rw (replace_edges-result id ps t, other, missing) at h))
      | inl there ↦
          let e = replace_edges-ok id ps t other there in
          subst (λ x. replace_edges id ps x ≡ (ok tt, x)) (ap (λ r. r.1) (sym e ∙ h))
            (rw (replace_edges-ok id ps (record t { dependencies = rows }) other there, again))
    ]
  ]
    where
      ps : List String
      ps = collect_parent_ids rule []

      rows : List SegmentDependency
      rows = insert_dependencies id ps (delete_dependencies id ps t.dependencies)

      refused : (e : Error) → ◌≡◌ {A = Result (Unit {0}) × Tables} (err e, t) (ok tt, t') → ⊥
      refused e q = cc (ap (λ r. r.0) q)

      again : insert_dependencies id ps (delete_dependencies id ps rows) ≡ rows
      again = unfold replaced in replaced_twice id rule t.dependencies
