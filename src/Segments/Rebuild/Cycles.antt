-- ===== src/Segments/Rebuild/Cycles.antt =====
-- What a cycle of references does to the rebuild.
use optio_ai_assignment.Prelude.{
  String, Bool, true, false, ◌≡◌, refl, some, List, [], ◌∷◌, filter, has, add, distinct, eq_iff,
  arith, Bool-cases, inl, inr, has-add,
}
use optio_ai_assignment.Shared.Result.{Error, err, Result-cases}
use optio_ai_assignment.Database.{Segment, Tables}
use optio_ai_assignment.Database.Views.{is_dynamic, segment_ids, find_segment_row}
use optio_ai_assignment.Database.Prisma.{Prisma}
use optio_ai_assignment.Segments.Metrics.{DecimalText}
use optio_ai_assignment.Segments.Evaluator.Meaning.{refers}
use optio_ai_assignment.Segments.Order.{topo_sort}
use optio_ai_assignment.Segments.Order.Finding.{distinct-filter_rows}
use optio_ai_assignment.Segments.Order.Sound.{IsOrdered, topo_sort-IsOrdered}
use optio_ai_assignment.Segments.Order.Cover.{IsOrdered-cover}
use optio_ai_assignment.Segments.Rebuild.{Surroundings, rebuild_all_dynamic}

-- Every segment of the cycle refers to a segment of the cycle, and all of them are in the batch.
abbrev pub IsCycle : (String → Bool) → List Segment → Type 0
IsCycle in_cycle batch =
    (id : String) (s : Segment)
    → find_segment_row batch id ≡ some s
    → in_cycle id ≡ true
    → (p : String) × (refers s.rule p ≡ true)
      × (has (segment_ids batch) p ≡ true)
      × (in_cycle p ≡ true)

-- No segment of a cycle can be placed.
not_placed :
    (in_cycle : String → Bool) (batch : List Segment) (done : List String) (out : List Segment)
    (id : String)
    → IsCycle in_cycle batch
    → ((p : String) → has done p ≡ true → in_cycle p ≡ false)
    → IsOrdered batch done out
    → in_cycle id ≡ true
    → has (segment_ids out) id ≡ false
unfolding has
not_placed in_cycle batch done [] id cyc free o h = refl
not_placed in_cycle batch done (s ∷ out) id cyc free (found, fresh, parents, later) h =
    elim (Bool-cases (in_cycle s.id)) [
      | inl inside ↦
          let (p, refs, there, p_in) = cyc s.id s found inside in
          absurd (ground (arith, free p (parents p refs there)))
      | inr outside ↦ ground (
        arith,
        not_placed in_cycle batch (add done s.id) out id cyc
            (λ p m. ground (arith, free p, has-add done s.id p, eq_iff s.id p)) later h,
        eq_iff s.id id,
      )
    ]

module _ ⦃prisma : Prisma⦄ ⦃text : DecimalText⦄ where
  -- If some dynamic segments refer to one another in a cycle, every rebuild throws before its first
  -- pass: no dynamic segment is evaluated, those outside the cycle included, and no table changes.
  pub rebuild_all_dynamic_cycle :
      (env : Surroundings) (t : Tables) (in_cycle : String → Bool) (id : String)
      → distinct (segment_ids t.segments) ≡ true
      → IsCycle in_cycle (filter is_dynamic t.segments)
      → has (segment_ids (filter is_dynamic t.segments)) id ≡ true
      → in_cycle id ≡ true
      → (e : Error) × (rebuild_all_dynamic env t ≡ (err e, t))
  unfolding rebuild_all_dynamic has
  rebuild_all_dynamic_cycle env t in_cycle id d cyc there inside =
      let batch : List Segment = filter is_dynamic t.segments in
      elim (Result-cases (topo_sort batch)) [
        | inr (e, failed) ↦ (e, rw (prisma.find_dynamic_lem t, failed))
        | inl (out, sorted) ↦
            let (ordered, n) =
              topo_sort-IsOrdered batch out (distinct-filter_rows is_dynamic t.segments d) sorted in
            absurd (
              ground (
                arith,
                IsOrdered-cover batch out id ordered n there,
                not_placed in_cycle batch [] out id cyc (λ p m. absurd (ground arith)) ordered
                    inside,
              ))
      ]
