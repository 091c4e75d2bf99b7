-- ===== src/Segments/Evaluation/Race/Outcome.antt =====
-- What two evaluations of one segment at once leave.
use mathlib.Core.List.{append_assoc}
use optio_ai_assignment.Prelude.{
  String, Bool, some, ◌⊎◌, Option-cases, Bool-cases, false, not, ◌&&◌, ◌≡◌, ap, ◌∙◌, List, [], ◌∷◌,
  ◌++◌, map, has, is_empty, ◌==◌, eq_iff, arith, if◌then◌else◌, inl, inr,
}
use optio_ai_assignment.Prelude.Int.{ℤ}
use optio_ai_assignment.Shared.Result.{ok}
use optio_ai_assignment.Database.{Segment, Tables}
use optio_ai_assignment.Database.Views.{members_of}
use optio_ai_assignment.Database.Prisma.{Prisma}
use optio_ai_assignment.Segments.Metrics.{DecimalText}
use optio_ai_assignment.Segments.Evaluator.Meaning.{refers}
use optio_ai_assignment.Segments.Dependency.Edges.{
  ParentsExist, replaced, replace_dependencies_cases,
}
use optio_ai_assignment.Segments.Evaluation.{evaluate_found, persist, delta_rows}
use optio_ai_assignment.Segments.Evaluation.Persist.{payload_of, written, persist-writes}
use optio_ai_assignment.Segments.Evaluation.Pass.{
  is_in, satisfies, added_of, removed_of, has-added_of, has-removed_of,
}
use optio_ai_assignment.Segments.Evaluation.Contract.{evaluate_segment-Evaluated}
use optio_ai_assignment.Segments.Evaluation.{is_refused, evaluate_segment}
use optio_ai_assignment.Database.Views.{find_segment_row}
use optio_ai_assignment.Segments.Evaluation.Race.{
  read_phase, write_phase, evaluate_at_once, evaluate_segment_at_once, evaluate_found-phases,
  read_phase-diff, written-members, written-deltas, written-payloads,
}

module _ ⦃prisma : Prisma⦄ ⦃text : DecimalText⦄ where
  -- Two evaluations of one segment at one instant, of which each has read before either writes, leave
  -- the members that one evaluation leaves. But the history gets the rows of both, with the same
  -- customers, and if anybody joined or left, the outbox gets two events with the same customers.
  -- The rule may not refer to the segment itself, and those that it refers to must exist.
  pub evaluate_at_once_doubles :
      (now : ℤ) (first second : String) (s : Segment) (t : Tables)
      → refers s.rule s.id ≡ false
      → ParentsExist s.rule t
      → (added removed : List String) × (t' : Tables) × (evaluate_at_once now first second s t
          ≡ (ok tt, t'))
        × ((c : String) → has added c ≡ (satisfies now t s.rule c && not (is_in t s.id c)))
        × ((c : String) → has removed c ≡ (is_in t s.id c && not (satisfies now t s.rule c)))
        × ((id c : String)
            → is_in t' id c ≡ (if s.id == id then satisfies now t s.rule c else is_in t id c))
        × (t'.deltas
            ≡ t.deltas
              ++ delta_rows s.id first added removed
              ++ delta_rows s.id second added removed)
        × (map (λ e. e.payload) t'.outbox
            ≡ map (λ e. e.payload) t.outbox
              ++ (if is_empty added && is_empty removed
                  then []
                  else payload_of s.id s.name first added removed
                    ∷ payload_of s.id s.name second added removed
                    ∷ []))
  unfolding evaluate_at_once write_phase
  evaluate_at_once_doubles now first second s t no_self exist =
      let (new, same, reads, reads_again) = read_phase-diff now s t no_self exist in
      let added : List String = added_of (members_of t.members s.id) new in
      let removed : List String = removed_of (members_of t.members s.id) new in
      let t' : Tables = record t { dependencies = replaced s.id s.rule t.dependencies } in
      (
        added,
        removed,
        written s.id s.name second added removed (written s.id s.name first added removed t'),
        rw (
          reads,
          reads_again,
          persist-writes s.id s.name first added removed t',
          persist-writes s.id s.name second added removed
              (written s.id s.name first added removed t'),
        ),
        (λ c. rw (has-added_of (members_of t.members s.id) new c, same c)),
        (λ c. rw (has-removed_of (members_of t.members s.id) new c, same c)),
        (λ id c. ground (
          arith,
          written-members s.id s.name second added removed
              (written s.id s.name first added removed t') id c,
          written-members s.id s.name first added removed t' id c,
          has-added_of (members_of t.members s.id) new c,
          has-removed_of (members_of t.members s.id) new c,
          same c,
          eq_iff s.id id,
        )),
        written-deltas s.id s.name second added removed (written s.id s.name first added removed t')
            ∙ ap (λ x. x ++ delta_rows s.id second added removed)
                (written-deltas s.id s.name first added removed t'),
        written-payloads s.id s.name second added removed
              (written s.id s.name first added removed t')
            ∙ ap
                (λ x.
                  x
                  ++ (if is_empty added && is_empty removed
                      then []
                      else payload_of s.id s.name second added removed ∷ []))
                (written-payloads s.id s.name first added removed t')
            ∙ append_assoc (map (λ e. e.payload) t.outbox) _ _
            ∙ ground arith,
      )

  -- What two calls at once leave is what the first leaves alone, with the transaction of the second on
  -- top; a call that throws leaves the tables as they were.
  pub evaluate_segment_at_once-written :
      (now : ℤ) (first second id : String) (force : Bool) (t : Tables)
      → ((evaluate_segment_at_once now first second id force t).1 ≡ t)
        ⊎ ((s : Segment) × (added removed : List String) × (find_segment_row t.segments id ≡ some s)
            × (find_segment_row (evaluate_segment now first id force t).1.segments id ≡ some s)
            × ((evaluate_segment_at_once now first second id force t).1
                ≡ written s.id s.name second added removed
                    (evaluate_segment now first id force t).1))
  unfolding evaluate_segment_at_once evaluate_segment
  evaluate_segment_at_once-written now first second id force t =
      elim (Option-cases (find_segment_row t.segments id)) [
        | inl unknown ↦ inl (rw (prisma.find_segment_lem t id, unknown))
        | inr (s, found) ↦ elim (Bool-cases (is_refused s force)) [
          | inl refused ↦ inl (rw (prisma.find_segment_lem t id, found, refused))
          | inr allowed ↦ elim (replace_dependencies_cases s.id s.rule t) [
            | inr (e, failed) ↦ inl (
                unfold evaluate_at_once read_phase in
                rw (prisma.find_segment_lem t id, found, allowed, failed))
            | inl (no_self, exist) ↦
                let (new, same, reads, reads_again) = read_phase-diff now s t no_self exist in
                let added : List String = added_of (members_of t.members s.id) new in
                let removed : List String = removed_of (members_of t.members s.id) new in
                let t' : Tables = record t { dependencies = replaced s.id s.rule t.dependencies } in
                let u : Tables = persist s.id s.name first added removed t' in
                let alone : (evaluate_found now first s t).1 ≡ u =
                  evaluate_found-phases now first s t ∙ unfold write_phase in rw reads in
                let (r, t'', ran, meets, _) =
                  evaluate_segment-Evaluated now first id force s t found allowed no_self exist in
                inr (
                  s,
                  added,
                  removed,
                  found,
                  rw (ran, meets.segments) found,
                  rw (prisma.find_segment_lem t id, found, allowed, alone)
                      (unfold evaluate_at_once write_phase in
                        rw (reads, reads_again)
                          (persist-writes s.id s.name second added removed u)),
                )
          ]
        ]
      ]
