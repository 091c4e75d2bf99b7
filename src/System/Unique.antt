-- ===== src/System/Unique.antt =====
-- No customer stands twice in a segment, in any state of the service, and what a result counts.
use optio_ai_assignment.Segments.Evaluation.Persist.{written, recorded, distinct-members_after}
use optio_ai_assignment.Database.{Segment}
use optio_ai_assignment.Prelude.{
  List, true, distinct, ◌&&◌, is_empty, Bool-cases, ◌+◌, String, Bool, ◌≡◌, subst, length, arith,
  ◌⊎◌, inl, inr,
}
use optio_ai_assignment.Prelude.Int.{ℤ}
use optio_ai_assignment.Shared.Result.{Error, ok, err}
use optio_ai_assignment.Database.{Tables}
use optio_ai_assignment.Database.Views.{members_of}
use optio_ai_assignment.Database.MemberLaws.{distinct-insert_members, distinct-filter_members}
use optio_ai_assignment.Database.Prisma.{Prisma}
use optio_ai_assignment.Segments.Metrics.{DecimalText}
use optio_ai_assignment.Segments.Evaluation.{EvaluationResult, evaluate_segment}
use optio_ai_assignment.Segments.Evaluation.Contract.{evaluate_segment_atomic}
use optio_ai_assignment.Segments.Order.Finding.{find_segment_row-id}
use optio_ai_assignment.Messaging.Buffer.{Redis, ChangeBuffer}
use optio_ai_assignment.System.Announced.{IsUnique, pass-length}
use optio_ai_assignment.System.Steps.{Reaches}
use optio_ai_assignment.System.Keeping.{IsKept, Reaches-keeps}

module _ ⦃prisma : Prisma⦄ ⦃text : DecimalText⦄ where
  IsUnique-evaluated :
      (now : ℤ) (batch_id id : String) (force : Bool) (t : Tables)
      → IsUnique t
      → IsUnique (evaluate_segment now batch_id id force t).1
  IsUnique-evaluated now batch_id id force t h =
      elim (evaluate_segment_atomic now batch_id id force t) [
        | inl (e, failed) ↦ rw failed h
        | inr (s, r, t', found, ran, done) ↦ rw ran (λ j. done.once j (h j))
      ]

  distinct-written :
      (s : Segment) (batch_id : String) (added removed : List String) (t : Tables) (j : String)
      → distinct (members_of t.members j) ≡ true
      → distinct (members_of (written s.id s.name batch_id added removed t).members j) ≡ true
  distinct-written s batch_id added removed t j d =
      elim (Bool-cases (is_empty added && is_empty removed)) [
        | inl quiet ↦ unfold written in rw quiet d
        | inr changed ↦
            unfold written recorded in
            rw changed (distinct-members_after s.id added removed t.members j d)
      ]

  IsUnique-IsKept : IsKept IsUnique
  IsUnique-IsKept = record {
    by_evaluate = IsUnique-evaluated;
    by_written =
        λ s batch_id added removed t found h j. distinct-written s batch_id added removed t j (h j);
    by_rewire = λ s t h. h;
    by_insert = λ s t fresh h. h;
    by_join = λ s cs t found fixed h j. distinct-insert_members s.id cs t.members j (h j);
    by_replace = λ s u t found typed h. h;
    by_delete = λ id t h j. distinct-filter_members _ t.members j (h j);
    by_same = λ t u same h j. rw same.members (h j);
  }

module _ ⦃prisma : Prisma⦄ ⦃text : DecimalText⦄ ⦃redis : Redis⦄ where
  pub Reaches-IsUnique :
      (s s' : ChangeBuffer) → IsUnique s.tables → Reaches s s' → IsUnique s'.tables
  Reaches-IsUnique s s' h reached = Reaches-keeps IsUnique IsUnique-IsKept s s' h reached

  -- In every state that the service can reach from tables in which no customer stands twice in a
  -- segment, an evaluation either throws, or its result counts the members that the segment then has,
  -- and these are those it had, with those who joined and without those who left.
  pub reachable_totals :
      (s s' : ChangeBuffer) (now : ℤ) (batch_id id : String) (force : Bool)
      → IsUnique s.tables
      → Reaches s s'
      → ((e : Error) × (evaluate_segment now batch_id id force s'.tables ≡ (err e, s'.tables)))
        ⊎ ((r : EvaluationResult) × (t' : Tables) × (evaluate_segment now batch_id id force
                s'.tables
              ≡ (ok r, t'))
            × (r.total_members ≡ length (members_of t'.members id))
            × (r.total_members + length r.removed
                ≡ length (members_of s'.tables.members id) + length r.added))
  reachable_totals s s' now batch_id id force h reached =
      let unique : IsUnique s'.tables = Reaches-IsUnique s s' h reached in
      elim (evaluate_segment_atomic now batch_id id force s'.tables) [
        | inl (e, failed) ↦ inl (e, failed)
        | inr (u, r, t', found, ran, done) ↦
            let own : u.id ≡ id = find_segment_row-id s'.tables.segments id u found in
            let total : r.total_members ≡ length (members_of t'.members u.id) =
              done.total (unique u.id) in
            inr (
              r,
              t',
              ran,
              subst (λ x. r.total_members ≡ length (members_of t'.members x)) own total,
              subst
                  (λ x.
                    r.total_members + length r.removed
                    ≡ length (members_of s'.tables.members x) + length r.added)
                  own (omega (arith, pass-length done unique, total)),
            )
      ]
