-- ===== src/Segments/Evaluation/Race.antt =====
-- Two evaluations of one segment at once: the transaction of the first is written after the second
-- has read.
pub mod Outcome
use mathlib.Core.List.{append_assoc, append-nil}
use optio_ai_assignment.Prelude.{
  String, Bool, Option, none, some, ◌⊎◌, Option-cases, Bool-cases, false, not, ◌&&◌, ◌||◌, ◌≡◌,
  refl, sym, ap, ◌∙◌, List, [], ◌∷◌, ◌++◌, map, filter, has, to_set_onto, distinct, is_empty, ◌==◌,
  eq_iff, arith, if◌then◌else◌, inl, inr,
}
use optio_ai_assignment.Prelude.Int.{ℤ}
use optio_ai_assignment.Shared.Result.{Result-cases, ok, Exec, lift, gets, ◌>>=◌, ◌>>◌}
use optio_ai_assignment.Database.{Segment, OutboxEvent, Tables}
use optio_ai_assignment.Database.Views.{members_of}
use optio_ai_assignment.Database.Prisma.{Prisma}
use optio_ai_assignment.Segments.Metrics.{DecimalText, compute_all}
use optio_ai_assignment.Segments.Evaluator.Meaning.{refers}
use optio_ai_assignment.Segments.Dependency.{collect_parent_ids, replace_dependencies}
use optio_ai_assignment.Segments.Dependency.Laws.{collect_parent_ids-refers}
use optio_ai_assignment.Segments.Dependency.Edges.{
  ParentsExist, replaced, replace_dependencies-ok, replace_dependencies_idem,
  replace_dependencies_cases,
}
use optio_ai_assignment.Segments.Evaluation.{
  evaluate_each, load_parent_memberships, evaluate_found, apply_diff, persist, delta_rows,
}
use optio_ai_assignment.Segments.Evaluation.Members.{evaluate_each-qualifies}
use optio_ai_assignment.Segments.Evaluation.Loading.{loaded-members}
use optio_ai_assignment.Segments.Evaluation.Persist.{
  has-members_after, payload_of, written, persist-writes, recorded,
}
use optio_ai_assignment.Segments.Evaluation.Pass.{
  is_in, satisfies, added_of, removed_of, has-added_of, has-removed_of,
}
use optio_ai_assignment.Segments.Evaluation.Contract.{evaluate_segment-Evaluated}
use optio_ai_assignment.Segments.Evaluation.{is_refused, evaluate_segment}
use optio_ai_assignment.Database.Views.{find_segment_row}
use optio_ai_assignment.Shared.Result.{throw, not_found, static_segment}

-- The payloads of the outbox, in its order.
pub payloads-append :
    (xs ys : List OutboxEvent)
    → map (λ e. e.payload) (xs ++ ys) ≡ map (λ e. e.payload) xs ++ map (λ e. e.payload) ys
payloads-append [] ys = refl
payloads-append (x ∷ xs) ys = ap (◌∷◌ x.payload) (payloads-append xs ys)

module _ ⦃prisma : Prisma⦄ ⦃text : DecimalText⦄ where
  -- what an evaluation does before its transaction: those who will join and those who will leave
  unfoldable pub read_phase : ℤ → Segment → Exec Tables (List String × List String)
  read_phase now segment = do
    replace_dependencies segment.id segment.rule
    all_metrics ← gets (compute_all now)
    memberships ← gets (load_parent_memberships (collect_parent_ids segment.rule []))
    new_members ← lift (evaluate_each segment.rule memberships [] all_metrics)
    gets (λ t.
        let current_set = to_set_onto [] (prisma.find_members t segment.id) in
        (
          filter (λ id. not (has current_set id)) new_members,
          filter (λ id. not (has new_members id)) current_set,
        ))

  -- its transaction
  unfoldable pub write_phase : String → Segment → List String × List String → Exec Tables Unit
  write_phase batch_id segment diff t =
      (ok tt, persist segment.id segment.name batch_id diff.0 diff.1 t)

  -- both read, then both write
  unfoldable pub evaluate_at_once : ℤ → String → String → Segment → Exec Tables Unit
  evaluate_at_once now first second segment = do
    diff ← read_phase now segment
    diff' ← read_phase now segment
    write_phase first segment diff
    write_phase second segment diff'

  -- two calls of `evaluateSegment` for one segment at once
  abbrev evaluate_row_at_once :
      ℤ → String → String → Bool → String → Option Segment → Exec Tables (Unit {0})
  evaluate_row_at_once now first second force id none = throw (not_found id)
  evaluate_row_at_once now first second force id (some segment) =
      if is_refused segment force
      then throw (static_segment segment.name)
      else evaluate_at_once now first second segment

  unfoldable pub evaluate_segment_at_once :
      ℤ → String → String → String → Bool → Exec Tables (Unit {0})
  evaluate_segment_at_once now first second segment_id force t =
      evaluate_row_at_once now first second force segment_id (prisma.find_segment t segment_id) t

  -- Alone, an evaluation writes what its two phases write one after the other.
  pub evaluate_found-phases :
      (now : ℤ) (batch_id : String) (s : Segment) (t : Tables)
      → (evaluate_found now batch_id s t).1 ≡ ((read_phase now s >>= write_phase batch_id s) t).1
  unfolding evaluate_found read_phase write_phase apply_diff
  evaluate_found-phases now batch_id s t =
      elim (Result-cases (replace_dependencies s.id s.rule t).0) [
        | inr (e, failed) ↦ rw failed
        | inl (a, fine) ↦
            let u : Tables = (replace_dependencies s.id s.rule t).1 in
            elim (Result-cases (
              evaluate_each s.rule (load_parent_memberships (collect_parent_ids s.rule []) u) []
                (compute_all now u))) [
                  | inr (e, failed) ↦ rw (fine, failed)
                  | inl (new, found) ↦ rw (fine, found)
                ]
      ]

  pub read_phase-diff :
      (now : ℤ) (s : Segment) (t : Tables)
      → refers s.rule s.id ≡ false
      → ParentsExist s.rule t
      → (new : List String) × ((c : String) → has new c ≡ satisfies now t s.rule c)
        × (read_phase now s t ≡ (
          ok (added_of (members_of t.members s.id) new, removed_of (members_of t.members s.id) new),
          record t { dependencies = replaced s.id s.rule t.dependencies },
        ))
        × (read_phase now s (record t { dependencies = replaced s.id s.rule t.dependencies }) ≡ (
          ok (added_of (members_of t.members s.id) new, removed_of (members_of t.members s.id) new),
          record t { dependencies = replaced s.id s.rule t.dependencies },
        ))
  unfolding read_phase compute_all has distinct
  read_phase-diff now s t no_self exist =
      let t' : Tables = record t { dependencies = replaced s.id s.rule t.dependencies } in
      let first = replace_dependencies-ok s.id s.rule t no_self exist in
      let again = replace_dependencies_idem s.id s.rule t t' first in
      let (new, done, same, _) =
        evaluate_each-qualifies s.rule (load_parent_memberships (collect_parent_ids s.rule []) t')
          (is_in t') [] (compute_all now t')
          (λ c p r.
            loaded-members (collect_parent_ids s.rule []) t' p c
              (ground (arith, (collect_parent_ids-refers s.rule).0 p)))
          refl in
      (
        new,
        (λ c. same c),
        rw (first, done, prisma.find_members_lem t' s.id),
        rw (again, done, prisma.find_members_lem t' s.id),
      )

  pub written-segments :
      (s : Segment) (batch_id : String) (added removed : List String) (t : Tables)
      → ((written s.id s.name batch_id added removed t).segments ≡ t.segments)
        × ((written s.id s.name batch_id added removed t).dependencies ≡ t.dependencies)
  written-segments s batch_id added removed t =
      elim (Bool-cases (is_empty added && is_empty removed)) [
        | inl quiet ↦ unfold written in rw quiet (refl, refl)
        | inr changed ↦ unfold written recorded in rw changed (refl, refl)
      ]

  pub written-members :
      (id name batch_id : String) (added removed : List String) (t : Tables) (j c : String)
      → is_in (written id name batch_id added removed t) j c
        ≡ ((is_in t j c || id == j && has added c) && not (id == j && has removed c))
  unfolding written recorded
  written-members id name batch_id [] [] t j c = unfold has in ground arith
  written-members id name batch_id [] (r ∷ removed) t j c =
      has-members_after id [] (r ∷ removed) t.members j c
  written-members id name batch_id (a ∷ added) removed t j c =
      has-members_after id (a ∷ added) removed t.members j c

  pub written-deltas :
      (id name batch_id : String) (added removed : List String) (t : Tables)
      → (written id name batch_id added removed t).deltas
        ≡ t.deltas ++ delta_rows id batch_id added removed
  unfolding written recorded
  written-deltas id name batch_id [] [] t = sym (append-nil t.deltas)
  written-deltas id name batch_id [] (r ∷ removed) t = refl
  written-deltas id name batch_id (a ∷ added) removed t = refl

  pub written-payloads :
      (id name batch_id : String) (added removed : List String) (t : Tables)
      → map (λ e. e.payload) (written id name batch_id added removed t).outbox
        ≡ map (λ e. e.payload) t.outbox
          ++ (if is_empty added && is_empty removed
              then []
              else payload_of id name batch_id added removed ∷ [])
  unfolding written recorded
  written-payloads id name batch_id [] [] t = sym (append-nil (map (λ e. e.payload) t.outbox))
  written-payloads id name batch_id [] (r ∷ removed) t =
      payloads-append t.outbox _ ∙ rw prisma.new_event_payload
  written-payloads id name batch_id (a ∷ added) removed t =
      payloads-append t.outbox _ ∙ rw prisma.new_event_payload
