-- ===== src/Segments/Evaluation/Contract.antt =====
-- What a pass promises to its callers: the HTTP endpoints, the cascade and the rebuild.
use mathlib.Core.List.{append-nil}
use optio_ai_assignment.Prelude.{
  String, distinct, distinct-filter, distinct-to_set_onto, to_set_onto, length, sym, ◌∙◌, Bool,
  true, false, not, ◌&&◌, ◌≡◌, refl, some, List, [], ◌∷◌, ◌++◌, has, is_empty, ◌==◌, eq_iff, arith,
  if◌then◌else◌, Bool-cases, Option-cases, ◌⊎◌, inl, inr,
}
use optio_ai_assignment.Prelude.Counting.{length-eq_of_same}
use optio_ai_assignment.Prelude.Int.{ℤ}
use optio_ai_assignment.Shared.Events.{SegmentDeltaPayload, segment_delta}
use optio_ai_assignment.Shared.Result.{Error, ok, err, not_found, static_segment}
use optio_ai_assignment.Database.{Segment, OutboxEvent, Tables, pending}
use optio_ai_assignment.Database.Views.{members_of, parents_of, find_segment_row}
use optio_ai_assignment.Database.Prisma.{Prisma}
use optio_ai_assignment.Segments.Metrics.{DecimalText}
use optio_ai_assignment.Segments.Evaluator.Meaning.{refers}
use optio_ai_assignment.Segments.Dependency.Edges.{
  ParentsExist, replaced, parents-replaced, replace_dependencies_cases,
}
use optio_ai_assignment.Segments.Evaluation.{
  EvaluationResult, evaluate_found, is_refused, evaluate_segment, delta_rows,
}
use optio_ai_assignment.Segments.Evaluation.Persist.{
  members_after, has-members_after, distinct-members_after, payload_of, recorded, written,
}
use optio_ai_assignment.Segments.Evaluation.Pass.{
  is_in, satisfies, added_of, removed_of, has-added_of, has-removed_of, settled, outcome,
  evaluate_found-settled,
}

-- Nobody joined and nobody left.
abbrev pub is_unchanged : EvaluationResult → Bool
is_unchanged r = is_empty r.added && is_empty r.removed

pub delta_rows_unchanged :
    (id batch_id : String) (added removed : List String)
    → (is_empty added && is_empty removed) ≡ true
    → delta_rows id batch_id added removed ≡ []
delta_rows_unchanged id batch_id [] [] h = refl
delta_rows_unchanged id batch_id added removed h = absurd (ground arith)

module _ ⦃prisma : Prisma⦄ ⦃text : DecimalText⦄ where
  -- `t'` are the tables after a pass over `s` that began at `t` and returned `r`.
  pub record Evaluated (now : ℤ) (s : Segment) (r : EvaluationResult) (t t' : Tables) : Type 0 where
    -- the segment has the members that satisfy its rule, and no other segment's members changed
    pub members :
        (id c : String)
        → is_in t' id c ≡ (if s.id == id then satisfies now t s.rule c else is_in t id c)
    -- its edges are those of its rule, and no other segment's edges changed
    pub parents :
        (id p : String)
        → has (parents_of t'.dependencies id) p
          ≡ (if s.id == id then refers s.rule p else has (parents_of t.dependencies id) p)
    -- the result names exactly those who joined and those who left
    pub added : (c : String) → has r.added c ≡ (satisfies now t s.rule c && not (is_in t s.id c))
    pub removed :
        (c : String) → has r.removed c ≡ (is_in t s.id c && not (satisfies now t s.rule c))
    -- and names each of them once
    pub added_once : distinct r.added ≡ true
    pub removed_once : distinct r.removed ≡ true
    -- where no customer stood twice in a segment, none does, and the result counts the members
    pub once :
        (id : String)
        → distinct (members_of t.members id) ≡ true
        → distinct (members_of t'.members id) ≡ true
    pub total :
        distinct (members_of t.members s.id) ≡ true
        → r.total_members ≡ length (members_of t'.members s.id)
    -- a change is announced by one pending event that carries the result; without a change there
    -- is no event, and no member row is touched
    pub event : OutboxEvent
    pub outbox : t'.outbox ≡ (if is_unchanged r then t.outbox else t.outbox ++ event ∷ [])
    pub payload : event.payload ≡ payload_of s.id s.name r.batch_id r.added r.removed
    pub event_type : event.event_type ≡ segment_delta
    pub status : event.status ≡ pending
    pub kept : (if is_unchanged r then t'.members else t.members) ≡ t.members
    -- the history gets one row for each customer who joined or left
    pub deltas : t'.deltas ≡ t.deltas ++ delta_rows s.id r.batch_id r.added r.removed
    -- the other tables stay
    pub customers : t'.customers ≡ t.customers
    pub transactions : t'.transactions ≡ t.transactions
    pub segments : t'.segments ≡ t.segments
    pub processed : t'.processed ≡ t.processed

  settled-Evaluated :
      (now : ℤ) (batch_id : String) (s : Segment) (t : Tables) (new : List String)
      → ((c : String) → has new c ≡ satisfies now t s.rule c)
      → distinct new ≡ true
      → Evaluated now s (outcome batch_id s new t) t (settled batch_id s new t)
  settled-Evaluated now batch_id s t new same d = record {
    members = λ id c. rw (members_written id c) (members_case id c);
    parents = λ id p. rw dependencies_written (parents-replaced s.id s.rule t.dependencies id p);
    added = λ c. rw (has-added_of current new c, same c);
    removed = λ c. rw (has-removed_of current new c, same c);
    added_once = distinct-filter _ new d;
    removed_once =
        distinct-filter _ (to_set_onto [] current)
          (distinct-to_set_onto [] current (unfold distinct in refl));
    once = once_after;
    total = λ unique.
        length-eq_of_same new (members_of (settled batch_id s new t).members s.id) d
          (once_after s.id unique)
          (λ c.
            same c
            ∙ sym
                (members_written s.id c ∙ members_case s.id c ∙ ground (arith, eq_iff s.id s.id)));
    event = prisma.new_event (recorded s.id batch_id added removed t') segment_delta payload;
    outbox = unfold written in ground arith;
    payload = prisma.new_event_payload _ _ _;
    event_type = prisma.new_event_type _ _ _;
    status = prisma.new_event_status _ _ _;
    kept = members_kept;
    deltas = deltas_written;
    customers = unfold written in ground arith;
    transactions = unfold written in ground arith;
    segments = unfold written in ground arith;
    processed = unfold written in ground arith;
  }
    where
      current : List String
      current = members_of t.members s.id

      added : List String
      added = added_of current new

      removed : List String
      removed = removed_of current new

      t' : Tables
      t' = record t { dependencies = replaced s.id s.rule t.dependencies }

      payload : SegmentDeltaPayload
      payload = payload_of s.id s.name batch_id added removed

      members_written :
          (id c : String)
          → is_in (settled batch_id s new t) id c
            ≡ has (members_of (members_after s.id added removed t.members) id) c
      members_written id c = unfold written members_after recorded in ground arith

      once_after :
          (id : String)
          → distinct (members_of t.members id) ≡ true
          → distinct (members_of (settled batch_id s new t).members id) ≡ true
      once_after id unique = elim (Bool-cases (is_empty added && is_empty removed)) [
        | inl e ↦ unfold written in rw e unique
        | inr e ↦
            unfold written recorded in
            rw e (distinct-members_after s.id added removed t.members id unique)
      ]

      dependencies_written :
          (settled batch_id s new t).dependencies ≡ replaced s.id s.rule t.dependencies
      dependencies_written = unfold written in ground arith

      members_case :
          (id c : String)
          → has (members_of (members_after s.id added removed t.members) id) c
            ≡ (if s.id == id then satisfies now t s.rule c else is_in t id c)
      members_case id c = ground (
        arith,
        has-members_after s.id added removed t.members id c,
        has-added_of current new c,
        has-removed_of current new c,
        same c,
        eq_iff s.id id,
      )

      deltas_written :
          (settled batch_id s new t).deltas ≡ t.deltas ++ delta_rows s.id batch_id added removed
      deltas_written = elim (Bool-cases (is_empty added && is_empty removed)) [
        | inl e ↦
            unfold written in rw (e, delta_rows_unchanged s.id batch_id added removed e, append-nil)
        | inr e ↦ unfold written recorded in rw e
      ]

      members_kept :
          (if is_empty added && is_empty removed
            then (settled batch_id s new t).members
            else t.members)
          ≡ t.members
      members_kept = elim (Bool-cases (is_empty added && is_empty removed)) [
        | inl e ↦ unfold written in rw e
        | inr e ↦ rw e
      ]

  -- A forced or dynamic segment whose rule refers only to other segments, all of them there, is
  -- evaluated, if the database answers: the call does not throw, and the result and the tables meet the contract.
  pub evaluate_segment-Evaluated :
      (now : ℤ) (batch_id id : String) (force : Bool) (s : Segment) (t : Tables)
      → find_segment_row t.segments id ≡ some s
      → is_refused s force ≡ false
      → refers s.rule s.id ≡ false
      → ParentsExist s.rule t
      → (r : EvaluationResult) × (t' : Tables) × (evaluate_segment now batch_id id force t
          ≡ (ok r, t'))
        × Evaluated now s r t t'
        × (r.batch_id ≡ batch_id)
  unfolding evaluate_segment
  evaluate_segment-Evaluated now batch_id id force s t found allowed no_self exist =
      let (new, done, same, d) = evaluate_found-settled now batch_id s t no_self exist in
      (
        outcome batch_id s new t,
        settled batch_id s new t,
        rw (prisma.find_segment_lem t id, found, allowed) done,
        settled-Evaluated now batch_id s t new same d,
        refl,
      )

  -- Where every query and transaction answers, the call does all or nothing: either it throws by its
  -- own checks and every table is as it was, or it returns a result and the tables meet the contract
  -- for the segment of that id. Outage treats the calls that fail.
  pub evaluate_segment_atomic :
      (now : ℤ) (batch_id id : String) (force : Bool) (t : Tables)
      → ((e : Error) × (evaluate_segment now batch_id id force t ≡ (err e, t)))
        ⊎ ((s : Segment) × (r : EvaluationResult) × (t' : Tables) × (find_segment_row t.segments id
              ≡ some s)
            × (evaluate_segment now batch_id id force t ≡ (ok r, t'))
            × Evaluated now s r t t')
  evaluate_segment_atomic now batch_id id force t =
      elim (Option-cases (find_segment_row t.segments id)) [
        | inl unknown ↦
            inl
              (not_found id, unfold evaluate_segment in rw (prisma.find_segment_lem t id, unknown))
        | inr (s, found) ↦ elim (Bool-cases (is_refused s force)) [
          | inl refused ↦ inl (
            static_segment s.name,
            unfold evaluate_segment in rw (prisma.find_segment_lem t id, found, refused),
          )
          | inr allowed ↦ elim (replace_dependencies_cases s.id s.rule t) [
            | inl (no_self, exist) ↦
                let (r, t', done, meets, _) =
                  evaluate_segment-Evaluated now batch_id id force s t found allowed no_self
                    exist in
                inr (s, r, t', found, done, meets)
            | inr (e, failed) ↦ inl (
              e,
              unfold evaluate_segment evaluate_found in
                  rw (prisma.find_segment_lem t id, found, allowed, failed),
            )
          ]
        ]
      ]
