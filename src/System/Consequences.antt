-- ===== src/System/Consequences.antt =====
-- What soundness gives the rebuild and the cascade: they do not depend on luck with the data.
use optio_ai_assignment.Prelude.{
  String, Bool, true, false, not, ◌≡◌, refl, sym, subst, ◌∙◌, Option, some, none, List, [], ◌∷◌,
  filter, all, has, eq_iff, arith, if◌then◌else◌, Bool-cases, inl, inr, ◌⊎◌,
}
use optio_ai_assignment.Shared.Events.{segment_delta, EventEnvelope}
use optio_ai_assignment.Shared.Result.{Error, ok, err, static_segment}
use optio_ai_assignment.Database.{Segment, Tables}
use optio_ai_assignment.Database.DependencyLaws.{children-parents}
use optio_ai_assignment.Database.Views.{is_dynamic, segment_ids, find_segment_row, children_of}
use optio_ai_assignment.Database.Prisma.{Prisma}
use optio_ai_assignment.Segments.Metrics.{DecimalText}
use optio_ai_assignment.Segments.Evaluator.Meaning.{refers}
use optio_ai_assignment.Segments.Evaluation.{EvaluationResult, is_refused, evaluate_segment}
use optio_ai_assignment.Segments.Evaluation.Contract.{evaluate_segment-Evaluated}
use optio_ai_assignment.Segments.Order.Finding.{
  find_segment_row-id, find_segment_row-total, find_segment_row-filter,
}
use optio_ai_assignment.Segments.Rebuild.{Surroundings, rebuild_all_dynamic}
use optio_ai_assignment.Segments.Rebuild.Convergence.{IsFit, AllInSync}
use optio_ai_assignment.Segments.Rebuild.Stuck.{HasCycle, rebuild_all_dynamic-cases}
use optio_ai_assignment.Messaging.Campaign.{acked, requeued}
use optio_ai_assignment.Messaging.Buffer.{Redis, ChangeBuffer}
use optio_ai_assignment.Messaging.Cascade
use optio_ai_assignment.Messaging.Cascade.{settle, evaluate_children}
use optio_ai_assignment.Messaging.Cascade.Dependents.{handle-children}
use optio_ai_assignment.System.Soundness.{
  IsSound, IsSound-ParentsExist, Evaluated-IsSound, IsSoundBut-weaken,
}
use optio_ai_assignment.System.Steps.{Reaches}
use optio_ai_assignment.System.Invariant.{Reaches-IsSound}

at_own_id :
    (rows : List Segment) (id : String) (s : Segment)
    → find_segment_row rows id ≡ some s
    → find_segment_row rows s.id ≡ some s
at_own_id rows id s found =
    subst (λ x. find_segment_row rows x ≡ some s) (sym (find_segment_row-id rows id s found)) found

own_no_self :
    (t : Tables) (id : String) (s : Segment)
    → IsSound t
    → find_segment_row t.segments id ≡ some s
    → is_dynamic s ≡ true
    → refers s.rule s.id ≡ false
own_no_self t id s h found d =
    subst (λ x. refers s.rule x ≡ false) (sym (find_segment_row-id t.segments id s found))
      (h.no_self id s found d refl)

IsSound-IsFit :
    (t : Tables) (id : String) (s : Segment)
    → IsSound t
    → find_segment_row (filter is_dynamic t.segments) id ≡ some s
    → IsFit t s
IsSound-IsFit t id s h found =
    let (row, good) = find_segment_row-filter is_dynamic t.segments id s h.ids found in
    record {
      found = at_own_id t.segments id s row;
      dynamic_type = good;
      no_self = own_no_self t id s h row good;
      parents = IsSound-ParentsExist id s h row good;
    }

-- The id is that of a dynamic segment.
abbrev dynamic_row : Option Segment → Bool
dynamic_row none = false
dynamic_row (some s) = is_dynamic s

abbrev pub is_dynamic_id : List Segment → String → Bool
is_dynamic_id rows id = dynamic_row (find_segment_row rows id)

allowed : (s : Segment) → is_refused s false ≡ not (is_dynamic s)
allowed s = ground arith

module _ ⦃prisma : Prisma⦄ ⦃text : DecimalText⦄ where
  settle-evaluate_children :
      (env : Surroundings) (children : List String) (t : Tables)
      → IsSound t
      → ((id : String) → has children id ≡ true → has (segment_ids t.segments) id ≡ true)
      → settle (evaluate_children env children t).0
        ≡ (if all (is_dynamic_id t.segments) children then acked else requeued)
  unfolding evaluate_children has
  settle-evaluate_children env [] t h there = refl
  settle-evaluate_children env (id ∷ rest) t h there =
      let (s, found) =
        find_segment_row-total t.segments id (there id (ground (arith, eq_iff id id))) in
      elim (Bool-cases (is_dynamic s)) [
        | inr fixed ↦ rw (refused s found fixed, found, fixed)
        | inl d ↦
            let other = own_no_self t id s h found d in
            let exist = IsSound-ParentsExist id s h found d in
            let (r, t', ran, meets, _) =
              evaluate_segment-Evaluated (env.now id) (env.batch_id id) id false s t found
                (allowed s ∙ rw d) other exist in
            let sound : IsSound t' =
              Evaluated-IsSound meets (at_own_id t.segments id s found) other exist
                (IsSoundBut-weaken s.id h) in
            let later =
              settle-evaluate_children env rest t' sound
                (λ x m. rw meets.segments (there x (ground arith))) in
            rw (ran, found, d) (later ∙ rw meets.segments)
      ]
    where
      refused :
          (s : Segment)
          → find_segment_row t.segments id ≡ some s
          → is_dynamic s ≡ false
          → evaluate_segment (env.now id) (env.batch_id id) id false t
            ≡ (err (static_segment s.name), t)
      refused s found fixed =
          unfold evaluate_segment in rw (prisma.find_segment_lem t id, found, allowed s, fixed)

  -- On sound tables a delivery of a delta event is acknowledged if every segment that depends on the
  -- changed one is dynamic, and requeued otherwise.
  pub cascade_settles :
      (env : Surroundings) (e : EventEnvelope) (t : Tables)
      → e.event_type ≡ segment_delta
      → IsSound t
      → (Cascade.process env e t).0 ≡ (
          if all (is_dynamic_id t.segments) (children_of t.dependencies e.payload.segment_id)
          then acked
          else requeued)
  unfolding Cascade.process
  cascade_settles env e t typed h = rw (handle-children env e t typed) (
      settle-evaluate_children env (children_of t.dependencies e.payload.segment_id) t h (λ id m.
        h.owners id e.payload.segment_id
          (sym (children-parents t.dependencies e.payload.segment_id id) ∙ m)))

module _ ⦃prisma : Prisma⦄ ⦃text : DecimalText⦄ ⦃redis : Redis⦄ where
  -- In every state that the service can reach from sound tables, a rebuild either returns and leaves
  -- every dynamic segment with exactly the members that satisfy its rule, or it throws and changes no
  -- table; and it throws only if some dynamic segments refer to one another in a cycle.
  pub reachable_rebuild :
      (env : Surroundings) (s s' : ChangeBuffer)
      → IsSound s.tables
      → Reaches s s'
      → ((results : List EvaluationResult) × (t' : Tables) × (rebuild_all_dynamic env s'.tables
            ≡ (ok results, t'))
          × AllInSync env t' (filter is_dynamic s'.tables.segments))
        ⊎ (HasCycle (filter is_dynamic s'.tables.segments)
            × (e : Error) × (rebuild_all_dynamic env s'.tables ≡ (err e, s'.tables)))
  reachable_rebuild env s s' h reached =
      let sound = Reaches-IsSound s s' h reached in
      rebuild_all_dynamic-cases env s'.tables sound.ids
        (λ id u found. IsSound-IsFit s'.tables id u sound found)
