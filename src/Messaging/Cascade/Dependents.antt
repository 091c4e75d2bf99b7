-- ===== src/Messaging/Cascade/Dependents.antt =====
-- A change of a segment brings the segments that refer to it up to date.
use mathlib.Core.Option.{some-injective}
use optio_ai_assignment.Prelude.{
  String, true, false, ◌≡◌, refl, sym, subst, ◌∙◌, some, List, [], ◌∷◌, has, is_empty, ◌==◌, eq_iff,
  arith, if◌then◌else◌, Bool-cases, inl, inr,
}
use optio_ai_assignment.Shared.Events.{segment_delta, EventEnvelope}
use optio_ai_assignment.Shared.Result.{ok, pure}
use optio_ai_assignment.Database.{Segment, Tables}
use optio_ai_assignment.Database.Views.{find_segment_row, children_of}
use optio_ai_assignment.Database.Prisma.{Prisma}
use optio_ai_assignment.Segments.Metrics.{DecimalText}
use optio_ai_assignment.Segments.Evaluator.Meaning.{refers}
use optio_ai_assignment.Segments.Dependency.Edges.{ParentsExist}
use optio_ai_assignment.Segments.Evaluation.{EvaluationResult, is_refused}
use optio_ai_assignment.Segments.Evaluation.Pass.{is_in}
use optio_ai_assignment.Segments.Evaluation.Contract.{Evaluated, evaluate_segment-Evaluated}
use optio_ai_assignment.Segments.Evaluation.Sync.{InSync, Evaluated-InSync, Evaluated-keeps}
use optio_ai_assignment.Segments.Order.Finding.{find_segment_row-id}
use optio_ai_assignment.Segments.Rebuild.{Surroundings}
use optio_ai_assignment.Messaging.Campaign.{acked}
use optio_ai_assignment.Messaging.Cascade.{evaluate_children, handle, process}

-- The row of a dependent: it can be evaluated without force, and refers to none of the `children`.
pub record IsDependent (children : List String) (t : Tables) (id : String) : Type 0 where
  pub row : Segment
  pub found : find_segment_row t.segments id ≡ some row
  pub allowed : is_refused row false ≡ false
  pub parents : ParentsExist row.rule t
  pub apart : (child : String) → has children child ≡ true → refers row.rule child ≡ false

IsDependent-transfer :
    {children : List String} {t u : Tables} {id : String}
    → u.segments ≡ t.segments
    → IsDependent children t id
    → IsDependent children u id
IsDependent-transfer e fit = record {
  row = fit.row;
  found = rw e fit.found;
  allowed = fit.allowed;
  parents = λ p r. rw e (fit.parents p r);
  apart = fit.apart;
}

-- The dependents of the segment can all be evaluated, and none refers to another.
abbrev pub AllDependent : Tables → List String → Type 0
AllDependent t children = (id : String) → has children id ≡ true → IsDependent children t id

module _ ⦃prisma : Prisma⦄ ⦃text : DecimalText⦄ (env : Surroundings) (children : List String) where
  -- What the loop over `rest` leaves behind.
  record Done (rest : List String) (t : Tables) : Type 0 where
    after : Tables
    ran : evaluate_children env rest t ≡ (ok tt, after)
    segments : after.segments ≡ t.segments
    keeps :
        (id : String) (s : Segment)
        → find_segment_row t.segments id ≡ some s
        → has rest id ≡ false
        → has children id ≡ true
        → InSync (env.now id) t s
        → InSync (env.now id) after s
    here :
        (id : String) (s : Segment)
        → find_segment_row t.segments id ≡ some s
        → has rest id ≡ true
        → InSync (env.now id) after s
    others : (id c : String) → has rest id ≡ false → is_in after id c ≡ is_in t id c

  no_self :
      {t : Tables} {id : String} (fit : IsDependent children t id)
      → has children id ≡ true
      → refers fit.row.rule fit.row.id ≡ false
  no_self {t = t} {id = id} fit m =
      fit.apart fit.row.id (rw (find_segment_row-id t.segments id fit.row fit.found) m)

  -- A pass over one child keeps another in sync.
  child_keeps :
      (child : String) {t t1 : Tables} {s0 : Segment} {r : EvaluationResult} (id : String)
      (s : Segment)
      → AllDependent t children
      → Evaluated (env.now child) s0 r t t1
      → find_segment_row t.segments child ≡ some s0
      → has children child ≡ true
      → find_segment_row t.segments id ≡ some s
      → has children id ≡ true
      → (child == id) ≡ false
      → InSync (env.now id) t s
      → InSync (env.now id) t1 s
  child_keeps child {t = t} {t1 = t1} {s0 = s0} id s fit meets found0 m0 found m other sync =
      let same0 : s0.id ≡ child = find_segment_row-id t.segments child s0 found0 in
      let same : s.id ≡ id = find_segment_row-id t.segments id s found in
      let row : (fit id m).row ≡ s =
        some-injective (fit id m).row s (sym (fit id m).found ∙ found) in
      Evaluated-keeps meets (env.now id) s (λ q. ground (arith, eq_iff child id, same, same0))
        (rw same0 (subst (λ x. refers x.rule child ≡ false) row ((fit id m).apart child m0))) sync

  evaluate_children-Done :
      (rest : List String) (t : Tables)
      → AllDependent t children
      → ((id : String) → has rest id ≡ true → has children id ≡ true)
      → Done rest t
  unfolding evaluate_children has
  evaluate_children-Done [] t fit inside = record {
    after = t;
    ran = refl;
    segments = refl;
    keeps = λ id s f n m sync. sync;
    here = λ id s f m. absurd (ground arith);
    others = λ id c n. refl;
  }
  evaluate_children-Done (child ∷ rest) t fit inside =
      let m0 : has children child ≡ true = inside child (ground (arith, eq_iff child child)) in
      let dep = fit child m0 in
      let same : dep.row.id ≡ child = find_segment_row-id t.segments child dep.row dep.found in
      let (r, t1, ran, meets, _) =
        evaluate_segment-Evaluated (env.now child) (env.batch_id child) child false dep.row t
          dep.found dep.allowed (no_self dep m0) dep.parents in
      let later =
        evaluate_children-Done rest t1 (λ id m. IsDependent-transfer meets.segments (fit id m))
          (λ id m. inside id (ground arith)) in
      record {
        after = later.after;
        ran = rw ran later.ran;
        segments = later.segments ∙ meets.segments;
        keeps = λ id s f n m sync.
            later.keeps id s (rw meets.segments f) (ground arith) m
              (child_keeps child id s fit meets dep.found m0 f m (ground arith) sync);
        here = λ id s f m. elim (Bool-cases (has rest id)) [
          | inl again ↦ later.here id s (rw meets.segments f) again
          | inr last ↦
              let e : child ≡ id = ground (arith, eq_iff child id) in
              let row : dep.row ≡ s = some-injective dep.row s (sym dep.found ∙ rw e f) in
              later.keeps id s (rw meets.segments f) last (inside id m) (
                subst (λ x. InSync (env.now x) t1 s) e
                  (subst (λ x. InSync (env.now child) t1 x) row
                    (Evaluated-InSync meets (no_self dep m0))))
        ];
        others =
            λ id c n. later.others id c (ground arith) ∙ ground (arith, meets.members id c, same);
      }

module _ ⦃prisma : Prisma⦄ ⦃text : DecimalText⦄ where
  -- The handler runs the loop over the dependents, also when there are none.
  pub handle-children :
      (env : Surroundings) (e : EventEnvelope) (t : Tables)
      → e.event_type ≡ segment_delta
      → handle env e t ≡ evaluate_children env (children_of t.dependencies e.payload.segment_id) t
  unfolding handle evaluate_children
  handle-children env e t typed =
      rw
        (
          (eq_iff e.event_type segment_delta).1 typed,
          prisma.find_dependents_lem t e.payload.segment_id,
        )
        (nothing (children_of t.dependencies e.payload.segment_id))
    where
      nothing :
          (children : List String)
          → (if is_empty children then pure tt else evaluate_children env children) t
            ≡ evaluate_children env children t
      nothing [] = refl
      nothing (child ∷ rest) = refl

  -- If the segments that depend on the changed one can all be evaluated and none of them refers to
  -- another of them, a delivery of the change is acknowledged; after it each of them has exactly the
  -- members that satisfy its rule, and the members of every other segment are as they were.
  pub process-InSync :
      (env : Surroundings) (e : EventEnvelope) (t : Tables) (child : String) (s : Segment)
      → e.event_type ≡ segment_delta
      → AllDependent t (children_of t.dependencies e.payload.segment_id)
      → has (children_of t.dependencies e.payload.segment_id) child ≡ true
      → find_segment_row t.segments child ≡ some s
      → ((process env e t).0 ≡ acked)
        × InSync (env.now child) (process env e t).1 s
        × ((id c : String)
            → is_in (process env e t).1 id c ≡ (
                if has (children_of t.dependencies e.payload.segment_id) id
                then is_in (process env e t).1 id c
                else is_in t id c))
  unfolding process
  process-InSync env e t child s typed fit there found =
      let children : List String = children_of t.dependencies e.payload.segment_id in
      let done = evaluate_children-Done env children children t fit (λ id m. m) in
      rw (handle-children env e t typed, done.ran)
        (
          refl,
          done.here child s found there,
          λ id c. elim (Bool-cases (has children id)) [
            | inl inside ↦ rw inside
            | inr outside ↦ rw outside (done.others id c outside)
          ],
        )
