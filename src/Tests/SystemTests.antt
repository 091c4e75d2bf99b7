-- ===== src/Tests/SystemTests.antt =====
-- The services together on the small database.
use mathlib.Core.Option.{some-injective}
use optio_ai_assignment.Prelude.{
  ◌+◌, Bool-cases, inl, inr, ◌&&◌, String, true, false, not, ◌≡◌, refl, none, some, List, [], ◌∷◌,
  ◌++◌, map, filter, find, all, length, has, distinct, is_empty, arith, ◌==◌, eq_iff, if◌then◌else◌,
  ◌⊎◌,
}
use optio_ai_assignment.Prelude.Int.{ℤ, pos}
use optio_ai_assignment.Shared.Json.{Fields, no_fields, entry, string, field}
use optio_ai_assignment.Shared.Rule.{SegmentRule}
use optio_ai_assignment.Shared.Result.{Error, ok, err}
use optio_ai_assignment.Database.{Segment, Customer, Tables}
use optio_ai_assignment.Database.InMemory.{in_memory}
use optio_ai_assignment.Database.Views.{
  is_dynamic, find_segment_row, members_of, parents_of, children_of,
}
use optio_ai_assignment.Segments.Evaluator.Meaning.{refers}
use optio_ai_assignment.Segments.Evaluation.{EvaluationResult, delta_rows, evaluate_segment}
use optio_ai_assignment.Segments.Evaluation.Pass.{is_in, satisfies}
use optio_ai_assignment.Segments.Evaluation.Persist.{payload_of}
use optio_ai_assignment.Segments.Evaluation.Race.{evaluate_segment_at_once, evaluate_at_once}
use optio_ai_assignment.Segments.Evaluation.Race.Outcome.{evaluate_at_once_doubles}
use optio_ai_assignment.Segments.Rebuild.{rebuild_all_dynamic}
use optio_ai_assignment.Segments.Rebuild.Convergence.{AllInSync}
use optio_ai_assignment.Segments.Rebuild.Stuck.{HasCycle}
use optio_ai_assignment.Messaging.Campaign.{acked, requeued}
use optio_ai_assignment.Messaging.Cascade
use optio_ai_assignment.Messaging.Buffer.{ChangeBuffer, tick}
use optio_ai_assignment.Simulator.{simulate_transaction, simulate_profile}
use optio_ai_assignment.Simulator.Profile.{IsMerged, IsObject, simulate_profile_merges}
use optio_ai_assignment.System.Soundness.{IsSound}
use optio_ai_assignment.System.Steps.{Reaches, stay, go, ticks, races, pays}
use optio_ai_assignment.System.Consequences.{is_dynamic_id, cascade_settles, reachable_rebuild}
use optio_ai_assignment.System.History.{IsRecorded, replay}
use optio_ai_assignment.System.Recorded.{Reaches-IsRecorded}
use optio_ai_assignment.System.Announced.{IsUnique}
use optio_ai_assignment.System.Unique.{reachable_totals}
use optio_ai_assignment.Segments.Rebuild.{rebuild_all_dynamic}
use optio_ai_assignment.Prelude.{has}
use optio_ai_assignment.Segments.Evaluation.{evaluate_segment}
use optio_ai_assignment.Database.Views.{parents_of}
use optio_ai_assignment.Database.Views.{members_of}
use optio_ai_assignment.Tests.Data.{
  decimal_text, redis_sets, buyers, twins, picked, ann, base, env, event, buffered,
}
use optio_ai_assignment.Tests.SegmentTests.{base_distinct, twins_no_self, twins_exist, buyers_there}

false_not_true : false ≡ true → ⊥
false_not_true q = cc q

-- A row of the segments is one of the three.
data IsRow : String → Segment → Type 0 where
  is_twins : IsRow "twins" twins
  is_buyers : IsRow "buyers" buyers
  is_picked : IsRow "picked" picked

base_rows : (id : String) (s : Segment) → find_segment_row base.segments id ≡ some s → IsRow id s
base_rows id s found = elim (Bool-cases ("twins" == id)) [
  | inl e ↦ rw (← (eq_iff "twins" id).0 e, ← some-injective twins s (rw e at found)) is_twins
  | inr e ↦ elim (Bool-cases ("buyers" == id)) [
    | inl f ↦
        rw (← (eq_iff "buyers" id).0 f, ← some-injective buyers s (rw (e, f) at found)) is_buyers
    | inr f ↦ elim (Bool-cases ("picked" == id)) [
      | inl g ↦
          rw (← (eq_iff "picked" id).0 g, ← some-injective picked s (rw (e, f, g) at found))
            is_picked
      | inr g ↦ absurd (nothing (rw (e, f, g) at found))
    ]
  ]
]
  where
    nothing : none ≡ some s → ⊥
    nothing p = cc p

base_edges :
    (id p : String) → has (parents_of base.dependencies id) p ≡ ("twins" == id && "buyers" == p)
unfolding parents_of has
base_edges id p = ground arith

row_edges :
    (id : String) (s : Segment) (p : String)
    → IsRow id s
    → is_dynamic s ≡ true
    → has (parents_of base.dependencies id) p ≡ refers s.rule p
unfolding refers
row_edges id s p is_twins d = base_edges "twins" p
row_edges id s p is_buyers d = base_edges "buyers" p
row_edges id s p is_picked d = absurd (false_not_true d)

row_no_self :
    (id : String) (s : Segment) → IsRow id s → is_dynamic s ≡ true → refers s.rule id ≡ false
unfolding refers
row_no_self id s is_twins d = refl
row_no_self id s is_buyers d = refl
row_no_self id s is_picked d = absurd (false_not_true d)

base-IsSound : IsSound base
unfolding has
base-IsSound = record {
  ids = base_distinct;
  ends = λ id p m. ground (arith, base_edges id p);
  owners = λ id p m. ground (arith, base_edges id p);
  edges = λ id s found d x p. row_edges id s p (base_rows id s found) d;
  no_self = λ id s found d x. row_no_self id s (base_rows id s found) d;
}

-- A tick of the change buffer, two evaluations at once, and then a payment.
abbrev after_tick : ChangeBuffer
after_tick = tick env (buffered base)

abbrev after_race : ChangeBuffer
after_race = record after_tick {
  tables = (evaluate_segment_at_once (pos 2500) "first" "second" "twins" false after_tick.tables).1;
}

abbrev paid : ChangeBuffer
paid = (simulate_transaction "bob" (some (pos 700)) (pos 1500) after_race).1

base_path : Reaches (buffered base) paid
base_path =
    go
      (go (go stay (ticks env (buffered base)))
        (races (pos 2500) "first" "second" "twins" false after_tick))
      (pays "bob" (some (pos 700)) (pos 1500) after_race)

base-IsRecorded : IsRecorded base
unfolding members_of replay has
base-IsRecorded = record {
  recorded = λ id c s found d. refl;
  nobody = λ id c gone. refl;
  nothing = λ id c gone. refl;
}

pub base-IsUnique : IsUnique base
unfolding members_of distinct
base-IsUnique id = refl

reachable_rebuild_example :
    ((results : List EvaluationResult) × (t' : Tables) × (rebuild_all_dynamic env paid.tables
        ≡ (ok results, t'))
      × AllInSync env t' (filter is_dynamic paid.tables.segments))
    ⊎ (HasCycle (filter is_dynamic paid.tables.segments)
        × (e : Error) × (rebuild_all_dynamic env paid.tables ≡ (err e, paid.tables)))
reachable_rebuild_example = reachable_rebuild env (buffered base) paid base-IsSound base_path

cascade_settles_example : (Cascade.process env event base).0 ≡ (
    if all (is_dynamic_id base.segments) (children_of base.dependencies "buyers")
    then acked
    else requeued)
cascade_settles_example = cascade_settles env event base refl base-IsSound

Reaches-IsRecorded_example : IsRecorded paid.tables
Reaches-IsRecorded_example = Reaches-IsRecorded (buffered base) paid base-IsRecorded base_path

reachable_totals_example :
    ((e : Error) × (evaluate_segment (pos 2000) "batch" "twins" false paid.tables
        ≡ (err e, paid.tables)))
    ⊎ ((r : EvaluationResult) × (t' : Tables) × (evaluate_segment
            (pos 2000)
            "batch"
            "twins"
            false
            paid.tables
          ≡ (ok r, t'))
        × (r.total_members ≡ length (members_of t'.members "twins"))
        × (r.total_members + length r.removed
            ≡ length (members_of paid.tables.members "twins") + length r.added))
reachable_totals_example =
    reachable_totals (buffered base) paid (pos 2000) "batch" "twins" false base-IsUnique base_path

evaluate_at_once_doubles_example :
    (added removed : List String) × (t' : Tables) × (evaluate_at_once
        (pos 2000)
        "first"
        "second"
        twins
        base
      ≡ (ok tt, t'))
    × ((c : String)
        → has added c ≡ (satisfies (pos 2000) base twins.rule c && not (is_in base "twins" c)))
    × ((c : String)
        → has removed c ≡ (is_in base "twins" c && not (satisfies (pos 2000) base twins.rule c)))
    × ((id c : String)
        → is_in t' id c
          ≡ (if "twins" == id then satisfies (pos 2000) base twins.rule c else is_in base id c))
    × (t'.deltas
        ≡ base.deltas
          ++ delta_rows "twins" "first" added removed
          ++ delta_rows "twins" "second" added removed)
    × (map (λ e. e.payload) t'.outbox
        ≡ map (λ e. e.payload) base.outbox
          ++ (if is_empty added && is_empty removed
              then []
              else payload_of "twins" "Twins" "first" added removed
                ∷ payload_of "twins" "Twins" "second" added removed
                ∷ []))
evaluate_at_once_doubles_example =
    evaluate_at_once_doubles (pos 2000) "first" "second" twins base twins_no_self
      (twins_exist base buyers_there)

abbrev patch : Fields
patch = entry "country" (string "GE") no_fields

patch-IsObject : IsObject patch
unfolding field
patch-IsObject = (refl, tt)

simulate_profile_merges_example :
    (c : Customer) × (s' : ChangeBuffer) × (simulate_profile "ann" (some patch) (buffered base)
      ≡ (ok tt, s'))
    × IsMerged no_fields patch c
    × ((id : String)
        → find (λ u. u.id == id) s'.tables.customers
          ≡ (if id == "ann" then some c else find (λ u. u.id == id) base.customers))
    × (has s'.keys.buffer "ann" ≡ true)
    × ((now : ℤ) (rule : SegmentRule) (who : String)
        → satisfies now s'.tables rule who ≡ satisfies now base rule who)
simulate_profile_merges_example =
    simulate_profile_merges "ann" patch (buffered base) ann refl refl patch-IsObject
