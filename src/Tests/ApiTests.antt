-- ===== src/Tests/ApiTests.antt =====
-- The endpoints and the simulator at concrete inputs.
use optio_ai_assignment.Prelude.{
  ℕ, ◌*◌, ◌≤◌, String, true, false, ◌||◌, ◌≡◌, refl, subst, none, some, List, [], ◌∷◌, ◌++◌, has,
  to_set_onto, add, is_empty, arith, eq_iff,
}
use optio_ai_assignment.Prelude.Int.{pos, ◌+ℤ◌, lt_ℤ}
use optio_ai_assignment.Number.{is_finite, lt, of_ℕ}
use optio_ai_assignment.Shared.Rule.{SegmentRule, in_segment}
use optio_ai_assignment.Shared.Result.{Error, ok, err}
use optio_ai_assignment.Database.{dynamic, Segment, Transaction, Tables}
use optio_ai_assignment.Database.InMemory.{in_memory}
use optio_ai_assignment.Database.Views.{
  segment_ids, find_segment_row, members_of, replace_row, children_of, customer_ids,
}
use optio_ai_assignment.Segments.Metrics.{days, compute_all}
use optio_ai_assignment.Segments.Evaluator.Meaning.{refers}
use optio_ai_assignment.Segments.Evaluation.{evaluate_segment}
use optio_ai_assignment.Segments.Evaluation.Sync.{InSync}
use optio_ai_assignment.Segments.Rebuild.{rebuild_all_dynamic}
use optio_ai_assignment.Messaging.Buffer.{ChangeBuffer, mark_changed_many}
use optio_ai_assignment.Api.Rules.{validate_rule}
use optio_ai_assignment.Api.Rules.Written.{to_json, fits, validate_rule-to_json}
use optio_ai_assignment.Api.Rules.Validated.{validate_rule-fits}
use optio_ai_assignment.Api.Segments.{CreateSegmentBody, SegmentDetail, create, update, remove}
use optio_ai_assignment.Api.Segments.Creating.{create-InSync}
use optio_ai_assignment.Api.Segments.Updating.{rule_body, update-InSync}
use optio_ai_assignment.Api.Segments.TwoCycle.{update_accepts_cycle}
use optio_ai_assignment.Api.Segments.Removing.{remove_dangling}
use optio_ai_assignment.Api.Listing.{MemberRow, members}
use optio_ai_assignment.Api.Listing.Pages.{
  fetched, rows_in, Rearranges, times, times_id, members_pages,
}
use optio_ai_assignment.Simulator.{
  floor_days, drawn, unit, passes, bulk_loop, BulkResult, simulate_bulk, AdvanceResult,
  advance_time,
}
use optio_ai_assignment.Simulator.Bulk.{simulate_bulk-inserts}
use optio_ai_assignment.Simulator.Clock.{advance_time-clock}
use optio_ai_assignment.Tests.Data.{
  decimal_text, redis_sets, buyers, twins, picked, ann, bob, base, env, bought, buffered,
}
use optio_ai_assignment.Tests.SegmentTests.{twins_exist, twins_no_self, buyers_there, base_distinct}

twins_fit : fits 33 twins.rule ≡ true
unfolding fits
twins_fit = refl

validate_rule-to_json_example : validate_rule (to_json twins.rule) ≡ ok twins.rule
validate_rule-to_json_example = validate_rule-to_json twins.rule twins_fit

validate_rule-fits_example : fits 33 twins.rule ≡ true
validate_rule-fits_example =
    validate_rule-fits (to_json twins.rule) twins.rule (validate_rule-to_json twins.rule twins_fit)

abbrev body : CreateSegmentBody
body = record {
  name = some "More";
  description = none;
  type = some dynamic;
  rule = to_json twins.rule;
  initial_member_ids = [];
}

new_is_fresh : has (segment_ids base.segments) "new" ≡ false
unfolding has
new_is_fresh = refl

create-InSync_example :
    (s : Segment) × (d : SegmentDetail) × (t' : Tables) × (create env body base ≡ (ok d, t'))
    × (d.id ≡ s.id)
    × (has (segment_ids base.segments) s.id ≡ false)
    × (s.name ≡ "More")
    × (s.rule ≡ twins.rule)
    × (t'.segments ≡ base.segments ++ s ∷ [])
    × InSync (pos 2000) t' s
create-InSync_example =
    create-InSync env body "More" twins.rule base refl refl refl
      (validate_rule-to_json twins.rule twins_fit) (twins_exist base buyers_there) refl new_is_fresh

update-InSync_example :
    (d : SegmentDetail) × (t' : Tables) × (update env "twins" (rule_body (to_json twins.rule)) base
      ≡ (ok d, t'))
    × (t'.segments ≡ replace_row twins base.segments)
    × InSync (pos 2000) t' twins
update-InSync_example =
    update-InSync env (to_json twins.rule) twins.rule twins base refl refl
      (validate_rule-to_json twins.rule twins_fit) twins_no_self (twins_exist base buyers_there)

-- The rule that ties the buyers to the twins.
abbrev back : SegmentRule
back = in_segment "twins"

back_fit : fits 33 back ≡ true
unfolding fits
back_fit = refl

twins_to_buyers : refers twins.rule "buyers" ≡ true
unfolding refers
twins_to_buyers = refl

back_to_twins : refers back "twins" ≡ true
unfolding refers
back_to_twins = refl

back_not_self : refers back "buyers" ≡ false
unfolding refers
back_not_self = refl

back_exist : (p : String) → refers back p ≡ true → has (segment_ids base.segments) p ≡ true
unfolding refers has
back_exist p r = subst (λ x. has (segment_ids base.segments) x ≡ true) ((eq_iff "twins" p).0 r) refl

update_accepts_cycle_example :
    (d : SegmentDetail) × (t' : Tables) × (e : Error) × (update env "buyers"
        (rule_body (to_json back))
        base
      ≡ (ok d, t'))
    × (rebuild_all_dynamic env t' ≡ (err e, t'))
update_accepts_cycle_example =
    update_accepts_cycle env env (to_json back) back twins buyers base base_distinct refl refl refl
      refl refl twins_to_buyers (validate_rule-to_json back back_fit) back_to_twins back_not_self
      back_exist

-- Before the static segment was refreshed, no edge says that it depends on the buyers.
abbrev unlinked : Tables
unlinked = record base { segments = buyers ∷ picked ∷ []; dependencies = [] }

no_children : is_empty (children_of unlinked.dependencies "buyers") ≡ true
unfolding children_of
no_children = refl

picked_to_buyers : refers picked.rule "buyers" ≡ true
unfolding refers
picked_to_buyers = refl

remove_dangling_example :
    (t' : Tables) × (e : Error) × (remove "buyers" unlinked ≡ (ok tt, t'))
    × (has (segment_ids t'.segments) "buyers" ≡ false)
    × (find_segment_row t'.segments "picked" ≡ some picked)
    × (evaluate_segment (pos 2000) "batch" "picked" true t' ≡ (err e, t'))
remove_dangling_example =
    remove_dangling (pos 2000) "batch" "buyers" buyers picked unlinked refl no_children refl refl
      picked_to_buyers

ghost_absent : has (segment_ids base.segments) "ghost" ≡ false
unfolding has
ghost_absent = refl

ghost_referred : refers (in_segment "ghost") "ghost" ≡ true
unfolding refers
ghost_referred = refl

abbrev as_read : List MemberRow → List MemberRow
as_read rows = rows

as_read-Rearranges : Rearranges as_read
as_read-Rearranges = record { same_length = λ rows. refl; same_sum = λ w rows. refl }

-- Ann and Bob, both in the segment of buyers.
abbrev peopled : Tables
peopled = record base {
  customers = ann ∷ bob ∷ [];
  members =
      record { segment_id = "buyers"; customer_id = "bob" }
      ∷ record { segment_id = "twins"; customer_id = "ann" }
      ∷ record { segment_id = "buyers"; customer_id = "ann" }
      ∷ [];
}

both_known :
    (x : String)
    → has (members_of peopled.members "buyers") x ≡ true
    → has (customer_ids peopled.customers) x ≡ true
unfolding members_of has
both_known x h = ground arith

two_in : (members as_read "buyers" (some (pos 1)) (some (pos 0)) peopled).total ≤ 2 * 1
unfolding members members_of
two_in = omega arith

members_pages_example :
    (fetched as_read "buyers" 1 peopled 2 0 ≡ as_read (rows_in peopled "buyers"))
    × ((c : String)
        → times c (fetched as_read "buyers" 1 peopled 2 0)
          ≡ times_id c (members_of peopled.members "buyers"))
members_pages_example =
    members_pages as_read "buyers" 1 peopled 2 as_read-Rearranges both_known (omega arith)
      (omega arith) two_in

abbrev draw : ℕ → Transaction
draw i = bought

simulate_bulk-inserts_example :
    (r : BulkResult) × (s' : ChangeBuffer) × (simulate_bulk draw
        (5 * unit)
        (2 * unit)
        (buffered base)
      ≡ (ok r, s'))
    × (r.inserted ≡ 5 * unit)
    × (s'.tables.transactions ≡ base.transactions ++ drawn draw 0 (passes (5 * unit)))
    × ((n : ℕ) → 5 * unit ≡ n * unit → passes (5 * unit) ≡ n)
simulate_bulk-inserts_example =
    simulate_bulk-inserts draw (5 * unit) 2 (buffered base) (omega arith) (omega arith)
      (omega arith) (omega arith) refl

-- A count of 3 in chunks of one and a half: four rows, and 3 reported.
bulk_fraction :
    ((bulk_loop draw 3 (3 * unit) 98304 0 0 0 (buffered base)).0 ≡ 3 * unit)
    × ((bulk_loop draw 3 (3 * unit) 98304 0 0 0 (buffered base)).1.tables.transactions
        ≡ base.transactions ++ drawn draw 0 4)
unfolding bulk_loop drawn mark_changed_many to_set_onto add has
bulk_fraction = (refl, refl)

two_days : is_finite (of_ℕ 2) ≡ true
unfolding of_ℕ is_finite
two_days = refl

not_less : lt (of_ℕ 2) (of_ℕ 1) ≡ false
unfolding of_ℕ lt lt_ℤ
not_less = refl

not_more : lt (of_ℕ 365) (of_ℕ 2) ≡ false
unfolding of_ℕ lt lt_ℤ
not_more = refl

advance_time-clock_example :
    (r : AdvanceResult) × (s' : ChangeBuffer) × (advance_time (of_ℕ 2) (buffered base) ≡ (ok r, s'))
    × (compute_all (pos 2000) s'.tables ≡ compute_all (pos 2000 +ℤ days (floor_days (of_ℕ 2))) base)
    × ((c : String)
        → has s'.keys.buffer c ≡ (has ("ann" ∷ []) c || has (customer_ids base.customers) c))
advance_time-clock_example =
    advance_time-clock (of_ℕ 2) (pos 2000) (buffered base) two_days not_less not_more
