-- ===== src/Tests/SegmentTests.antt =====
-- The evaluation, the order and the rebuild on the small database.
use mathlib.Core.Option.{some-injective}
use optio_ai_assignment.Prelude.{
  Bool-cases, inl, inr, add, ℕ, String, true, false, ◌||◌, ◌≡◌, refl, sym, subst, none, some, List,
  [], ◌∷◌, filter, length, has, distinct, arith, ◌==◌, eq_iff, if◌then◌else◌, ◌⊎◌,
}
use optio_ai_assignment.Prelude.Int.{ℤ, pos}
use optio_ai_assignment.Number.{of_ℕ, finite, infinity, is_finite, is_nan}
use optio_ai_assignment.Shared.Rule.{
  SegmentRule, compare, in_segment, and, cons, nil, tx_count_30d, ge,
}
use optio_ai_assignment.Shared.Result.{foreign_key, ok, err, missing_membership}
use optio_ai_assignment.Database.{Segment, Tables}
use optio_ai_assignment.Database.InMemory.{in_memory}
use optio_ai_assignment.Database.Views.{is_dynamic, segment_ids, find_segment_row}
use optio_ai_assignment.Segments.Metrics.{CustomerMetrics}
use optio_ai_assignment.Segments.Evaluator.{get, evaluate}
use optio_ai_assignment.Segments.Evaluator.Meaning.{holds, refers, LoadedAs, evaluate-holds}
use optio_ai_assignment.Segments.Dependency.{collect_parent_ids, replace_dependencies}
use optio_ai_assignment.Segments.Dependency.Edges.{ParentsExist, replaced, replace_dependencies-ok}
use optio_ai_assignment.Segments.Evaluation.{EvaluationResult, evaluate_segment}
use optio_ai_assignment.Segments.Evaluation.Pass.{is_in}
use optio_ai_assignment.Segments.Evaluation.Outage.{Outages, all_answer, evaluate_segment_failing}
use optio_ai_assignment.Segments.Evaluation.Outage.Cases.{FailsSafely, evaluate_segment-failing}
use optio_ai_assignment.Segments.Evaluation.Contract.{
  Evaluated, is_unchanged, evaluate_segment-Evaluated,
}
use optio_ai_assignment.Segments.Evaluation.Sync.{evaluate_segment_twice}
use optio_ai_assignment.Segments.Order.{refs_in, is_ready, place, topo_sort}
use optio_ai_assignment.Segments.Order.Sound.{IsOrdered, topo_sort-IsOrdered}
use optio_ai_assignment.Segments.Order.Complete.{IsRanked, topo_sort-total}
use optio_ai_assignment.Segments.Rebuild.{rebuild_all_dynamic}
use optio_ai_assignment.Segments.Rebuild.Convergence.{
  AllInSync, DynamicParentsExist, rebuild_all_dynamic-AllInSync,
}
use optio_ai_assignment.Segments.Rebuild.Cycles.{IsCycle}
use optio_ai_assignment.Tests.Data.{decimal_text, buyers, twins, base, entwined, env}

-- The rule of `twins` refers to the buyers, who are there.
pub twins_exist :
    (t : Tables) → has (segment_ids t.segments) "buyers" ≡ true → ParentsExist twins.rule t
unfolding refers
twins_exist t there p r = rw (← (eq_iff "buyers" p).0 r) there

pub twins_no_self : refers twins.rule "twins" ≡ false
unfolding refers
twins_no_self = refl

pub buyers_there : has (segment_ids base.segments) "buyers" ≡ true
unfolding has
buyers_there = refl

evaluate_segment-Evaluated_example :
    (r : EvaluationResult) × (t' : Tables) × (evaluate_segment (pos 2000) "batch" "twins" false base
      ≡ (ok r, t'))
    × Evaluated (pos 2000) twins r base t'
    × (r.batch_id ≡ "batch")
evaluate_segment-Evaluated_example =
    evaluate_segment-Evaluated (pos 2000) "batch" "twins" false twins base refl refl twins_no_self
      (twins_exist base buyers_there)

-- The transaction of the changes fails.
abbrev changes_fail : Outages
changes_fail = record all_answer { changes = some foreign_key }

evaluate_segment-failing_example :
    FailsSafely changes_fail (pos 2000) "batch" "twins" false base
    × (evaluate_segment_failing all_answer (pos 2000) "batch" "twins" false base
        ≡ evaluate_segment (pos 2000) "batch" "twins" false base)
evaluate_segment-failing_example =
    evaluate_segment-failing changes_fail (pos 2000) "batch" "twins" false base

evaluate_segment_twice_example :
    (r r' : EvaluationResult) × (t' t'' : Tables) × (evaluate_segment
        (pos 2000)
        "first"
        "twins"
        false
        base
      ≡ (ok r, t'))
    × (evaluate_segment (pos 2000) "second" "twins" false t' ≡ (ok r', t''))
    × (is_unchanged r' ≡ true)
    × (t''.members ≡ t'.members)
    × (t''.deltas ≡ t'.deltas)
    × (t''.outbox ≡ t'.outbox)
evaluate_segment_twice_example =
    evaluate_segment_twice (pos 2000) "first" "second" "twins" false twins base refl refl
      twins_no_self (twins_exist base buyers_there)

-- The buyers before the segments that refer to them.
abbrev pub rank : String → ℕ
rank id = if id == "twins" then 1 else 0

batch_ids :
    (p : String)
    → has (segment_ids (twins ∷ buyers ∷ [])) p ≡ true
    → ("twins" == p || "buyers" == p) ≡ true
unfolding has
batch_ids p m = ground arith

pub base_distinct : distinct (segment_ids base.segments) ≡ true
unfolding distinct has
base_distinct = refl

batch_distinct : distinct (segment_ids (filter is_dynamic base.segments)) ≡ true
unfolding distinct has
batch_distinct = refl

-- A row of the dynamic segments is one of the two.
pub row_cases :
    (id : String) (s : Segment)
    → find_segment_row (twins ∷ buyers ∷ []) id ≡ some s
    → (("twins" ≡ id) × (twins ≡ s)) ⊎ (("buyers" ≡ id) × (buyers ≡ s))
row_cases id s found = elim (Bool-cases ("twins" == id)) [
  | inl e ↦ inl ((eq_iff "twins" id).0 e, some-injective twins s (rw e at found))
  | inr e ↦ elim (Bool-cases ("buyers" == id)) [
    | inl f ↦ inr ((eq_iff "buyers" id).0 f, some-injective buyers s (rw (e, f) at found))
    | inr f ↦ absurd (nothing (rw (e, f) at found))
  ]
]
  where
    nothing : none ≡ some s → ⊥
    nothing p = cc p

pub base-IsRanked : IsRanked rank (filter is_dynamic base.segments)
unfolding refers
base-IsRanked id s p found r m = elim (row_cases id s found) [
  | inl (here, row) ↦
      let reference : "buyers" ≡ p =
        (eq_iff "buyers" p).0 (subst (λ x. refers x.rule p ≡ true) (sym row) r) in
      rw (← here, ← reference) (omega arith)
  | inr (here, row) ↦ absurd (false_not_true (subst (λ x. refers x.rule p ≡ true) (sym row) r))
]
  where
    false_not_true : false ≡ true → ⊥
    false_not_true q = cc q

pub base_exist : DynamicParentsExist base
unfolding refers
base_exist id s found = elim (row_cases id s found) [
  | inl (here, row) ↦ subst (λ x. ParentsExist x.rule base) row (twins_exist base buyers_there)
  | inr (here, row) ↦ subst (λ x. ParentsExist x.rule base) row (λ p r. absurd (false_not_true r))
]
  where
    false_not_true : false ≡ true → ⊥
    false_not_true q = cc q

rebuild_all_dynamic-AllInSync_example :
    (results : List EvaluationResult) × (t' : Tables) × (rebuild_all_dynamic env base
      ≡ (ok results, t'))
    × AllInSync env t' (filter is_dynamic base.segments)
    × (t'.segments ≡ base.segments)
    × ((id c : String)
        → is_in t' id c ≡ (
            if has (segment_ids (filter is_dynamic base.segments)) id
            then is_in t' id c
            else is_in base id c))
rebuild_all_dynamic-AllInSync_example =
    rebuild_all_dynamic-AllInSync env rank base base_distinct base-IsRanked base_exist

topo_sort-total_example : (out : List Segment) × (topo_sort (twins ∷ buyers ∷ []) ≡ ok out)
topo_sort-total_example = topo_sort-total rank (twins ∷ buyers ∷ []) batch_distinct base-IsRanked

sorted : topo_sort (twins ∷ buyers ∷ []) ≡ ok (buyers ∷ twins ∷ [])
unfolding topo_sort place is_ready refs_in collect_parent_ids add has
sorted = refl

topo_sort-IsOrdered_example :
    IsOrdered (twins ∷ buyers ∷ []) [] (buyers ∷ twins ∷ [])
    × (length (buyers ∷ twins ∷ []) ≡ length (twins ∷ buyers ∷ []))
topo_sort-IsOrdered_example =
    topo_sort-IsOrdered (twins ∷ buyers ∷ []) (buyers ∷ twins ∷ []) batch_distinct sorted

-- The two entwined segments.
abbrev tied : Segment
tied = record buyers { rule = in_segment "twins" }

pub entwined_distinct : distinct (segment_ids entwined.segments) ≡ true
unfolding distinct has
entwined_distinct = refl

pub entwined-IsCycle : IsCycle (λ id. true) (filter is_dynamic entwined.segments)
unfolding refers has
entwined-IsCycle id s found inside = elim (Bool-cases ("twins" == id)) [
  | inl e ↦
      let row : twins ≡ s = some-injective twins s (rw e at found) in
      subst
        (λ x.
          (p : String) × (refers x.rule p ≡ true)
          × (has (segment_ids (twins ∷ tied ∷ [])) p ≡ true)
          × (true ≡ true))
        row ("buyers", refl, refl, refl)
  | inr e ↦ elim (Bool-cases ("buyers" == id)) [
    | inl f ↦
        let row : tied ≡ s = some-injective tied s (rw (e, f) at found) in
        subst
          (λ x.
            (p : String) × (refers x.rule p ≡ true)
            × (has (segment_ids (twins ∷ tied ∷ [])) p ≡ true)
            × (true ≡ true))
          row ("twins", refl, refl, refl)
    | inr f ↦ absurd (nothing (rw (e, f) at found))
  ]
]
  where
    nothing : none ≡ some s → ⊥
    nothing p = cc p

pub entwined_there : has (segment_ids (filter is_dynamic entwined.segments)) "twins" ≡ true
unfolding has
entwined_there = refl

abbrev some_metrics : CustomerMetrics
some_metrics = record {
  tx_count_30d = finite (pos 1);
  tx_count_total = finite (pos 2);
  sum_amount_60d = finite (pos 3);
  last_tx_age_days = infinity;
}

-- A buyer with a transaction in the last 30 days.
abbrev recent_buyer : SegmentRule
recent_buyer = and (cons (in_segment "buyers") (cons (compare tx_count_30d ge (of_ℕ 1)) nil))

ann_loaded :
    (id : String)
    → refers recent_buyer id ≡ true
    → LoadedAs (("buyers", "ann" ∷ []) ∷ []) "ann" (λ s. true) id
unfolding refers get has
ann_loaded id r =
    subst (LoadedAs (("buyers", "ann" ∷ []) ∷ []) "ann" (λ s. true))
      ((eq_iff "buyers" id).0 (ground arith)) ("ann" ∷ [], refl, refl)

evaluate-holds_example :
    evaluate recent_buyer some_metrics (("buyers", "ann" ∷ []) ∷ []) "ann"
    ≡ ok (holds recent_buyer some_metrics (λ s. true))
evaluate-holds_example =
    evaluate-holds some_metrics (("buyers", "ann" ∷ []) ∷ []) "ann" (λ s. true) recent_buyer
      ann_loaded

replace_dependencies-ok_example :
    replace_dependencies "twins" twins.rule base
    ≡ (ok tt, record base { dependencies = replaced "twins" twins.rule base.dependencies })
replace_dependencies-ok_example =
    replace_dependencies-ok "twins" twins.rule base twins_no_self (twins_exist base buyers_there)

not_nan : (n : ℤ) → is_nan (finite n) ≡ false
unfolding is_nan
not_nan n = refl

five_finite : is_finite (finite (pos 5)) ≡ true
unfolding is_finite
five_finite = refl

unloaded : evaluate (in_segment "buyers") some_metrics [] "ann" ≡ err (missing_membership "buyers")
unfolding evaluate get
unloaded = refl
