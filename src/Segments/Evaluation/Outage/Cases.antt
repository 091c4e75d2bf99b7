-- ===== src/Segments/Evaluation/Outage/Cases.antt =====
-- What comes of an evaluation of which calls fail.
use optio_ai_assignment.Prelude.{
  String, Bool, none, some, Option-cases, Bool-cases, false, ◌≡◌, refl, sym, ◌∙◌, ◌⊎◌, [], is_empty,
  inl, inr,
}
use optio_ai_assignment.Prelude.Int.{ℤ}
use optio_ai_assignment.Shared.Result.{Error, Result-cases, ok, err, not_found, static_segment}
use optio_ai_assignment.Database.{Segment, Tables}
use optio_ai_assignment.Database.Views.{find_segment_row}
use optio_ai_assignment.Database.Prisma.{Prisma}
use optio_ai_assignment.Segments.Metrics.{DecimalText, compute_all}
use optio_ai_assignment.Segments.Dependency.{collect_parent_ids, replace_dependencies}
use optio_ai_assignment.Segments.Dependency.Edges.{
  ParentsExist, replace_dependencies-ok, replace_dependencies_idem, replace_dependencies_cases,
}
use optio_ai_assignment.Segments.Evaluation.{
  EvaluationResult, evaluate_each, load_parent_memberships, is_refused, evaluate_found,
  evaluate_segment,
}
use optio_ai_assignment.Segments.Evaluation.Contract.{Evaluated, evaluate_segment-Evaluated}
use optio_ai_assignment.Segments.Evaluator.Meaning.{refers}
use optio_ai_assignment.Segments.Evaluation.Outage.{
  Outages, all_answer, parents_outage, compute_failing, evaluate_found_failing,
  evaluate_segment_failing, rewired,
}

module _ ⦃prisma : Prisma⦄ ⦃text : DecimalText⦄ where
  -- Behind the edges a pass throws and leaves the tables, or does what it does with every answer.
  compute_failing-cases :
      (f : Outages) (now : ℤ) (batch_id : String) (s : Segment) (t u : Tables)
      → replace_dependencies s.id s.rule t ≡ (ok tt, u)
      → ((e : Error) × (compute_failing f now batch_id s u ≡ (err e, u)))
        ⊎ (compute_failing f now batch_id s u ≡ evaluate_found now batch_id s t)
  unfolding compute_failing evaluate_found
  compute_failing-cases f now batch_id s t u wired = elim (Option-cases f.metrics) [
    | inr (e, out) ↦ inl (e, rw out)
    | inl fine1 ↦ elim (Option-cases (parents_outage f s)) [
      | inr (e, out) ↦ inl (e, rw (fine1, out))
      | inl fine2 ↦
          elim (Result-cases (
            evaluate_each s.rule (load_parent_memberships (collect_parent_ids s.rule []) u) []
              (compute_all now u))) [
                | inr (e, thrown) ↦ inl (e, rw (fine1, fine2, thrown))
                | inl (new, found) ↦ elim (Option-cases f.current) [
                  | inr (e, out) ↦ inl (e, rw (fine1, fine2, found, out))
                  | inl fine3 ↦ elim (Option-cases f.changes) [
                    | inr (e, out) ↦ inl (e, rw (fine1, fine2, found, fine3, out))
                    | inl fine4 ↦ inr (rw (fine1, fine2, found, fine3, fine4, wired, found))
                  ]
                ]
              ]
    ]
  ]

  -- A later pass over the tables with the new edges is the pass over the tables before.
  evaluate_segment-rewired :
      (now : ℤ) (batch_id id : String) (force : Bool) (s : Segment) (t : Tables)
      → find_segment_row t.segments id ≡ some s
      → is_refused s force ≡ false
      → refers s.rule s.id ≡ false
      → ParentsExist s.rule t
      → evaluate_segment now batch_id id force (rewired s t)
        ≡ evaluate_segment now batch_id id force t
  unfolding evaluate_segment evaluate_found
  evaluate_segment-rewired now batch_id id force s t found allowed no_self exist =
      let first = replace_dependencies-ok s.id s.rule t no_self exist in
      let again = replace_dependencies_idem s.id s.rule t (rewired s t) first in
      rw
        (
          prisma.find_segment_lem t id,
          prisma.find_segment_lem (rewired s t) id,
          found,
          allowed,
          first,
          again,
        )
        refl

  pub answered :
      (now : ℤ) (batch_id id : String) (force : Bool) (s : Segment) (t : Tables)
      → find_segment_row t.segments id ≡ some s
      → is_refused s force ≡ false
      → evaluate_segment now batch_id id force t ≡ evaluate_found now batch_id s t
  unfolding evaluate_segment
  answered now batch_id id force s t found allowed =
      rw (prisma.find_segment_lem t id, found, allowed)

  failing-found :
      (f : Outages) (now : ℤ) (batch_id id : String) (force : Bool) (s : Segment) (t : Tables)
      → f.find ≡ none
      → find_segment_row t.segments id ≡ some s
      → is_refused s force ≡ false
      → evaluate_segment_failing f now batch_id id force t
        ≡ evaluate_found_failing f now batch_id s t
  unfolding evaluate_segment_failing
  failing-found f now batch_id id force s t fine found allowed =
      rw (fine, prisma.find_segment_lem t id, found, allowed)

  failing-wired :
      (f : Outages) (now : ℤ) (batch_id : String) (s : Segment) (t : Tables)
      → f.edges ≡ none
      → replace_dependencies s.id s.rule t ≡ (ok tt, rewired s t)
      → evaluate_found_failing f now batch_id s t ≡ compute_failing f now batch_id s (rewired s t)
  unfolding evaluate_found_failing
  failing-wired f now batch_id s t linked wired = rw (linked, wired)

  failing-not_wired :
      (f : Outages) (now : ℤ) (batch_id : String) (s : Segment) (t : Tables) (e : Error)
      → (f.edges ≡ some e) ⊎ ((f.edges ≡ none) × (replace_dependencies s.id s.rule t ≡ (err e, t)))
      → evaluate_found_failing f now batch_id s t ≡ (err e, t)
  unfolding evaluate_found_failing
  failing-not_wired f now batch_id s t e (inl out) = rw out
  failing-not_wired f now batch_id s t e (inr (linked, thrown)) = rw (linked, thrown)

  answering-found :
      (now : ℤ) (batch_id : String) (s : Segment) (t : Tables)
      → evaluate_found_failing all_answer now batch_id s t ≡ evaluate_found now batch_id s t
  unfolding evaluate_found_failing compute_failing evaluate_found
  answering-found now batch_id s t =
      let u : Tables = (replace_dependencies s.id s.rule t).1 in
      elim (Result-cases (replace_dependencies s.id s.rule t).0) [
        | inr (e, thrown) ↦ rw thrown
        | inl (a, wired) ↦ elim (Bool-cases (is_empty (collect_parent_ids s.rule []))) [
          | inl alone ↦
              elim (Result-cases (
                evaluate_each s.rule (load_parent_memberships (collect_parent_ids s.rule []) u) []
                  (compute_all now u))) [
                    | inr (e, thrown) ↦ rw (wired, alone, thrown)
                    | inl (new, found) ↦ rw (wired, alone, found)
                  ]
          | inr several ↦
              elim (Result-cases (
                evaluate_each s.rule (load_parent_memberships (collect_parent_ids s.rule []) u) []
                  (compute_all now u))) [
                    | inr (e, thrown) ↦ rw (wired, several, thrown)
                    | inl (new, found) ↦ rw (wired, several, found)
                  ]
        ]
      ]

  evaluate_segment-answering :
      (now : ℤ) (batch_id id : String) (force : Bool) (t : Tables)
      → evaluate_segment_failing all_answer now batch_id id force t
        ≡ evaluate_segment now batch_id id force t
  unfolding evaluate_segment_failing evaluate_segment
  evaluate_segment-answering now batch_id id force t =
      elim (Option-cases (prisma.find_segment t id)) [
        | inl unknown ↦ rw unknown
        | inr (s, found) ↦ elim (Bool-cases (is_refused s force)) [
          | inl refused ↦ rw (found, refused)
          | inr allowed ↦ rw (found, allowed) (answering-found now batch_id s t)
        ]
      ]

  -- What comes of an evaluation under outages: it throws and every table is as it was; or it throws
  -- and only the edges of the segment have changed, to those of its rule, which fits it, and every
  -- later evaluation of the segment does what it would have done on the tables before; or it does what it does without
  -- an outage, and meets the contract.
  abbrev pub FailsSafely : Outages → ℤ → String → String → Bool → Tables → Type 0
  FailsSafely f now batch_id id force t =
      ((e : Error) × (evaluate_segment_failing f now batch_id id force t ≡ (err e, t)))
      ⊎ (((s : Segment) × (e : Error) × (find_segment_row t.segments id ≡ some s)
            × (evaluate_segment_failing f now batch_id id force t ≡ (err e, rewired s t))
            × (is_refused s force ≡ false)
            × (refers s.rule s.id ≡ false)
            × ParentsExist s.rule t
            × ((later : ℤ) (batch : String)
                → evaluate_segment later batch id force (rewired s t)
                  ≡ evaluate_segment later batch id force t))
          ⊎ ((s : Segment) × (r : EvaluationResult) × (t' : Tables) × (find_segment_row t.segments
                  id
                ≡ some s)
              × (evaluate_segment_failing f now batch_id id force t ≡ (ok r, t'))
              × (evaluate_segment now batch_id id force t ≡ (ok r, t'))
              × Evaluated now s r t t'))

  failing-cases :
      (f : Outages) (now : ℤ) (batch_id id : String) (force : Bool) (t : Tables)
      → FailsSafely f now batch_id id force t
  unfolding evaluate_segment_failing
  failing-cases f now batch_id id force t = elim (Option-cases f.find) [
    | inr (e, out) ↦ inl (e, rw out)
    | inl fine ↦ elim (Option-cases (find_segment_row t.segments id)) [
      | inl unknown ↦ inl (not_found id, rw (fine, prisma.find_segment_lem t id, unknown))
      | inr (s, found) ↦ elim (Bool-cases (is_refused s force)) [
        | inl refused ↦
            inl (static_segment s.name, rw (fine, prisma.find_segment_lem t id, found, refused))
        | inr allowed ↦
            let reached = failing-found f now batch_id id force s t fine found allowed in
            elim (Option-cases f.edges) [
              | inr (e, out) ↦ inl (e, reached ∙ failing-not_wired f now batch_id s t e (inl out))
              | inl linked ↦ elim (replace_dependencies_cases s.id s.rule t) [
                | inr (e, thrown) ↦
                    inl (e, reached ∙ failing-not_wired f now batch_id s t e (inr (linked, thrown)))
                | inl (no_self, exist) ↦
                    let wired = replace_dependencies-ok s.id s.rule t no_self exist in
                    let begun = reached ∙ failing-wired f now batch_id s t linked wired in
                    elim (compute_failing-cases f now batch_id s t (rewired s t) wired) [
                      | inl (e, thrown) ↦ inr (
                          inl (
                            s,
                            e,
                            found,
                            begun ∙ thrown,
                            allowed,
                            no_self,
                            exist,
                            λ later batch.
                                evaluate_segment-rewired later batch id force s t found allowed
                                  no_self exist,
                          ))
                      | inr same ↦
                          let (r, t', ran, meets, _) =
                            evaluate_segment-Evaluated now batch_id id force s t found allowed
                              no_self exist in
                          let done = answered now batch_id id force s t found allowed in
                          inr (inr (s, r, t', found, begun ∙ same ∙ sym done ∙ ran, ran, meets))
                    ]
              ]
            ]
      ]
    ]
  ]

  -- Whatever queries and transactions of an evaluation fail, one of three things happens: it throws
  -- and every table is as it was; or it throws and only the edges of the segment have changed, to
  -- those of its rule, and a later evaluation does exactly what it would have done on the tables
  -- before; or it returns a result, and the tables meet the contract for the segment of that id. If
  -- every call answers, the evaluation is the one of the other theorems.
  pub evaluate_segment-failing :
      (f : Outages) (now : ℤ) (batch_id id : String) (force : Bool) (t : Tables)
      → FailsSafely f now batch_id id force t
        × (evaluate_segment_failing all_answer now batch_id id force t
            ≡ evaluate_segment now batch_id id force t)
  evaluate_segment-failing f now batch_id id force t =
      (failing-cases f now batch_id id force t, evaluate_segment-answering now batch_id id force t)
