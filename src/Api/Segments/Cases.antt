-- ===== src/Api/Segments/Cases.antt =====
-- How each call that changes segments goes: it throws and changes nothing, or it comes to its writes.
use optio_ai_assignment.Prelude.{
  String, true, false, ◌≡◌, refl, sym, subst, Option, some, none, is_empty, ◌==◌, Bool-cases,
  Option-cases, ◌⊎◌, inl, inr, true_not_false,
}
use optio_ai_assignment.Shared.Rule.{SegmentRule}
use optio_ai_assignment.Shared.Result.{
  Error, ok, err, Result-cases, not_found, bad_request, already_exists, has_dependents,
}
use optio_ai_assignment.Database.{Segment, Tables, SegmentType}
use optio_ai_assignment.Database.Views.{find_segment_row, children_of}
use optio_ai_assignment.Database.Prisma.{Prisma}
use optio_ai_assignment.Segments.Metrics.{DecimalText}
use optio_ai_assignment.Segments.Evaluator.Meaning.{refers}
use optio_ai_assignment.Segments.Dependency.Edges.{ParentsExist}
use optio_ai_assignment.Segments.Order.Finding.{find_segment_row-id}
use optio_ai_assignment.Segments.Rebuild.{Surroundings}
use optio_ai_assignment.Shared.Json.{Json}
use optio_ai_assignment.Api.Rules.{validate_rule}
use optio_ai_assignment.Api.Segments.{
  CreateSegmentBody, UpdateSegmentBody, is_some, detail, create_row, create, update_row, update,
  remove, patched_name, patched_rule, patched_description,
}
use optio_ai_assignment.Api.Segments.References.{assert_rule_references_cases}

module _ ⦃prisma : Prisma⦄ ⦃text : DecimalText⦄ where
  pub detail-tables : (id : String) (t : Tables) → (detail id t).1 ≡ t
  unfolding detail
  detail-tables id t = elim (Option-cases (prisma.find_segment t id)) [
    | inl unknown ↦ rw unknown
    | inr (s, found) ↦ rw found
  ]

  -- `create` throws before it writes, or creates a row under the new id whose references are there.
  pub create-cases :
      (env : Surroundings) (body : CreateSegmentBody) (t : Tables)
      → ((e : Error) × (create env body t ≡ (err e, t)))
        ⊎ ((row : Segment) × (type : SegmentType) × (create env body t
              ≡ create_row env body.initial_member_ids (record row { type = type }) t)
            × (row.id ≡ prisma.new_segment_id t)
            × ParentsExist row.rule t)
  unfolding create
  create-cases env body t = elim (Option-cases body.name) [
    | inl unnamed ↦ inl (bad_request "name is required and must be a string", rw unnamed)
    | inr (name, named) ↦ elim (Bool-cases (name == "")) [
      | inl blank ↦ inl (bad_request "name is required and must be a string", rw (named, blank))
      | inr filled ↦ elim (Option-cases body.type) [
        | inl untyped ↦
            inl (bad_request "type must be 'DYNAMIC' or 'STATIC'", rw (named, filled, untyped))
        | inr (type, typed) ↦ elim (Result-cases (validate_rule body.rule)) [
          | inr (e, invalid) ↦ inl (e, rw (named, filled, typed, invalid))
          | inl (rule, valid) ↦ elim (assert_rule_references_cases rule none t) [
            | inr (e, refused) ↦ inl (e, rw (named, filled, typed, valid, refused))
            | inl (passed, _, exist) ↦ elim (Bool-cases (is_some (prisma.find_by_name t name))) [
              | inl taken ↦
                  inl (already_exists name, rw (named, filled, typed, valid, passed, taken))
              | inr free ↦ inr (
                record {
                  id = prisma.new_segment_id t;
                  name = name;
                  description = body.description;
                  type = type;
                  rule = rule;
                },
                type,
                rw (named, filled, typed, valid, passed, free),
                refl,
                exist,
              )
            ]
          ]
        ]
      ]
    ]
  ]

  -- The name check throws or gives a name, and touches no table.
  patched_name-cases :
      (existing : Segment) (given : Option (Option String)) (t : Tables)
      → ((name : String) × (patched_name existing given t ≡ (ok name, t)))
        ⊎ ((e : Error) × (patched_name existing given t ≡ (err e, t)))
  patched_name-cases existing none t = inl (existing.name, refl)
  patched_name-cases existing (some none) t =
      inr (bad_request "name must be a non-empty string", refl)
  patched_name-cases existing (some (some name)) t = elim (Bool-cases (name == "")) [
    | inl blank ↦ inr (bad_request "name must be a non-empty string", rw blank)
    | inr filled ↦ elim (Bool-cases (name == existing.name)) [
      | inl same ↦ inl (name, rw (filled, same))
      | inr new ↦ elim (Bool-cases (is_some (prisma.find_by_name t name))) [
        | inl taken ↦ inr (already_exists name, rw (filled, new, taken))
        | inr free ↦ inl (name, rw (filled, new, free))
      ]
    ]
  ]

  -- So does the check of the rule.
  patched_rule-cases :
      (existing : Segment) (given : Option Json) (t : Tables)
      → ((rule : SegmentRule) × (patched_rule existing given t ≡ (ok rule, t))
          × (is_some given ≡ true → (refers rule existing.id ≡ false) × ParentsExist rule t)
          × (is_some given ≡ false → rule ≡ existing.rule))
        ⊎ ((e : Error) × (patched_rule existing given t ≡ (err e, t)))
  patched_rule-cases existing none t =
      inl (existing.rule, refl, (λ h. absurd (true_not_false (sym h))), λ h. refl)
  patched_rule-cases existing (some input) t = elim (Result-cases (validate_rule input)) [
    | inr (e, invalid) ↦ inr (e, rw invalid)
    | inl (rule, valid) ↦ elim (assert_rule_references_cases rule (some existing.id) t) [
      | inr (e, refused) ↦ inr (e, rw (valid, refused))
      | inl (passed, other, exist) ↦
          inl (rule, rw (valid, passed), (λ h. (other, exist)), λ h. absurd (true_not_false h))
    ]
  ]

  -- `update` throws before it writes, or replaces the row by one of the same id and type, whose rule is
  -- fit if it was given, and else is the old one.
  pub update-cases :
      (env : Surroundings) (id : String) (body : UpdateSegmentBody) (t : Tables)
      → ((e : Error) × (update env id body t ≡ (err e, t)))
        ⊎ ((row existing : Segment) × (update env id body t
              ≡ update_row env (is_some body.rule) (record row { type = existing.type }) t)
            × (find_segment_row t.segments row.id ≡ some existing)
            × (is_some body.rule ≡ true
                → (refers row.rule row.id ≡ false) × ParentsExist row.rule t)
            × (is_some body.rule ≡ false → row.rule ≡ existing.rule))
  unfolding update
  update-cases env id body t = elim (Option-cases (find_segment_row t.segments id)) [
    | inl unknown ↦ inl (not_found id, rw (prisma.find_segment_lem t id, unknown))
    | inr (existing, found) ↦ elim (patched_name-cases existing body.name t) [
      | inr (e, bad_name) ↦ inl (e, rw (prisma.find_segment_lem t id, found, bad_name))
      | inl (name, good_name) ↦ elim (patched_rule-cases existing body.rule t) [
        | inr (e, bad_rule) ↦ inl (e, rw (prisma.find_segment_lem t id, found, good_name, bad_rule))
        | inl (rule, good_rule, fit, same) ↦ inr (
          record existing {
            name = name;
            description = patched_description existing body.description;
            rule = rule;
          },
          existing,
          rw (prisma.find_segment_lem t id, found, good_name, good_rule),
          subst (λ x. find_segment_row t.segments x ≡ some existing)
              (sym (find_segment_row-id t.segments id existing found)) found,
          fit,
          same,
        )
      ]
    ]
  ]

  -- `remove` throws, or deletes a segment on which no edge depends.
  pub remove-cases :
      (id : String) (t : Tables)
      → ((e : Error) × (remove id t ≡ (err e, t)))
        ⊎ ((remove id t ≡ (ok tt, prisma.delete_segment id t))
            × (is_empty (children_of t.dependencies id) ≡ true))
  unfolding remove
  remove-cases id t = elim (Option-cases (find_segment_row t.segments id)) [
    | inl unknown ↦ inl (not_found id, rw (prisma.find_segment_lem t id, unknown))
    | inr (s, found) ↦ elim (Bool-cases (is_empty (children_of t.dependencies id))) [
      | inl free ↦
          inr
            (rw (prisma.find_segment_lem t id, found, prisma.find_dependents_lem t id, free), free)
      | inr used ↦ inl (
        has_dependents s.name (children_of t.dependencies id),
        rw (prisma.find_segment_lem t id, found, prisma.find_dependents_lem t id, used),
      )
    ]
  ]
