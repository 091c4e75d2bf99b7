-- ===== src/Api/Segments.antt =====
-- apps/api/src/segments/segments.controller.ts: the endpoints that change segments. A field of a body
-- that has not the type that the endpoint asks for is `none`, like one that is missing.
pub mod References
pub mod Cases
pub mod Creating
pub mod Updating
pub mod Removing
pub mod TwoCycle
use optio_ai_assignment.Prelude.{
  ℕ, String, Bool, true, false, not, Option, none, some, List, [], ◌∷◌, filter, length, map, has,
  all, is_empty, ◌==◌, if◌then◌else◌,
}
use optio_ai_assignment.Prelude.Int.{ℤ}
use optio_ai_assignment.Shared.Rule.{SegmentRule}
use optio_ai_assignment.Database.Views.{customer_ids}
use optio_ai_assignment.Shared.Result.{
  foreign_key, Error, Result, ok, err, Exec, pure, throw, lift, gets, continue, ◌>>=◌, ◌>>◌,
  not_found, self_reference, bad_request, already_exists, unknown_segments, has_dependents,
  static_segment, evaluation_failed,
}
use optio_ai_assignment.Database.{SegmentType, dynamic, static, Segment, Tables}
use optio_ai_assignment.Database.Prisma.{Prisma}
use optio_ai_assignment.Segments.Metrics.{DecimalText}
use optio_ai_assignment.Segments.Dependency.{collect_parent_ids}
use optio_ai_assignment.Segments.Evaluation.{EvaluationResult, evaluate_segment}
use optio_ai_assignment.Segments.Rebuild.{Surroundings, rebuild_all_dynamic}
use optio_ai_assignment.Shared.Json.{Json}
use optio_ai_assignment.Api.Rules.{validate_rule}

pub record CreateSegmentBody : Type 0 where
  pub name : Option String
  pub description : Option String
  pub type : Option SegmentType
  pub rule : Json
  pub initial_member_ids : List String

-- `none` outside stands for `undefined`; inside it is a name that is no text, or a description that is
-- null.
pub record UpdateSegmentBody : Type 0 where
  pub name : Option (Option String)
  pub description : Option (Option String)
  pub rule : Option Json

pub record SegmentDetail : Type 0 where
  pub id : String
  pub name : String
  pub description : Option String
  pub type : SegmentType
  pub rule : SegmentRule
  pub member_count : ℕ

-- `throw e` unless the test holds
abbrev pub guard : Bool → Error → Exec Tables (Unit {0})
guard true e = pure tt
guard false e = throw e

abbrev pub require_name : Option String → Exec Tables String
require_name none = throw (bad_request "name is required and must be a string")
require_name (some name) =
    if name == "" then throw (bad_request "name is required and must be a string") else pure name

abbrev pub require_type : Option SegmentType → Exec Tables SegmentType
require_type none = throw (bad_request "type must be 'DYNAMIC' or 'STATIC'")
require_type (some type) = pure type

abbrev pub is_self : Option String → List String → Bool
is_self none refs = false
is_self (some self_id) refs = has refs self_id

abbrev pub is_some {ℓ} : {A : Type ℓ} → Option A → Bool
is_some none = false
is_some (some a) = true

module _ ⦃prisma : Prisma⦄ where
  -- the references that no segment has
  abbrev pub missing : List String → Tables → List String
  missing refs t = filter (λ id. not (has (prisma.find_existing t refs) id)) refs

  unfoldable pub assert_rule_references : SegmentRule → Option String → Exec Tables (Unit {0})
  assert_rule_references rule self_id t =
      let refs = collect_parent_ids rule [] in
      if is_self self_id refs
      then (err (bad_request "rule cannot reference itself — would cascade infinitely"), t)
      else if is_empty refs
      then (ok tt, t)
      else if is_empty (missing refs t)
      then (ok tt, t)
      else (err (unknown_segments (missing refs t)), t)

  -- no segment has the name yet
  abbrev pub assert_free_name : String → Exec Tables (Unit {0})
  assert_free_name name t =
      guard (not (is_some (prisma.find_by_name t name))) (already_exists name) t

  abbrev pub detail_of : Segment → Tables → SegmentDetail
  detail_of s t = record {
    id = s.id;
    name = s.name;
    description = s.description;
    type = s.type;
    rule = s.rule;
    member_count = length (prisma.find_members t s.id);
  }

  abbrev detail_row : String → Option Segment → Exec Tables SegmentDetail
  detail_row id none = throw (not_found id)
  detail_row id (some s) = gets (detail_of s)

  unfoldable pub detail : String → Exec Tables SegmentDetail
  detail id t = detail_row id (prisma.find_segment t id) t

  abbrev pub modify : (Tables → Tables) → Exec Tables (Unit {0})
  modify f t = (ok tt, f t)

module _ ⦃prisma : Prisma⦄ ⦃text : DecimalText⦄ where
  -- what the catch block of `create` does with the outcome of the evaluation
  abbrev pub or_roll_back : String → Result EvaluationResult → Exec Tables (Unit {0})
  or_roll_back id (ok r) t = (ok tt, t)
  or_roll_back id (err e) t = (err (evaluation_failed e), prisma.delete_segment id t)

  -- the members of a new segment; an initial member who is no customer throws, and the segment stays
  abbrev pub populate : Surroundings → List String → Segment → SegmentType → Exec Tables (Unit {0})
  populate env initial s dynamic t =
      let ran : Result EvaluationResult × Tables =
        evaluate_segment (env.now s.id) (env.batch_id s.id) s.id false t in
      or_roll_back s.id ran.0 ran.1
  populate env initial s static t =
      if is_empty initial
      then (ok tt, t)
      else if all (has (customer_ids t.customers)) initial
      then (ok tt, prisma.create_members s.id initial t)
      else (err foreign_key, t)

  -- the create call and what follows it
  unfoldable pub create_row : Surroundings → List String → Segment → Exec Tables SegmentDetail
  create_row env initial s =
      modify (prisma.create_segment s) >> populate env initial s s.type >> detail s.id

  unfoldable pub create : Surroundings → CreateSegmentBody → Exec Tables SegmentDetail
  create env body = do
    name ← require_name body.name
    type ← require_type body.type
    rule ← lift (validate_rule body.rule)
    assert_rule_references rule none
    assert_free_name name
    id ← gets prisma.new_segment_id
    create_row env body.initial_member_ids
        (record { id = id; name = name; description = body.description; type = type; rule = rule })

  -- the name after the patch
  abbrev pub patched_name : Segment → Option (Option String) → Exec Tables String
  patched_name existing none = pure existing.name
  patched_name existing (some none) = throw (bad_request "name must be a non-empty string")
  patched_name existing (some (some name)) =
      if name == ""
      then throw (bad_request "name must be a non-empty string")
      else if name == existing.name
      then pure name
      else assert_free_name name >> pure name

  abbrev pub patched_description : Segment → Option (Option String) → Option String
  patched_description existing none = existing.description
  patched_description existing (some description) = description

  -- the rule after the patch
  abbrev pub patched_rule : Segment → Option Json → Exec Tables SegmentRule
  patched_rule existing none = pure existing.rule
  patched_rule existing (some input) = do
    rule ← lift (validate_rule input)
    assert_rule_references rule (some existing.id)
    pure rule

  -- the evaluation of a dynamic segment whose rule was given
  abbrev pub refresh : Surroundings → Segment → SegmentType → Bool → Exec Tables (Unit {0})
  refresh env s dynamic true =
      evaluate_segment (env.now s.id) (env.batch_id s.id) s.id false >> pure tt
  refresh env s dynamic false = pure tt
  refresh env s static changed = pure tt

  -- the update call and what follows it
  unfoldable pub update_row : Surroundings → Bool → Segment → Exec Tables SegmentDetail
  update_row env changed s =
      modify (prisma.update_segment s) >> refresh env s s.type changed >> detail s.id

  abbrev update_found :
      Surroundings → UpdateSegmentBody → String → Option Segment → Exec Tables SegmentDetail
  update_found env body id none = throw (not_found id)
  update_found env body id (some existing) = do
    name ← patched_name existing body.name
    rule ← patched_rule existing body.rule
    update_row env (is_some body.rule) (record existing {
      name = name;
      description = patched_description existing body.description;
      rule = rule;
    })

  unfoldable pub update : Surroundings → String → UpdateSegmentBody → Exec Tables SegmentDetail
  update env id body t = update_found env body id (prisma.find_segment t id) t

  -- the endpoint `POST :id/evaluate`
  abbrev pub as_bad_request : Error → Error
  as_bad_request (static_segment name) = evaluation_failed (static_segment name)
  as_bad_request e = e

  abbrev pub answer : Result EvaluationResult → Result EvaluationResult
  answer (ok r) = ok r
  answer (err e) = err (as_bad_request e)

  unfoldable pub evaluate : Surroundings → String → Bool → Exec Tables EvaluationResult
  evaluate env id force t =
      let ran : Result EvaluationResult × Tables =
        evaluate_segment (env.now id) (env.batch_id id) id force t in
      (answer ran.0, ran.1)

module _ ⦃prisma : Prisma⦄ where
  abbrev remove_found : String → Option Segment → Exec Tables (Unit {0})
  remove_found id none t = (err (not_found id), t)
  remove_found id (some existing) t =
      let dependents = prisma.find_dependents t id in
      if is_empty dependents
      then (ok tt, prisma.delete_segment id t)
      else (err (has_dependents existing.name dependents), t)

  unfoldable pub remove : String → Exec Tables (Unit {0})
  remove id t = remove_found id (prisma.find_segment t id) t
