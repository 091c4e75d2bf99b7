-- ===== src/Api/Listing.antt =====
-- The endpoints of apps/api/src/segments/segments.controller.ts that read segments. A query parameter
-- is what `parseInt` makes of it, `none` for NaN; a missing one is its default text. The orders that
-- the database gives rows are arguments.
pub mod Pages
pub mod Preview
use optio_ai_assignment.Prelude.{
  ℕ, zero, suc, max, min, String, Option, none, some, List, [], ◌∷◌, ◌++◌, find, map, length, take,
  drop, ◌==◌, if◌then◌else◌,
}
use optio_ai_assignment.Prelude.Int.{ℤ, pos, negsuc, pos_part}
use optio_ai_assignment.Shared.Result.{Result, ok, err, Exec, pure, continue, ◌>>=◌}
use optio_ai_assignment.Database.{SegmentType, DeltaChange, Segment, Customer, Tables}
use optio_ai_assignment.Database.Views.{members_of}
use optio_ai_assignment.Database.Prisma.{Prisma}
use optio_ai_assignment.Segments.Metrics.{CustomerMetrics, DecimalText, compute_all}
use optio_ai_assignment.Segments.Evaluation.{EvaluationResult}
use optio_ai_assignment.Segments.Rebuild.{Surroundings, rebuild_all_dynamic}

-- `parsed || 50`: NaN and 0 are falsy
abbrev pub or_default : Option ℤ → ℤ → ℤ
or_default none d = d
or_default (some (pos zero)) d = d
or_default (some (pos (suc n))) d = pos (suc n)
or_default (some (negsuc n)) d = negsuc n

-- Math.min(Math.max(parsed || 50, 1), 200)
unfoldable pub page_limit : Option ℤ → ℕ
page_limit parsed = min (max (pos_part (or_default parsed (pos 50))) 1) 200

-- Math.max(parsed || 0, 0)
unfoldable pub page_offset : Option ℤ → ℕ
page_offset parsed = pos_part (or_default parsed (pos 0))

pub record MemberRow : Type 0 where
  pub customer_id : String
  pub name : String
  pub email : String

pub record MembersPage : Type 0 where
  pub total : ℕ
  pub limit : ℕ
  pub offset : ℕ
  pub members : List MemberRow

-- `include: { customer }`: the row of the customer, who is there by the foreign key
abbrev pub row_of : Option Customer → List MemberRow
row_of none = []
row_of (some c) = record { customer_id = c.id; name = c.name; email = c.email } ∷ []

unfoldable pub joined : List Customer → List String → List MemberRow
joined customers [] = []
joined customers (id ∷ ids) = row_of (find (λ c. c.id == id) customers) ++ joined customers ids

-- `by_name` is the order that the query gives rows by the name of the customer. Names need not
-- differ, and it is one function here: rows of one name come in the same order in every query.
unfoldable pub members :
    (List MemberRow → List MemberRow) → String → Option ℤ → Option ℤ → Tables → MembersPage
unfolding joined
members by_name id limit_raw offset_raw t = record {
  total = length (members_of t.members id);
  limit = page_limit limit_raw;
  offset = page_offset offset_raw;
  members =
      take (page_limit limit_raw)
        (drop (page_offset offset_raw) (by_name (joined t.customers (members_of t.members id))));
}

pub record DeltaRow : Type 0 where
  pub id : String
  pub customer_id : String
  pub customer_name : String
  pub change : DeltaChange
  pub batch_id : String

-- `recent` are the history rows of a segment, the latest first
unfoldable pub deltas :
    (Tables → String → List DeltaRow) → String → Option ℤ → Tables → List DeltaRow
deltas recent id limit_raw t = take (page_limit limit_raw) (recent t id)

pub record ListedSegment : Type 0 where
  pub id : String
  pub name : String
  pub description : Option String
  pub type : SegmentType
  pub member_count : ℕ
  pub updated_at : ℕ

-- `by_name` is the order of the rows by name, and `updated_at` the column of that name, by the id of
-- the row
unfoldable pub list : (List Segment → List Segment) → (String → ℕ) → Tables → List ListedSegment
list by_name updated_at t =
    map
      (λ s. record {
        id = s.id;
        name = s.name;
        description = s.description;
        type = s.type;
        member_count = length (members_of t.members s.id);
        updated_at = updated_at s.id;
      })
      (by_name t.segments)

pub record RebuiltSegment : Type 0 where
  pub name : String
  pub added : ℕ
  pub removed : ℕ
  pub total_members : ℕ

module _ ⦃prisma : Prisma⦄ ⦃text : DecimalText⦄ where
  unfoldable pub rebuild : Surroundings → Exec Tables (ℕ × List RebuiltSegment)
  rebuild env = do
    results ← rebuild_all_dynamic env
    pure (
      length results,
      map
          (λ r. record {
            name = r.segment_name;
            added = length r.added;
            removed = length r.removed;
            total_members = r.total_members;
          })
          results,
    )

pub record PreviewRow : Type 0 where
  pub name : String
  pub email : String
  pub metrics : Option CustomerMetrics

-- `map.get(id)`; the keys of the map are the ids of the customers, which are unique
unfoldable pub get_metrics : List (String × CustomerMetrics) → String → Option CustomerMetrics
get_metrics [] id = none
get_metrics ((key, metrics) ∷ rest) id =
    let later = get_metrics rest id in if key == id then some metrics else later

module _ ⦃text : DecimalText⦄ where
  -- `named` are the customers of the query: those with an address at drift.test, by name
  unfoldable pub preview : ℤ → (Tables → List Customer) → Tables → List PreviewRow
  preview now named t =
      map
        (λ c. record {
          name = c.name;
          email = c.email;
          metrics = get_metrics (compute_all now t) c.id;
        })
        (named t)
