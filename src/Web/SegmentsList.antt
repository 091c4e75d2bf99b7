-- ===== src/Web/SegmentsList.antt =====
-- apps/web/src/app/segments/segments-list.page.ts
pub mod Counts
pub mod Redelivery
use optio_ai_assignment.Prelude.{
  ℕ, ◌+◌, String, Bool, true, false, Option, none, some, List, [], ◌∷◌, map, length, filter,
  is_empty, ltb, ◌==◌, if◌then◌else◌,
}
use optio_ai_assignment.Prelude.Int.{ℤ, pos, ◌+ℤ◌, ◌-ℤ◌}
use optio_ai_assignment.Database.{SegmentType}
use optio_ai_assignment.Shared.Events.{SegmentDeltaPayload}

-- SegmentSummary, as the list endpoint returns it
pub record SegmentRow : Type 0 where
  pub id : String
  pub name : String
  pub description : Option String
  pub type : SegmentType
  pub member_count : ℤ
  pub updated_at : ℕ

pub record DeltaFlash : Type 0 where
  pub added : ℕ
  pub removed : ℕ
  pub expires_at : ℕ

-- the signals of the page; `flashes` has one entry for each key
pub record ListPage : Type 0 where
  pub segments : List SegmentRow
  pub loading : Bool
  pub error : Option String
  pub flashes : List (String × DeltaFlash)

-- the call of refreshList, its answer, and its failure
unfoldable pub refresh_list : ListPage → ListPage
refresh_list p = record p {
  loading = (if is_empty p.segments then true else p.loading);
  error = none;
}

unfoldable pub refreshed : List SegmentRow → ListPage → ListPage
refreshed rows p = record p { segments = rows; loading = false }

unfoldable pub refresh_failed : Option String → ListPage → ListPage
refresh_failed none p = record p { error = some "unknown error"; loading = false }
refresh_failed (some message) p = record p { error = some message; loading = false }

unfoldable pub count_delta : ℕ → SegmentDeltaPayload → SegmentRow → SegmentRow
count_delta now payload r =
    if r.id == payload.segment_id
    then record r {
      member_count = (r.member_count +ℤ pos (length payload.added)) -ℤ pos (length payload.removed);
      updated_at = now;
    }
    else r

-- the merged entry of the payload's segment
unfoldable pub flash_delta :
    ℕ → SegmentDeltaPayload → List (String × DeltaFlash) → List (String × DeltaFlash)
flash_delta now payload [] =
    (
      payload.segment_id,
      record {
        added = length payload.added;
        removed = length payload.removed;
        expires_at = now + 4000;
      },
    )
    ∷ []
flash_delta now payload ((id, flash) ∷ rest) =
    let later = flash_delta now payload rest in
    if id == payload.segment_id
    then (
      id,
      record {
        added = flash.added + length payload.added;
        removed = flash.removed + length payload.removed;
        expires_at = now + 4000;
      },
    )
      ∷ rest
    else (id, flash) ∷ later

-- `now` is the clock, which both parts read
unfoldable pub apply_delta : ℕ → SegmentDeltaPayload → ListPage → ListPage
apply_delta now payload p = record p {
  segments = map (count_delta now payload) p.segments;
  flashes = flash_delta now payload p.flashes;
}

unfoldable pub gc_flashes : ℕ → ListPage → ListPage
gc_flashes now p = record p { flashes = filter (λ f. ltb now f.1.expires_at) p.flashes }
