-- ===== src/Web/SegmentDetail.antt =====
-- apps/web/src/app/segments/segment-detail.page.ts. The server's answers to the requests of the page
-- are arguments, and stand in the state at once.
pub mod Paging
pub mod Refresh
use optio_ai_assignment.Prelude.{
  ℕ, ◌+◌, ◌-◌, min, String, Bool, true, false, Option, none, some, List, [], ◌∷◌, length, ltb, ◌==◌,
  if◌then◌else◌,
}
use optio_ai_assignment.Prelude.Int.{ℤ, pos, ◌+ℤ◌, ◌-ℤ◌}
use optio_ai_assignment.Api.Listing.{DeltaRow}
use optio_ai_assignment.Shared.Events.{SegmentDeltaPayload}

-- PAGE_SIZE
abbrev pub page_size : ℕ
page_size = 50

pub record MembersPage : Type 0 where
  pub total : ℕ
  pub limit : ℕ
  pub offset : ℕ

pub record ShownSegment : Type 0 where
  pub name : String
  pub member_count : ℤ

-- an answer to a request, or its failure with the message if it has one
pub data Answer {ℓ} (A : Type ℓ) : Type ℓ where
  answered : A → Answer A
  refused : Option String → Answer A

pub record DetailPage : Type 0 where
  pub id : String
  pub segment : Option ShownSegment
  pub deltas : List DeltaRow
  pub members_page : Option MembersPage
  pub offset : ℕ
  pub loading : Bool
  pub refreshing : Bool
  pub error : Option String
  pub last_delta_id : Option String

-- What the server answers: a page for a limit and an offset, the segment, and its latest history.
pub record Server : Type 0 where
  pub members : ℕ → ℕ → MembersPage
  pub detail : Answer ShownSegment
  pub deltas : List DeltaRow

-- `err?.message ?? text`
abbrev pub message_or : Option String → String → String
message_or none text = text
message_or (some message) text = message

unfoldable pub load_members : Server → DetailPage → DetailPage
load_members server p =
    if p.id == "" then p else record p { members_page = some (server.members page_size p.offset) }

abbrev loaded : Answer ShownSegment → DetailPage → DetailPage
loaded (answered s) p = record p { segment = some s; loading = false }
loaded (refused message) p = record p {
  error = some (message_or message "unknown error");
  loading = false;
}

unfoldable pub load : Server → DetailPage → DetailPage
load server p =
    if p.id == ""
    then p
    else load_members server
        (record (loaded server.detail (record p { loading = true; error = none })) {
          deltas = server.deltas;
        })

unfoldable pub ng_on_changes : Server → DetailPage → DetailPage
ng_on_changes server p = load server (record p { offset = 0 })

abbrev refreshed_by : Answer (Unit {0}) → Server → DetailPage → DetailPage
refreshed_by (answered x) server p = load server (record p { refreshing = false })
refreshed_by (refused message) server p = record p {
  refreshing = false;
  error = some (message_or message "refresh failed");
}

-- the request of the evaluation by force, and its answer; `server` is as it is after it. The template
-- shows the button for static segments only, and disables it while `refreshing`; the method tests
-- neither.
unfoldable pub force_refresh : Answer (Unit {0}) → Server → DetailPage → DetailPage
force_refresh answer server p =
    if p.id == "" then p else refreshed_by answer server (record p { refreshing = true })

abbrev upper_of : Option MembersPage → ℕ
upper_of none = 0
upper_of (some m) = min (m.offset + m.limit) m.total

unfoldable pub members_upper : DetailPage → ℕ
members_upper p = upper_of p.members_page

abbrev has_next_of : Option MembersPage → Bool
has_next_of none = false
has_next_of (some m) = ltb (m.offset + m.limit) m.total

unfoldable pub has_next_page : DetailPage → Bool
has_next_page p = has_next_of p.members_page

unfoldable pub next_page : Server → DetailPage → DetailPage
next_page server p = load_members server (record p { offset = p.offset + page_size })

-- `Math.max(0, o - PAGE_SIZE)`: the subtraction of natural numbers stops at 0
unfoldable pub prev_page : Server → DetailPage → DetailPage
prev_page server p = load_members server (record p { offset = p.offset - page_size })

abbrev counted_of : SegmentDeltaPayload → Option ShownSegment → Option ShownSegment
counted_of payload none = none
counted_of payload (some s) = some (record s {
  member_count = (s.member_count +ℤ pos (length payload.added)) -ℤ pos (length payload.removed);
})

-- the answer to the request for the history: the flash is on its first row
abbrev flashed : List DeltaRow → DetailPage → DetailPage
flashed [] p = record p { deltas = [] }
flashed (row ∷ rows) p = record p { deltas = row ∷ rows; last_delta_id = some row.id }

unfoldable pub apply_realtime_delta : Server → SegmentDeltaPayload → DetailPage → DetailPage
apply_realtime_delta server payload p =
    if payload.segment_id == p.id
    then load_members server
        (flashed server.deltas (record p { segment = counted_of payload p.segment }))
    else p
