-- ===== src/Web/SegmentsList/Redelivery.antt =====
-- A delta that is delivered twice, through the gateway into the list.
use optio_ai_assignment.Prelude.{ℕ, true, ◌≡◌, ◌≢◌, ap, [], ◌∷◌, length, ◌==◌, arith}
use optio_ai_assignment.Prelude.Int.{ℤ, pos, pos_part, neg_part, ◌+ℤ◌, ◌-ℤ◌, +ℤ_parts, -ℤ_parts}
use optio_ai_assignment.Shared.Events.{segment_delta, EventEnvelope}
use optio_ai_assignment.Messaging.Realtime.{delta, process_all, process, handle}
use optio_ai_assignment.Web.SegmentsList.{SegmentRow, count_delta}

moved_again :
    (c : ℤ) (a r : ℕ) → a ≢ r → (((c +ℤ pos a) -ℤ pos r) +ℤ pos a) -ℤ pos r ≢ (c +ℤ pos a) -ℤ pos r
moved_again c a r differ h = differ (
    omega (
      arith,
      +ℤ_parts c (pos a),
      -ℤ_parts (c +ℤ pos a) (pos r),
      +ℤ_parts ((c +ℤ pos a) -ℤ pos r) (pos a),
      -ℤ_parts (((c +ℤ pos a) -ℤ pos r) +ℤ pos a) (pos r),
      ap pos_part h,
      ap neg_part h,
    ))

-- A delta event that is delivered twice, to a gateway whose emit does not throw, reaches the clients
-- twice, and the row of its segment then
-- shows another count than after one delivery, if the event adds more or fewer customers than it
-- removes.
pub redelivery_drifts :
    (e : EventEnvelope) (r : SegmentRow) (now later : ℕ)
    → e.event_type ≡ segment_delta
    → (r.id == e.payload.segment_id) ≡ true
    → length e.payload.added ≢ length e.payload.removed
    → (process_all (e ∷ e ∷ []) ≡ delta e.payload ∷ delta e.payload ∷ [])
      × ((count_delta later e.payload (count_delta now e.payload r)).member_count
          ≢ (count_delta now e.payload r).member_count)
unfolding process_all process handle count_delta
redelivery_drifts e r now later typed own differ = (
  rw typed,
  rw (own, own)
      (moved_again r.member_count (length e.payload.added) (length e.payload.removed) differ),
)
