-- ===== src/Web/SegmentsList/Counts.antt =====
-- The member counts after deltas.
use optio_ai_assignment.Prelude.{
  ℕ, ◌+◌, String, ◌≡◌, refl, ap, ◌∙◌, List, [], ◌∷◌, map, length, ◌==◌, arith, if◌then◌else◌,
  Bool-cases, inl, inr,
}
use optio_ai_assignment.Prelude.Int.{ℤ, pos, ◌+ℤ◌, ◌-ℤ◌, +ℤ_parts, -ℤ_parts, eq_of_parts}
use optio_ai_assignment.Shared.Events.{SegmentDeltaPayload}
use optio_ai_assignment.Web.SegmentsList.{SegmentRow, ListPage, count_delta, apply_delta}

-- The page after deltas, each with the clock at its arrival.
unfoldable pub apply_deltas : List (ℕ × SegmentDeltaPayload) → ListPage → ListPage
apply_deltas [] p = p
apply_deltas ((now, payload) ∷ rest) p = apply_deltas rest (apply_delta now payload p)

-- How many the deltas add to a segment, and how many they take away.
unfoldable pub total_added : List (ℕ × SegmentDeltaPayload) → String → ℕ
total_added [] id = 0
total_added ((now, payload) ∷ rest) id =
    (if id == payload.segment_id then length payload.added else 0) + total_added rest id

unfoldable pub total_removed : List (ℕ × SegmentDeltaPayload) → String → ℕ
total_removed [] id = 0
total_removed ((now, payload) ∷ rest) id =
    (if id == payload.segment_id then length payload.removed else 0) + total_removed rest id

-- A row without the time of its last change, which a delta sets to the time of its arrival.
abbrev pub undated : SegmentRow → SegmentRow
undated r = record r { updated_at = 0 }

abbrev pub counted : List (ℕ × SegmentDeltaPayload) → SegmentRow → SegmentRow
counted ds r = record r {
  member_count = (r.member_count +ℤ pos (total_added ds r.id)) -ℤ pos (total_removed ds r.id);
}

sum_twice :
    (c : ℤ) (a r b s : ℕ)
    → (((c +ℤ pos a) -ℤ pos r) +ℤ pos b) -ℤ pos s ≡ (c +ℤ pos (a + b)) -ℤ pos (r + s)
sum_twice c a r b s =
    eq_of_parts ((((c +ℤ pos a) -ℤ pos r) +ℤ pos b) -ℤ pos s) ((c +ℤ pos (a + b)) -ℤ pos (r + s)) (
      omega (
        arith,
        +ℤ_parts c (pos a),
        -ℤ_parts (c +ℤ pos a) (pos r),
        +ℤ_parts ((c +ℤ pos a) -ℤ pos r) (pos b),
        -ℤ_parts (((c +ℤ pos a) -ℤ pos r) +ℤ pos b) (pos s),
        +ℤ_parts c (pos (a + b)),
        -ℤ_parts (c +ℤ pos (a + b)) (pos (r + s)),
      ))

same_count : (c : ℤ) → (c +ℤ pos 0) -ℤ pos 0 ≡ c
same_count c =
    eq_of_parts ((c +ℤ pos 0) -ℤ pos 0) c
      (omega (arith, +ℤ_parts c (pos 0), -ℤ_parts (c +ℤ pos 0) (pos 0)))

counted-count_delta :
    (now : ℕ) (payload : SegmentDeltaPayload) (rest : List (ℕ × SegmentDeltaPayload))
    (r : SegmentRow)
    → counted rest (undated (count_delta now payload r))
      ≡ counted ((now, payload) ∷ rest) (undated r)
unfolding count_delta total_added total_removed
counted-count_delta now payload rest r = elim (Bool-cases (r.id == payload.segment_id)) [
  | inl e ↦ rw e (
      ap (λ k. record r { member_count = k; updated_at = 0 })
        (sum_twice r.member_count (length payload.added) (length payload.removed)
          (total_added rest r.id) (total_removed rest r.id)))
  | inr e ↦
      let a : total_added rest r.id ≡ 0 + total_added rest r.id = omega arith in
      let b : total_removed rest r.id ≡ 0 + total_removed rest r.id = omega arith in
      rw e (
        ap
          (λ k. record r {
            member_count = (r.member_count +ℤ pos k) -ℤ pos (total_removed rest r.id);
            updated_at = 0;
          })
          a
        ∙ ap
            (λ k. record r {
              member_count = (r.member_count +ℤ pos (0 + total_added rest r.id)) -ℤ pos k;
              updated_at = 0;
            })
            b)
]

map-counted :
    (now : ℕ) (payload : SegmentDeltaPayload) (rest : List (ℕ × SegmentDeltaPayload))
    (rows : List SegmentRow)
    → map (counted rest) (map undated (map (count_delta now payload) rows))
      ≡ map (counted ((now, payload) ∷ rest)) (map undated rows)
map-counted now payload rest [] = refl
map-counted now payload rest (r ∷ rows) =
    rw (counted-count_delta now payload rest r, map-counted now payload rest rows)

map-counted_nil : (rows : List SegmentRow) → rows ≡ map (counted []) rows
unfolding total_added total_removed
map-counted_nil [] = refl
map-counted_nil (r ∷ rows) = rw (same_count r.member_count, ← map-counted_nil rows)

-- After any deltas each row stands where it stood, with the number of customers that the deltas added
-- to its segment added to its count, and the number that they removed taken off; nothing else of a
-- row changes but its time.
pub apply_deltas-counted :
    (ds : List (ℕ × SegmentDeltaPayload)) (p : ListPage)
    → map undated (apply_deltas ds p).segments ≡ map (counted ds) (map undated p.segments)
unfolding apply_deltas apply_delta
apply_deltas-counted [] p = map-counted_nil (map undated p.segments)
apply_deltas-counted ((now, payload) ∷ rest) p =
    apply_deltas-counted rest (apply_delta now payload p) ∙ map-counted now payload rest p.segments

-- When the last of the deltas for a segment came, or the time that was shown if none came.
unfoldable pub last_time : List (ℕ × SegmentDeltaPayload) → String → ℕ → ℕ
last_time [] id shown = shown
last_time ((now, payload) ∷ rest) id shown =
    last_time rest id (if id == payload.segment_id then now else shown)

abbrev pub time_after : List (ℕ × SegmentDeltaPayload) → SegmentRow → ℕ
time_after ds r = last_time ds r.id r.updated_at

time_after-count_delta :
    (now : ℕ) (payload : SegmentDeltaPayload) (rest : List (ℕ × SegmentDeltaPayload))
    (r : SegmentRow)
    → time_after rest (count_delta now payload r) ≡ time_after ((now, payload) ∷ rest) r
unfolding count_delta last_time
time_after-count_delta now payload rest r = elim (Bool-cases (r.id == payload.segment_id)) [
  | inl e ↦ rw e
  | inr e ↦ rw e
]

map-time_after :
    (now : ℕ) (payload : SegmentDeltaPayload) (rest : List (ℕ × SegmentDeltaPayload))
    (rows : List SegmentRow)
    → map (time_after rest) (map (count_delta now payload) rows)
      ≡ map (time_after ((now, payload) ∷ rest)) rows
map-time_after now payload rest [] = refl
map-time_after now payload rest (r ∷ rows) =
    rw (time_after-count_delta now payload rest r, map-time_after now payload rest rows)

times_now : (rows : List SegmentRow) → map (λ r. r.updated_at) rows ≡ map (time_after []) rows
unfolding last_time
times_now [] = refl
times_now (r ∷ rows) = rw (times_now rows)

-- After any deltas each row shows when the last delta for its segment came.
pub apply_deltas-times :
    (ds : List (ℕ × SegmentDeltaPayload)) (p : ListPage)
    → map (λ r. r.updated_at) (apply_deltas ds p).segments ≡ map (time_after ds) p.segments
unfolding apply_deltas apply_delta last_time
apply_deltas-times [] p = times_now p.segments
apply_deltas-times ((now, payload) ∷ rest) p =
    apply_deltas-times rest (apply_delta now payload p) ∙ map-time_after now payload rest p.segments
