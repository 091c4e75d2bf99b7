-- ===== src/System/Counts.antt =====
-- The counts of the segment list in the browser follow the tables through the announced deltas:
-- apps/api/src/segments/segment-evaluation.service.ts, the list endpoint and
-- apps/web/src/app/segments/segments-list.page.ts together.
use optio_ai_assignment.Prelude.{
  ℕ, String, ◌≡◌, refl, ap, ◌∙◌, List, [], ◌∷◌, ◌++◌, map, drop, length, arith,
}
use optio_ai_assignment.Prelude.Int.{pos, ◌+ℤ◌, ◌-ℤ◌, +ℤ_parts, -ℤ_parts, eq_of_parts}
use optio_ai_assignment.Shared.Events.{SegmentDeltaPayload, EventEnvelope}
use optio_ai_assignment.Database.{Segment, Tables}
use optio_ai_assignment.Database.Views.{members_of}
use optio_ai_assignment.Database.Prisma.{Prisma}
use optio_ai_assignment.Segments.Metrics.{DecimalText}
use optio_ai_assignment.Segments.Evaluation.Race.{payloads-append}
use optio_ai_assignment.Segments.Rebuild.{Surroundings, rebuild_all_dynamic}
use optio_ai_assignment.Messaging.Cascade
use optio_ai_assignment.Api.Listing.{ListedSegment, list}
use optio_ai_assignment.Web.SegmentsList.{SegmentRow, ListPage, refreshed}
use optio_ai_assignment.Web.SegmentsList.Counts.{
  undated, apply_deltas, total_added, total_removed, counted, apply_deltas-counted, time_after,
  apply_deltas-times,
}
use optio_ai_assignment.System.Passes.{rebuild_all_dynamic-keeps, cascade-keeps}
use optio_ai_assignment.System.Announced.{
  IsUnique, sum_added, sum_removed, payloads, Announced, Announced-evaluate, Announced-start,
}

pub total_added-sum :
    (ds : List (ℕ × SegmentDeltaPayload)) (id : String)
    → total_added ds id ≡ sum_added (map (λ d. d.1) ds) id
unfolding total_added sum_added
total_added-sum [] id = refl
total_added-sum ((now, d) ∷ ds) id = omega (arith, total_added-sum ds id)

pub total_removed-sum :
    (ds : List (ℕ × SegmentDeltaPayload)) (id : String)
    → total_removed ds id ≡ sum_removed (map (λ d. d.1) ds) id
unfolding total_removed sum_removed
total_removed-sum [] id = refl
total_removed-sum ((now, d) ∷ ds) id = omega (arith, total_removed-sum ds id)

-- A listed segment as the browser holds it.
abbrev pub shown : ListedSegment → SegmentRow
shown s = record {
  id = s.id;
  name = s.name;
  description = s.description;
  type = s.type;
  member_count = pos s.member_count;
  updated_at = s.updated_at;
}

-- What the list page shows of the rows of the list endpoint, but for the times of the last change.
abbrev pub listed : (List Segment → List Segment) → (String → ℕ) → Tables → List SegmentRow
listed by_name updated_at t = map undated (map shown (list by_name updated_at t))

module _ (t u : Tables) (h : Announced t u) (arrivals : List (ℕ × SegmentDeltaPayload))
    (came : (id : String) → total_added arrivals id ≡ sum_added (payloads h.rows) id)
    (went : (id : String) → total_removed arrivals id ≡ sum_removed (payloads h.rows) id) where
  follow_row :
      (s : Segment)
      → counted arrivals (record {
        id = s.id;
        name = s.name;
        description = s.description;
        type = s.type;
        member_count = pos (length (members_of t.members s.id));
        updated_at = 0;
      })
        ≡ record {
          id = s.id;
          name = s.name;
          description = s.description;
          type = s.type;
          member_count = pos (length (members_of u.members s.id));
          updated_at = 0;
        }
  follow_row s =
      let before : ℕ = length (members_of t.members s.id) in
      let after : ℕ = length (members_of u.members s.id) in
      ap
        (λ k. record {
          id = s.id;
          name = s.name;
          description = s.description;
          type = s.type;
          member_count = k;
          updated_at = 0;
        })
        (eq_of_parts
          ((pos before +ℤ pos (total_added arrivals s.id)) -ℤ pos (total_removed arrivals s.id))
          (pos after)
          (omega (
            arith,
            +ℤ_parts (pos before) (pos (total_added arrivals s.id)),
            -ℤ_parts (pos before +ℤ pos (total_added arrivals s.id))
                (pos (total_removed arrivals s.id)),
            came s.id,
            went s.id,
            h.counts s.id,
          )))

  follow_rows :
      (updated_at : String → ℕ) (rows : List Segment)
      → map (counted arrivals) (listed (λ r. r) updated_at (record t { segments = rows }))
        ≡ listed (λ r. r) updated_at (record u { segments = rows })
  unfolding list
  follow_rows updated_at [] = refl
  follow_rows updated_at (s ∷ rows) = rw (follow_row s, follow_rows updated_at rows)

  -- The page follows, if the deltas that arrive add up to those that were announced.
  pub follow :
      (by_name : List Segment → List Segment) (updated_at : String → ℕ) (p : ListPage)
      → map undated
          (apply_deltas arrivals (refreshed (map shown (list by_name updated_at t)) p)).segments
        ≡ listed by_name updated_at u
  unfolding refreshed list
  follow by_name updated_at p =
      apply_deltas-counted arrivals (refreshed (map shown (list by_name updated_at t)) p)
      ∙ follow_rows updated_at (by_name t.segments)
      ∙ rw h.segments

-- The payloads of the outbox rows that `u` has and `t` had not.
abbrev pub new_deltas : Tables → Tables → List SegmentDeltaPayload
new_deltas t u = map (λ e. e.payload) (drop (length t.outbox) u.outbox)

drop-append {ℓ} : {A : Type ℓ} (xs ys : List A) → drop (length xs) (xs ++ ys) ≡ ys
drop-append [] ys = refl
drop-append (x ∷ xs) ys = drop-append xs ys

pub Announced-new_deltas : (t u : Tables) (h : Announced t u) → new_deltas t u ≡ payloads h.rows
Announced-new_deltas t u h = rw h.outbox (ap payloads (drop-append t.outbox h.rows))

module _ (t u : Tables) (h : Announced t u) where
  follow_new :
      (arrivals : List (ℕ × SegmentDeltaPayload)) (by_name : List Segment → List Segment)
      (updated_at : String → ℕ) (p : ListPage)
      → map (λ d. d.1) arrivals ≡ new_deltas t u
      → (map (λ e. e.payload) u.outbox ≡ map (λ e. e.payload) t.outbox ++ new_deltas t u)
        × (map undated
              (apply_deltas arrivals (refreshed (map shown (list by_name updated_at t)) p)).segments
            ≡ listed by_name updated_at u)
  follow_new arrivals by_name updated_at p once = (
    (rw (Announced-new_deltas t u h) (ap payloads h.outbox ∙ payloads-append t.outbox h.rows)),
    follow t u h arrivals
        (λ id.
          total_added-sum arrivals id
          ∙ ap (λ ds. sum_added ds id) (once ∙ Announced-new_deltas t u h))
        (λ id.
          total_removed-sum arrivals id
          ∙ ap (λ ds. sum_removed ds id) (once ∙ Announced-new_deltas t u h))
        by_name updated_at p,
  )

module _ ⦃prisma : Prisma⦄ ⦃text : DecimalText⦄ where
  -- A rebuild only appends to the outbox; and a list page that was loaded before the rebuild and then
  -- applied, in their order and each once, the deltas that were appended, shows the rows and the
  -- counts that the list endpoint returns after the rebuild, but for the times of the last change,
  -- whether the rebuild returns or throws; as that time a row shows when the last delta for its
  -- segment came, or what the endpoint returned if none came. At the start no customer may stand
  -- twice in a segment.
  pub rebuild_counts :
      (env : Surroundings) (by_name : List Segment → List Segment) (updated_at : String → ℕ)
      (t : Tables) (p : ListPage) (arrivals : List (ℕ × SegmentDeltaPayload))
      → IsUnique t
      → map (λ d. d.1) arrivals ≡ new_deltas t (rebuild_all_dynamic env t).1
      → (map (λ e. e.payload) (rebuild_all_dynamic env t).1.outbox
          ≡ map (λ e. e.payload) t.outbox ++ new_deltas t (rebuild_all_dynamic env t).1)
        × (map undated
              (apply_deltas arrivals (refreshed (map shown (list by_name updated_at t)) p)).segments
            ≡ listed by_name updated_at (rebuild_all_dynamic env t).1)
        × (map
              (λ r. r.updated_at)
              (apply_deltas arrivals (refreshed (map shown (list by_name updated_at t)) p)).segments
            ≡ map (time_after arrivals) (map shown (list by_name updated_at t)))
  unfolding refreshed
  rebuild_counts env by_name updated_at t p arrivals unique once =
      let (appended, same) =
        follow_new t (rebuild_all_dynamic env t).1
          (rebuild_all_dynamic-keeps (Announced t) (Announced-evaluate t) env t
            (Announced-start t unique))
          arrivals by_name updated_at p once in
      (
        appended,
        same,
        apply_deltas-times arrivals (refreshed (map shown (list by_name updated_at t)) p),
      )

  -- A delivery to the cascade only appends to the outbox; and a list page that was loaded before the
  -- delivery and then applied, in their order and each once, the deltas that were appended, shows the
  -- rows and the counts that the list endpoint returns after it, but for the times, whether the
  -- delivery is acknowledged or requeued. At the start no customer may stand twice in a segment.
  pub cascade_counts :
      (env : Surroundings) (e : EventEnvelope) (by_name : List Segment → List Segment)
      (updated_at : String → ℕ) (t : Tables) (p : ListPage)
      (arrivals : List (ℕ × SegmentDeltaPayload))
      → IsUnique t
      → map (λ d. d.1) arrivals ≡ new_deltas t (Cascade.process env e t).1
      → (map (λ d. d.payload) (Cascade.process env e t).1.outbox
          ≡ map (λ d. d.payload) t.outbox ++ new_deltas t (Cascade.process env e t).1)
        × (map undated
              (apply_deltas arrivals (refreshed (map shown (list by_name updated_at t)) p)).segments
            ≡ listed by_name updated_at (Cascade.process env e t).1)
  cascade_counts env e by_name updated_at t p arrivals unique once =
      follow_new t (Cascade.process env e t).1
        (cascade-keeps (Announced t) (Announced-evaluate t) env e t (Announced-start t unique))
        arrivals by_name updated_at p once
