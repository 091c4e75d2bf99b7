-- ===== src/Segments/Evaluation/Persist.antt =====
-- What the transaction of a pass writes.
use optio_ai_assignment.Prelude.{
  String, true, distinct, not, ◌&&◌, ◌||◌, ◌≡◌, refl, List, [], ◌∷◌, ◌++◌, has, is_empty, ◌==◌,
  arith, if◌then◌else◌,
}
use optio_ai_assignment.Shared.Events.{SegmentDeltaPayload, segment_delta}
use optio_ai_assignment.Database.{SegmentMember, Tables}
use optio_ai_assignment.Database.Views.{members_of, insert_members, delete_members}
use optio_ai_assignment.Database.MemberLaws.{
  has-insert_members, has-delete_members, distinct-insert_members, distinct-filter_members,
}
use optio_ai_assignment.Database.Prisma.{Prisma}
use optio_ai_assignment.Segments.Evaluation.{delta_rows, persist}

-- the rows of the member table after the transaction
unfoldable pub members_after :
    String → List String → List String → List SegmentMember → List SegmentMember
members_after id added removed rows =
    let rows' = if is_empty added then rows else insert_members id added rows in
    if is_empty removed then rows' else delete_members id removed rows'

abbrev pub payload_of : String → String → String → List String → List String → SegmentDeltaPayload
payload_of id name batch_id added removed = record {
  segment_id = id;
  segment_name = name;
  batch_id = batch_id;
  added = added;
  removed = removed;
}

-- the tables just before the outbox event is created
unfoldable pub recorded : String → String → List String → List String → Tables → Tables
recorded id batch_id added removed t = record t {
  members = members_after id added removed t.members;
  deltas = t.deltas ++ delta_rows id batch_id added removed;
}

pub has-members_after :
    (id : String) (added removed : List String) (rows : List SegmentMember) (j c : String)
    → has (members_of (members_after id added removed rows) j) c
      ≡ ((has (members_of rows j) c || id == j && has added c) && not (id == j && has removed c))
unfolding members_after has
has-members_after id [] [] rows j c = ground arith
has-members_after id [] (r ∷ removed) rows j c =
    ground (arith, has-delete_members id (r ∷ removed) rows j c)
has-members_after id (a ∷ added) [] rows j c =
    ground (arith, has-insert_members id (a ∷ added) rows j c)
has-members_after id (a ∷ added) (r ∷ removed) rows j c = ground (
  arith,
  has-delete_members id (r ∷ removed) (insert_members id (a ∷ added) rows) j c,
  has-insert_members id (a ∷ added) rows j c,
)

pub distinct-members_after :
    (id : String) (added removed : List String) (rows : List SegmentMember) (j : String)
    → distinct (members_of rows j) ≡ true
    → distinct (members_of (members_after id added removed rows) j) ≡ true
unfolding members_after delete_members
distinct-members_after id [] [] rows j d = d
distinct-members_after id [] (r ∷ removed) rows j d = distinct-filter_members _ rows j d
distinct-members_after id (a ∷ added) [] rows j d = distinct-insert_members id (a ∷ added) rows j d
distinct-members_after id (a ∷ added) (r ∷ removed) rows j d =
    distinct-filter_members _ (insert_members id (a ∷ added) rows) j
      (distinct-insert_members id (a ∷ added) rows j d)

module _ ⦃prisma : Prisma⦄ where
  unfoldable pub written : String → String → String → List String → List String → Tables → Tables
  unfolding recorded
  written id name batch_id added removed t =
      if is_empty added && is_empty removed
      then t
      else record (recorded id batch_id added removed t) {
        outbox =
            t.outbox
            ++ prisma.new_event (recorded id batch_id added removed t) segment_delta
                (payload_of id name batch_id added removed)
              ∷ [];
      }

  -- Members, deltas and the outbox event are written together; without a change nothing is written.
  pub persist-writes :
      (id name batch_id : String) (added removed : List String) (t : Tables)
      → persist id name batch_id added removed t ≡ written id name batch_id added removed t
  unfolding persist written members_after
  persist-writes id name batch_id [] [] t = refl
  persist-writes id name batch_id [] (r ∷ removed) t =
      simp (prisma.create_event_lem, prisma.create_deltas_lem, prisma.remove_members_lem)
  persist-writes id name batch_id (a ∷ added) [] t =
      simp (prisma.create_event_lem, prisma.create_deltas_lem, prisma.create_members_lem)
  persist-writes id name batch_id (a ∷ added) (r ∷ removed) t = simp (
    prisma.create_event_lem, prisma.create_deltas_lem, prisma.create_members_lem,
    prisma.remove_members_lem,
  )
