-- ===== src/Database/Prisma.antt =====
-- The queries that the services send through the Prisma client, as parameters: the client and
-- PostgreSQL are not part of the repository. Each law is the documented behaviour of one call.
-- Foreign keys are checked where the program does not take them from rows that it has just read:
-- in the insert of dependency edges, whose parents come from a rule. The endpoints that take the id of
-- a customer check it where they insert.
use optio_ai_assignment.Prelude.{
  ℕ, length, take, String, ◌≡◌, Option, none, some, List, [], ◌∷◌, ◌++◌, filter, all, has, not,
  ◌||◌, ◌==◌, find, sum_of, if◌then◌else◌,
}
use optio_ai_assignment.Shared.Json.{Fields}
use optio_ai_assignment.Database.{
  Customer, Segment, SegmentMember, SegmentDelta, OutboxEvent, Tables, pending,
}
use optio_ai_assignment.Database.Views.{
  is_dynamic, members_of, insert_members, delete_members, children_of, delete_dependencies,
  insert_dependencies, find_segment_row, segment_ids, event_ids, is_pending, mark_published,
  IsSortedFrom, is_claimed, replace_row, set_profile,
}
use optio_ai_assignment.Shared.Events.{SegmentDeltaPayload}

pub record Prisma : Type 0 where
  -- segment.findUnique({ where: { id } })
  pub find_segment : Tables → String → Option Segment
  pub find_segment_lem :
      (t : Tables) (id : String) → find_segment t id ≡ find_segment_row t.segments id
  -- segment.findMany({ where: { type: DYNAMIC } })
  pub find_dynamic : Tables → List Segment
  pub find_dynamic_lem : (t : Tables) → find_dynamic t ≡ filter is_dynamic t.segments
  -- segmentMember.findMany({ where: { segmentId }, select: { customerId } })
  pub find_members : Tables → String → List String
  pub find_members_lem : (t : Tables) (id : String) → find_members t id ≡ members_of t.members id
  -- segmentMember.findMany({ where: { segmentId: { in } }, select: { segmentId, customerId } })
  pub find_members_in : Tables → List String → List SegmentMember
  pub find_members_in_lem :
      (t : Tables) (ids : List String)
      → find_members_in t ids ≡ filter (λ m. has ids m.segment_id) t.members
  -- segmentMember.createMany({ data, skipDuplicates: true })
  pub create_members : String → List String → Tables → Tables
  pub create_members_lem :
      (id : String) (cs : List String) (t : Tables)
      → create_members id cs t ≡ record t { members = insert_members id cs t.members }
  -- segmentMember.deleteMany({ where: { segmentId, customerId: { in } } })
  pub remove_members : String → List String → Tables → Tables
  pub remove_members_lem :
      (id : String) (cs : List String) (t : Tables)
      → remove_members id cs t ≡ record t { members = delete_members id cs t.members }
  -- segmentDelta.createMany({ data })
  pub create_deltas : List SegmentDelta → Tables → Tables
  pub create_deltas_lem :
      (rows : List SegmentDelta) (t : Tables)
      → create_deltas rows t ≡ record t { deltas = t.deltas ++ rows }
  -- the `id` and the `createdAt` that the database gives a new outbox row
  pub new_event : Tables → String → SegmentDeltaPayload → OutboxEvent
  pub new_event_payload :
      (t : Tables) (ty : String) (p : SegmentDeltaPayload) → (new_event t ty p).payload ≡ p
  pub new_event_type :
      (t : Tables) (ty : String) (p : SegmentDeltaPayload) → (new_event t ty p).event_type ≡ ty
  pub new_event_status :
      (t : Tables) (ty : String) (p : SegmentDeltaPayload) → (new_event t ty p).status ≡ pending
  -- outboxEvent.create({ data: { eventType, payload } })
  pub create_event : String → SegmentDeltaPayload → Tables → Tables
  pub create_event_lem :
      (ty : String) (p : SegmentDeltaPayload) (t : Tables)
      → create_event ty p t ≡ record t { outbox = t.outbox ++ new_event t ty p ∷ [] }
  -- segmentDependency.deleteMany({ where: { childId, parentId: { notIn } } }); without `notIn` the
  -- list is empty
  pub remove_dependencies : String → List String → Tables → Tables
  pub remove_dependencies_lem :
      (child : String) (keep : List String) (t : Tables)
      → remove_dependencies child keep t
        ≡ record t { dependencies = delete_dependencies child keep t.dependencies }
  -- segmentDependency.createMany({ data, skipDuplicates: true }); `none` is the throw at a parent
  -- that is no segment
  pub create_dependencies : String → List String → Tables → Option Tables
  pub create_dependencies_lem :
      (child : String) (parents : List String) (t : Tables)
      → create_dependencies child parents t ≡ (
          if all (has (segment_ids t.segments)) parents
          then some (record t { dependencies = insert_dependencies child parents t.dependencies })
          else none)
  -- segmentDependency.findMany({ where: { parentId }, select: { childId } })
  pub find_dependents : Tables → String → List String
  pub find_dependents_lem :
      (t : Tables) (parent : String) → find_dependents t parent ≡ children_of t.dependencies parent
  -- the order that `orderBy: { createdAt: 'asc' }` gives rows: a rearrangement, which has each row as
  -- often, so that any weight has the same sum; and ascending
  pub by_created_at : List OutboxEvent → List OutboxEvent
  pub has-by_created_at :
      (rows : List OutboxEvent) (id : String)
      → has (event_ids (by_created_at rows)) id ≡ has (event_ids rows) id
  pub length-by_created_at : (rows : List OutboxEvent) → length (by_created_at rows) ≡ length rows
  pub sum-by_created_at :
      (w : OutboxEvent → ℕ) (rows : List OutboxEvent)
      → sum_of w (by_created_at rows) ≡ sum_of w rows
  pub sorted-by_created_at : (rows : List OutboxEvent) → IsSortedFrom 0 (by_created_at rows)
  -- outboxEvent.findMany({ where: { status: 'PENDING' }, orderBy: { createdAt: 'asc' }, take })
  pub find_pending : Tables → ℕ → List OutboxEvent
  pub find_pending_lem :
      (t : Tables) (n : ℕ) → find_pending t n ≡ take n (by_created_at (filter is_pending t.outbox))
  -- outboxEvent.update({ where: { id }, data: { status: 'PUBLISHED', … } })
  pub publish_event : String → Tables → Tables
  pub publish_event_lem :
      (id : String) (t : Tables)
      → publish_event id t ≡ record t { outbox = mark_published id t.outbox }
  -- processedEvent.createMany({ data: [{ eventId, consumerName }], skipDuplicates: true }), with the
  -- number of rows that it inserted
  pub claim_event : String → String → Tables → ℕ × Tables
  pub claim_event_lem :
      (id consumer : String) (t : Tables)
      → claim_event id consumer t ≡ (
          if is_claimed t.processed id consumer then (0, t) else (
            1,
            record t {
              processed = t.processed ++ record { event_id = id; consumer_name = consumer } ∷ [];
            },
          ))
  -- segment.findUnique({ where: { name } })
  pub find_by_name : Tables → String → Option Segment
  pub find_by_name_lem :
      (t : Tables) (name : String) → find_by_name t name ≡ find (λ s. s.name == name) t.segments
  -- segment.findMany({ where: { id: { in } }, select: { id } })
  pub find_existing : Tables → List String → List String
  pub find_existing_lem :
      (t : Tables) (ids : List String)
      → find_existing t ids ≡ filter (has ids) (segment_ids t.segments)
  -- the id that the database gives a new segment
  pub new_segment_id : Tables → String
  -- segment.create({ data })
  pub create_segment : Segment → Tables → Tables
  pub create_segment_lem :
      (s : Segment) (t : Tables) → create_segment s t ≡ record t { segments = t.segments ++ s ∷ [] }
  -- segment.update({ where: { id }, data }), with the row as it is after it
  pub update_segment : Segment → Tables → Tables
  pub update_segment_lem :
      (s : Segment) (t : Tables)
      → update_segment s t ≡ record t { segments = replace_row s t.segments }
  -- segment.delete({ where: { id } }), with the rows that ON DELETE CASCADE takes along
  pub delete_segment : String → Tables → Tables
  pub delete_segment_lem :
      (id : String) (t : Tables)
      → delete_segment id t ≡ record t {
        segments = filter (λ s. not (s.id == id)) t.segments;
        members = filter (λ m. not (m.segment_id == id)) t.members;
        deltas = filter (λ d. not (d.segment_id == id)) t.deltas;
        dependencies = filter (λ d. not (d.parent_id == id || d.child_id == id)) t.dependencies;
      }
  -- customer.findUnique({ where: { id } })
  pub find_customer : Tables → String → Option Customer
  pub find_customer_lem :
      (t : Tables) (id : String) → find_customer t id ≡ find (λ c. c.id == id) t.customers
  -- customer.update({ where: { id }, data: { profile } })
  pub update_profile : String → Fields → Tables → Tables
  pub update_profile_lem :
      (id : String) (profile : Fields) (t : Tables)
      → update_profile id profile t ≡ record t { customers = set_profile id profile t.customers }
