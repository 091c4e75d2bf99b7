-- ===== src/Database/InMemory.antt =====
-- A database of lists, in which every query does what its law says: the client that the tests run on.
use optio_ai_assignment.Prelude.{
  ℕ, suc, ◌+◌, sum_of, ◌≤◌, length, take, find, String, ◌≡◌, refl, ap, ◌∙◌, none, some, List, [],
  ◌∷◌, ◌++◌, filter, all, has, not, ◌||◌, ◌==◌, arith, leb, if◌then◌else◌, Bool-cases, inl, inr,
}
use optio_ai_assignment.Database.{OutboxEvent, pending}
use optio_ai_assignment.Database.Views.{
  is_dynamic, members_of, insert_members, delete_members, children_of, delete_dependencies,
  insert_dependencies, find_segment_row, segment_ids, event_ids, is_pending, mark_published,
  IsSortedFrom, is_claimed, replace_row, set_profile,
}
use optio_ai_assignment.Database.Prisma.{Prisma}

unfoldable pub insert_by : OutboxEvent → List OutboxEvent → List OutboxEvent
insert_by e [] = e ∷ []
insert_by e (u ∷ rows) =
    let later = insert_by e rows in
    if leb e.created_at u.created_at then e ∷ u ∷ rows else u ∷ later

unfoldable pub sort_events : List OutboxEvent → List OutboxEvent
sort_events [] = []
sort_events (e ∷ rows) = insert_by e (sort_events rows)

has-insert_by :
    (e : OutboxEvent) (rows : List OutboxEvent) (id : String)
    → has (event_ids (insert_by e rows)) id ≡ has (event_ids (e ∷ rows)) id
unfolding insert_by has
has-insert_by e [] id = refl
has-insert_by e (u ∷ rows) id = ground (arith, has-insert_by e rows id)

pub has-sort_events :
    (rows : List OutboxEvent) (id : String)
    → has (event_ids (sort_events rows)) id ≡ has (event_ids rows) id
unfolding sort_events has
has-sort_events [] id = refl
has-sort_events (e ∷ rows) id =
    ground (arith, has-insert_by e (sort_events rows) id, has-sort_events rows id)

length-insert_by :
    (e : OutboxEvent) (rows : List OutboxEvent) → length (insert_by e rows) ≡ length (e ∷ rows)
unfolding insert_by
length-insert_by e [] = refl
length-insert_by e (u ∷ rows) = ground (arith, length-insert_by e rows)

pub length-sort_events : (rows : List OutboxEvent) → length (sort_events rows) ≡ length rows
unfolding sort_events
length-sort_events [] = refl
length-sort_events (e ∷ rows) =
    length-insert_by e (sort_events rows) ∙ ap (λ n. suc n) (length-sort_events rows)

sum-insert_by :
    (w : OutboxEvent → ℕ) (e : OutboxEvent) (rows : List OutboxEvent)
    → sum_of w (insert_by e rows) ≡ sum_of w (e ∷ rows)
unfolding insert_by
sum-insert_by w e [] = refl
sum-insert_by w e (u ∷ rows) = ground (arith, sum-insert_by w e rows)

pub sum-sort_events :
    (w : OutboxEvent → ℕ) (rows : List OutboxEvent) → sum_of w (sort_events rows) ≡ sum_of w rows
unfolding sort_events
sum-sort_events w [] = refl
sum-sort_events w (e ∷ rows) =
    sum-insert_by w e (sort_events rows) ∙ ap (λ n. w e + n) (sum-sort_events w rows)

sorted-insert_by :
    (e : OutboxEvent) (low : ℕ) (rows : List OutboxEvent)
    → low ≤ e.created_at
    → IsSortedFrom low rows
    → IsSortedFrom low (insert_by e rows)
unfolding insert_by
sorted-insert_by e low [] h s = (h, tt)
sorted-insert_by e low (u ∷ rows) h (k, s) = elim (Bool-cases (leb e.created_at u.created_at)) [
  | inl first ↦ rw first (h, ((ground arith), s))
  | inr later ↦ rw later (k, sorted-insert_by e u.created_at rows (ground arith) s)
]

pub sorted-sort_events : (rows : List OutboxEvent) → IsSortedFrom 0 (sort_events rows)
unfolding sort_events
sorted-sort_events [] = tt
sorted-sort_events (e ∷ rows) =
    sorted-insert_by e 0 (sort_events rows) (omega arith) (sorted-sort_events rows)

instance abbrev pub in_memory : Prisma
in_memory = record {
  find_segment = λ t id. find_segment_row t.segments id;
  find_segment_lem = λ t id. refl;
  find_dynamic = λ t. filter is_dynamic t.segments;
  find_dynamic_lem = λ t. refl;
  find_members = λ t id. members_of t.members id;
  find_members_lem = λ t id. refl;
  find_members_in = λ t ids. filter (λ m. has ids m.segment_id) t.members;
  find_members_in_lem = λ t ids. refl;
  create_members = λ id cs t. record t { members = insert_members id cs t.members };
  create_members_lem = λ id cs t. refl;
  remove_members = λ id cs t. record t { members = delete_members id cs t.members };
  remove_members_lem = λ id cs t. refl;
  create_deltas = λ rows t. record t { deltas = t.deltas ++ rows };
  create_deltas_lem = λ rows t. refl;
  new_event = λ t ty p. record {
    id = p.batch_id;
    event_type = ty;
    payload = p;
    status = pending;
    created_at = length t.outbox;
  };
  new_event_payload = λ t ty p. refl;
  new_event_type = λ t ty p. refl;
  new_event_status = λ t ty p. refl;
  create_event = λ ty p t. record t {
    outbox =
        t.outbox
        ++ record {
          id = p.batch_id;
          event_type = ty;
          payload = p;
          status = pending;
          created_at = length t.outbox;
        }
          ∷ [];
  };
  create_event_lem = λ ty p t. refl;
  remove_dependencies =
      λ child keep t. record t { dependencies = delete_dependencies child keep t.dependencies };
  remove_dependencies_lem = λ child keep t. refl;
  create_dependencies = λ child parents t.
      if all (has (segment_ids t.segments)) parents
      then some (record t { dependencies = insert_dependencies child parents t.dependencies })
      else none;
  create_dependencies_lem = λ child parents t. refl;
  find_dependents = λ t parent. children_of t.dependencies parent;
  find_dependents_lem = λ t parent. refl;
  by_created_at = sort_events;
  has-by_created_at = has-sort_events;
  length-by_created_at = length-sort_events;
  sum-by_created_at = sum-sort_events;
  sorted-by_created_at = sorted-sort_events;
  find_pending = λ t n. take n (sort_events (filter is_pending t.outbox));
  find_pending_lem = λ t n. refl;
  publish_event = λ id t. record t { outbox = mark_published id t.outbox };
  publish_event_lem = λ id t. refl;
  claim_event = λ id consumer t. if is_claimed t.processed id consumer then (0, t) else (
    1,
    record t { processed = t.processed ++ record { event_id = id; consumer_name = consumer } ∷ [] },
  );
  claim_event_lem = λ id consumer t. refl;
  find_by_name = λ t name. find (λ s. s.name == name) t.segments;
  find_by_name_lem = λ t name. refl;
  find_existing = λ t ids. filter (has ids) (segment_ids t.segments);
  find_existing_lem = λ t ids. refl;
  new_segment_id = λ t. "new";
  create_segment = λ s t. record t { segments = t.segments ++ s ∷ [] };
  create_segment_lem = λ s t. refl;
  update_segment = λ s t. record t { segments = replace_row s t.segments };
  update_segment_lem = λ s t. refl;
  delete_segment = λ id t. record t {
    segments = filter (λ s. not (s.id == id)) t.segments;
    members = filter (λ m. not (m.segment_id == id)) t.members;
    deltas = filter (λ d. not (d.segment_id == id)) t.deltas;
    dependencies = filter (λ d. not (d.parent_id == id || d.child_id == id)) t.dependencies;
  };
  delete_segment_lem = λ id t. refl;
  find_customer = λ t id. find (λ c. c.id == id) t.customers;
  find_customer_lem = λ t id. refl;
  update_profile = λ id profile t. record t { customers = set_profile id profile t.customers };
  update_profile_lem = λ id profile t. refl;
}
