-- ===== src/Messaging/Campaign/Notices.antt =====
-- What the first delivery of an event broadcasts.
use Prim.Native.String.{slice}
use optio_ai_assignment.Prelude.{
  ℕ, String, true, false, ◌≡◌, refl, ap, Option, none, some, List, [], ◌∷◌, ◌++◌, map, take, find,
  has, length, is_empty, ◌==◌, eq_iff, arith, if◌then◌else◌, Bool-cases, inl, inr,
}
use optio_ai_assignment.Shared.Events.{
  segment_delta, SegmentDeltaPayload, EventEnvelope, CampaignKind, add, remove,
  CampaignNotificationPayload,
}
use optio_ai_assignment.Database.{Customer, Tables}
use optio_ai_assignment.Database.Prisma.{Prisma}
use optio_ai_assignment.Messaging.Campaign.{
  consumer_name, acked, name_of, notification, notify, work, process,
}
use optio_ai_assignment.Messaging.Campaign.Claims.{claimed}

-- The name of a customer among all customers, or the first eight characters of an id that is no
-- customer's.
abbrev name_or : String → Option Customer → String
name_or id none = slice id 0 8
name_or id (some c) = c.name

abbrev pub called : List Customer → String → String
called people id = name_or id (find (λ c. c.id == id) people)

-- The notice of those who joined, or left: none if there are none, else one for the segment, with the
-- names of the first three and the number of all.
abbrev pub notice :
    ℕ
    → List Customer
    → SegmentDeltaPayload
    → CampaignKind
    → List String
    → List CampaignNotificationPayload
notice now people p kind ids =
    if is_empty ids
    then []
    else record {
      at = now;
      segment_id = p.segment_id;
      segment_name = p.segment_name;
      kind = kind;
      customer_names = map (called people) (take 3 ids);
      total_count = length ids;
    }
      ∷ []

-- The query for names answers with rows of the customers, at least those it asks for.
abbrev pub AnswersFor : List Customer → (List String → Option (List Customer)) → Type 0
AnswersFor people customers =
    (ids : List String)
    → (rows : List Customer) × (customers ids ≡ some rows)
      × ((id : String)
          → has ids id ≡ true
          → find (λ c. c.id == id) rows ≡ find (λ c. c.id == id) people)

name_of-find :
    (rows : List Customer) (id : String)
    → name_of rows id ≡ name_or id (find (λ c. c.id == id) rows)
unfolding name_of
name_of-find [] id = refl
name_of-find (c ∷ rows) id = elim (Bool-cases (c.id == id)) [
  | inl same ↦ rw same
  | inr other ↦ rw other (name_of-find rows id)
]

names_called :
    (people rows : List Customer) (ids : List String)
    → ((id : String)
        → has ids id ≡ true
        → find (λ c. c.id == id) rows ≡ find (λ c. c.id == id) people)
    → map (name_of rows) ids ≡ map (called people) ids
unfolding has
names_called people rows [] h = refl
names_called people rows (id ∷ ids) h =
    rw
      (
        name_of-find rows id,
        h id (ground (arith, eq_iff id id)),
        names_called people rows ids (λ x m. h x (ground arith)),
      )
      refl

module _ ⦃prisma : Prisma⦄ (now : ℕ) (customers : List String → Option (List Customer))
    (people : List Customer) (answers : AnswersFor people customers) where
  notify_done :
      (p : SegmentDeltaPayload) (kind : CampaignKind) (ids : List String)
      → notify now customers p kind ids ≡ some (notice now people p kind ids)
  unfolding notify
  notify_done p kind [] = refl
  notify_done p kind (id ∷ ids) =
      let (rows, found, same) = answers (take 3 (id ∷ ids)) in
      rw found (
        ap (λ names. some (notification now customers p kind (id ∷ ids) names ∷ []))
          (names_called people rows (take 3 (id ∷ ids)) same))

  -- The first delivery of a delta event is acknowledged, if the query for names answers with the
  -- customers it is asked for, and broadcasts exactly the notices of the event: one for those who
  -- joined, then one for those who left, each only if there are any, with the segment, the names of
  -- the first three in their order, and the number of all.
  pub process_first :
      (e : EventEnvelope) (t : Tables)
      → e.event_type ≡ segment_delta
      → claimed t e.event_id ≡ false
      → ((process now customers e t).settlement ≡ acked)
        × ((process now customers e t).broadcast
            ≡ notice now people e.payload add e.payload.added
              ++ notice now people e.payload remove e.payload.removed)
  unfolding process work
  process_first e t typed fresh =
      rw
        (
          (eq_iff e.event_type segment_delta).1 typed,
          prisma.claim_event_lem e.event_id consumer_name t,
          fresh,
          work,
          notify_done e.payload add e.payload.added,
          notify_done e.payload remove e.payload.removed,
        )
        (refl, refl)
