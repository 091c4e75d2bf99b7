-- ===== src/Tests/MessagingTests.antt =====
-- The outbox, the consumers and the change buffer on the small database.
use optio_ai_assignment.Prelude.{
  ◌≤◌, String, true, false, ◌||◌, ◌≡◌, refl, subst, Option, none, some, List, [], ◌∷◌, ◌++◌, filter,
  length, has, distinct, arith, eq_iff, if◌then◌else◌,
}
use optio_ai_assignment.Prelude.Int.{pos}
use optio_ai_assignment.Shared.Events.{segment_delta, add, remove, EventEnvelope}
use optio_ai_assignment.Database.{Customer, Tables, pending}
use optio_ai_assignment.Database.InMemory.{in_memory, insert_by, sort_events}
use optio_ai_assignment.Database.Views.{
  is_dynamic, is_pending, is_claimed, mark_published, children_of, parents_of,
}
use optio_ai_assignment.Segments.Evaluator.Meaning.{refers}
use optio_ai_assignment.Segments.Evaluation.Pass.{is_in}
use optio_ai_assignment.Segments.Evaluation.Sync.{InSync}
use optio_ai_assignment.Segments.Rebuild.Convergence.{AllInSync}
use optio_ai_assignment.Messaging.Outbox.{Reply, accepted, publish_rows, drain_batch}
use optio_ai_assignment.Messaging.Outbox.Delivery.{is_published, sent_ids, drain_batch_safe}
use optio_ai_assignment.Messaging.Campaign.{acked, requeued, process}
use optio_ai_assignment.Messaging.Campaign.Claims.{
  claimed, Delivery, deliver, after_all, process_at_most_once, process_lost,
}
use optio_ai_assignment.Messaging.Campaign.Notices.{notice, AnswersFor, process_first}
use optio_ai_assignment.Messaging.Cascade
use optio_ai_assignment.Messaging.Cascade.Dependents.{IsDependent, AllDependent, process-InSync}
use optio_ai_assignment.Messaging.Cascade.Poison.{
  IsStaticChild, redelivered, process_static_dependent,
}
use optio_ai_assignment.Messaging.Buffer.{tick}
use optio_ai_assignment.Messaging.Buffer.Flush.{
  tick-AllInSync, tick_cycle_loses, stay, go, ticks, IsIdle, Reaches-IsIdle,
}
use optio_ai_assignment.Tests.Data.{
  decimal_text, redis_sets, twins, picked, ann, base, refreshed, entwined, env, payload, event,
  buffered,
}
use optio_ai_assignment.Tests.SegmentTests.{
  twins_exist, buyers_there, rank, base_distinct, base-IsRanked, base_exist, entwined_distinct,
  entwined-IsCycle, entwined_there,
}

abbrev waiting : Tables
waiting = record base {
  outbox =
      record {
        id = "e1";
        event_type = segment_delta;
        payload = payload;
        status = pending;
        created_at = 5;
      }
      ∷ [];
}

abbrev always : EventEnvelope → Reply
always e = accepted

published_once : is_published (drain_batch always waiting).1.outbox "e1" ≡ true
unfolding drain_batch publish_rows is_published mark_published insert_by sort_events
published_once = refl

drain_batch_safe_example :
    (is_published waiting.outbox "e1" || has (sent_ids (drain_batch always waiting).0) "e1") ≡ true
drain_batch_safe_example = drain_batch_safe always waiting "e1" published_once

always_accepts : (e : EventEnvelope) → always e ≡ accepted
always_accepts e = refl

few : length (filter is_pending waiting.outbox) ≤ 100
few = omega arith

-- A query that answers, and one that throws.
abbrev answering : List String → Option (List Customer)
answering ids = some (ann ∷ [])

abbrev failing : List String → Option (List Customer)
failing ids = none

answers : AnswersFor (ann ∷ []) answering
answers ids = (ann ∷ [], refl, λ id asked. refl)

abbrev first : Delivery
first = record { now = 7; customers = answering; envelope = event }

abbrev broken : Delivery
broken = record { now = 7; customers = failing; envelope = event }

unclaimed : claimed base "e1" ≡ false
unfolding is_claimed
unclaimed = refl

process_at_most_once_example : deliver first (after_all [] (deliver first base).tables) ≡ record {
  broadcast = [];
  tables = after_all [] (deliver first base).tables;
  settlement = acked;
}
process_at_most_once_example = process_at_most_once first first [] base refl refl

process_first_example :
    ((process 7 answering event base).settlement ≡ acked)
    × ((process 7 answering event base).broadcast
        ≡ notice 7 (ann ∷ []) payload add ("ann" ∷ []) ++ notice 7 (ann ∷ []) payload remove [])
process_first_example = process_first 7 answering (ann ∷ []) answers event base refl unclaimed

process_lost_example :
    ((deliver broken base).broadcast ≡ [])
    × ((deliver broken base).settlement ≡ requeued)
    × ((deliver first (deliver broken base).tables).broadcast ≡ [])
    × ((deliver first (deliver broken base).tables).settlement ≡ acked)
process_lost_example = process_lost broken first base refl refl unclaimed refl refl

-- The only dependent of the buyers are the twins.
only_twins : (id : String) → has (children_of base.dependencies "buyers") id ≡ true → "twins" ≡ id
unfolding children_of has
only_twins id m = (eq_iff "twins" id).0 (ground arith)

twins_depend : AllDependent base (children_of base.dependencies "buyers")
unfolding refers
twins_depend id m =
    subst (IsDependent (children_of base.dependencies "buyers") base) (only_twins id m) (record {
      row = twins;
      found = refl;
      allowed = refl;
      parents = twins_exist base buyers_there;
      apart = λ child c. subst (λ x. refers twins.rule x ≡ false) (only_twins child c) refl;
    })

is_child : has (children_of base.dependencies "buyers") "twins" ≡ true
unfolding children_of has
is_child = refl

process-InSync_example :
    ((Cascade.process env event base).0 ≡ acked)
    × InSync (pos 2000) (Cascade.process env event base).1 twins
    × ((id c : String)
        → is_in (Cascade.process env event base).1 id c ≡ (
            if has (children_of base.dependencies "buyers") id
            then is_in (Cascade.process env event base).1 id c
            else is_in base id c))
process-InSync_example = process-InSync env event base "twins" twins refl twins_depend is_child refl

picked_depends : IsStaticChild refreshed "buyers" "picked"
unfolding parents_of has
picked_depends = (picked, refl, refl, refl)

process_static_dependent_example :
    (Cascade.process env event (redelivered (env ∷ []) event refreshed)).0 ≡ requeued
process_static_dependent_example =
    process_static_dependent env (env ∷ []) event refreshed "picked" refl picked_depends

tick-AllInSync_example :
    AllInSync env (tick env (buffered base)).tables (filter is_dynamic base.segments)
    × ((tick env (buffered base)).keys ≡ record { buffer = []; snapshot = [] })
tick-AllInSync_example =
    tick-AllInSync env rank (buffered base) refl refl base_distinct base-IsRanked base_exist

tick_cycle_loses_example :
    ((tick env (buffered entwined)).tables ≡ entwined)
    × ((tick env (buffered entwined)).keys ≡ record { buffer = []; snapshot = [] })
    × (tick env (tick env (buffered entwined)) ≡ tick env (buffered entwined))
tick_cycle_loses_example =
    tick_cycle_loses env env (buffered entwined) (λ id. true) "twins" refl refl entwined_distinct
      entwined-IsCycle entwined_there refl

one_distinct : distinct ("ann" ∷ []) ≡ true
unfolding distinct has
one_distinct = refl

idle : IsIdle (buffered entwined)
idle = record { not_in_flight = refl; no_snapshot = refl; is_set = one_distinct }

Reaches-IsIdle_example : IsIdle (tick env (buffered entwined))
Reaches-IsIdle_example =
    Reaches-IsIdle (buffered entwined) (tick env (buffered entwined)) idle
      (go stay (ticks env (buffered entwined)))
