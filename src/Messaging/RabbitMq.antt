-- ===== src/Messaging/RabbitMq.antt =====
-- apps/api/src/messaging/rabbitmq.service.ts and topology.ts. The broker and its client are a
-- parameter; `none` is a call that throws.
pub mod Topology
use optio_ai_assignment.Prelude.{
  String, Bool, true, false, ◌&&◌, ◌||◌, ◌≡◌, Option, none, some, List, [], ◌∷◌, ◌==◌,
}
use optio_ai_assignment.Shared.Events.{segment_delta, EventEnvelope}
use optio_ai_assignment.Messaging.Outbox.{Reply, throws}

-- Exchanges.Events
abbrev pub events_exchange : String
events_exchange = "drift.events"

-- Object.values(Queues)
abbrev pub queues : List String
queues = "drift.cascade" ∷ "drift.campaign" ∷ "drift.realtime" ∷ []

-- the calls of amqplib, over the state of the broker
pub record Amqp : Type 1 where
  pub Broker : Type 0
  -- amqp.connect(url), and createChannel() of the connection
  pub connect : String → Broker → Option Broker
  pub create_channel : Broker → Option Broker
  -- assertExchange(exchange, 'topic', { durable: true })
  pub assert_exchange : String → Broker → Option Broker
  -- assertQueue(queue, { durable: true })
  pub assert_queue : String → Broker → Option Broker
  -- bindQueue(queue, exchange, key)
  pub bind_queue : String → String → String → Broker → Option Broker
  -- publish(exchange, key, content, { persistent: true }): what it answers, and the broker after it
  pub publish_to : String → String → EventEnvelope → Broker → Reply × Broker
  -- whether messages with the key go from the exchange to the queue
  pub is_bound : Broker → String → String → String → Bool
  pub assert_queue_lem :
      (queue : String) (b b' : Broker)
      → assert_queue queue b ≡ some b'
      → (q x k : String) → is_bound b' q x k ≡ is_bound b q x k
  pub bind_queue_lem :
      (queue exchange key : String) (b b' : Broker)
      → bind_queue queue exchange key b ≡ some b'
      → (q x k : String)
      → is_bound b' q x k ≡ (is_bound b q x k || queue == q && (exchange == x && key == k))

-- the promise `ready`
pub data Ready : Type 0 where
  waiting resolved rejected : Ready

-- what `publish` comes to: it waits for `ready`, or has its answer
pub data Published : Type 0 where
  pending : Published
  settled : Reply → Published

module _ (amqp : Amqp) where
  pub record Service : Type 0 where
    pub ready : Ready
    pub broker : amqp.Broker

  abbrev pub and_then :
      Option (amqp.Broker) → (amqp.Broker → Option (amqp.Broker)) → Option (amqp.Broker)
  and_then none f = none
  and_then (some b) f = f b

  -- the loop over the queues
  unfoldable pub declare_queues : List String → amqp.Broker → Option (amqp.Broker)
  declare_queues [] b = some b
  declare_queues (queue ∷ rest) b = and_then (amqp.assert_queue queue b) (λ b1.
      and_then (amqp.bind_queue queue events_exchange segment_delta b1) (declare_queues rest))

  -- the try block; `url` is `none` if the configuration has none
  unfoldable pub declare_topology : Option String → amqp.Broker → Option (amqp.Broker)
  declare_topology none b = none
  declare_topology (some url) b = and_then (amqp.connect url b) (λ b1.
      and_then (amqp.create_channel b1)
        (λ b2. and_then (amqp.assert_exchange events_exchange b2) (declare_queues queues)))

  abbrev settle_ready : Option (amqp.Broker) → Service → Bool × Service
  settle_ready none s = (false, record s { ready = rejected })
  settle_ready (some b) s = (true, record s { ready = resolved; broker = b })

  -- whether it returns, or throws again what it caught; what the broker did before a throw is left
  -- aside: `ready` is rejected, so nobody gets a channel
  unfoldable pub on_module_init : Option String → Service → Bool × Service
  on_module_init url s = settle_ready (declare_topology url s.broker) s

  abbrev publish_when : Ready → String → EventEnvelope → Service → Published × Service
  publish_when waiting key e s = (pending, s)
  publish_when rejected key e s = (settled throws, s)
  publish_when resolved key e s =
      let answer = amqp.publish_to events_exchange key e s.broker in
      (settled answer.0, record s { broker = answer.1 })

  unfoldable pub publish : String → EventEnvelope → Service → Published × Service
  publish key e s = publish_when s.ready key e s
