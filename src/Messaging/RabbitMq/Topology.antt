-- ===== src/Messaging/RabbitMq/Topology.antt =====
-- What the start of the RabbitMQ service leaves, and what a publish then does.
use mathlib.Core.Option.{some-injective}
use optio_ai_assignment.Prelude.{
  String, true, false, ◌||◌, ◌≡◌, refl, subst, ◌⊎◌, Option, none, some, List, [], ◌∷◌, all,
  all_intro, has, arith, Option-cases, inl, inr,
}
use optio_ai_assignment.Shared.Events.{segment_delta, EventEnvelope}
use optio_ai_assignment.Messaging.Outbox.{throws}
use optio_ai_assignment.Messaging.RabbitMq.{
  events_exchange, queues, Amqp, resolved, settled, Service, and_then, declare_queues,
  declare_topology, on_module_init, publish,
}

module _ (amqp : Amqp) where
  and_then-some :
      (o : Option (amqp.Broker)) (f : amqp.Broker → Option (amqp.Broker)) (b' : amqp.Broker)
      → and_then amqp o f ≡ some b'
      → (b : amqp.Broker) × (o ≡ some b) × (f b ≡ some b')
  and_then-some none f b' h = absurd (ground arith)
  and_then-some (some b) f b' h = (b, refl, h)

  declare_queues-bound :
      (qs : List String) (b b' : amqp.Broker)
      → declare_queues amqp qs b ≡ some b'
      → (q : String) → (amqp.is_bound b q events_exchange segment_delta || has qs q) ≡ true
      → amqp.is_bound b' q events_exchange segment_delta ≡ true
  unfolding declare_queues has
  declare_queues-bound [] b b' h q m =
      subst (λ x. amqp.is_bound x q events_exchange segment_delta ≡ true) (some-injective b b' h)
        (ground arith)
  declare_queues-bound (queue ∷ rest) b b' h q m =
      let (b1, asserted, h1) =
        and_then-some (amqp.assert_queue queue b)
          (λ x.
            and_then amqp (amqp.bind_queue queue events_exchange segment_delta x)
              (declare_queues amqp rest))
          b' h in
      let (b2, bound, h2) =
        and_then-some (amqp.bind_queue queue events_exchange segment_delta b1)
          (declare_queues amqp rest) b' h1 in
      declare_queues-bound rest b2 b' h2 q (
        ground (
          arith,
          amqp.bind_queue_lem queue events_exchange segment_delta b1 b2 bound q events_exchange
              segment_delta,
          amqp.assert_queue_lem queue b b1 asserted q events_exchange segment_delta,
        ))

  declare_topology-bound :
      (url : Option String) (b b' : amqp.Broker)
      → declare_topology amqp url b ≡ some b'
      → all (λ q. amqp.is_bound b' q events_exchange segment_delta) queues ≡ true
  unfolding declare_topology
  declare_topology-bound none b b' h = absurd (ground arith)
  declare_topology-bound (some url) b b' h =
      let (b1, connected, h1) = and_then-some (amqp.connect url b) _ b' h in
      let (b2, channel, h2) = and_then-some (amqp.create_channel b1) _ b' h1 in
      let (b3, exchange, h3) = and_then-some (amqp.assert_exchange events_exchange b2) _ b' h2 in
      all_intro (λ q. amqp.is_bound b' q events_exchange segment_delta) queues
        (λ q m. declare_queues-bound queues b3 b' h3 q (ground arith))

  -- The start fails exactly if the declaration of the topology does, and it then throws again; every
  -- later publish throws at once and the broker gets nothing. Else the start returns, the service has
  -- the broker that the declaration made, in which every queue of the consumers is bound to the
  -- exchange with the key of delta events, and every later publish sends its message to that exchange.
  pub on_module_init-publish :
      (url : Option String) (s : Service amqp) (key : String) (e : EventEnvelope)
      → ((declare_topology amqp url s.broker ≡ none)
          × ((on_module_init amqp url s).0 ≡ false)
          × (publish amqp key e (on_module_init amqp url s).1
              ≡ (settled throws, (on_module_init amqp url s).1)))
        ⊎ ((b : amqp.Broker) × (declare_topology amqp url s.broker ≡ some b)
            × (on_module_init amqp url s ≡ (true, record { ready = resolved; broker = b }))
            × (all (λ q. amqp.is_bound b q events_exchange segment_delta) queues ≡ true)
            × (publish amqp key e (on_module_init amqp url s).1 ≡ (
              settled (amqp.publish_to events_exchange key e b).0,
              record { ready = resolved; broker = (amqp.publish_to events_exchange key e b).1 },
            )))
  unfolding on_module_init publish
  on_module_init-publish url s key e = elim (Option-cases (declare_topology amqp url s.broker)) [
    | inl failed ↦ inl (failed, rw failed, rw failed)
    | inr (b, done) ↦ inr (b, done, rw done, declare_topology-bound url s.broker b done, rw done)
  ]
