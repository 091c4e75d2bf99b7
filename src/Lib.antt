-- ===== src/Lib.antt =====
-- A segmentation service: segments of customers by rules over their transactions and over other
-- segments, the membership of each kept in the database and announced as deltas.
--
-- The parts, and the files that model them
--   packages/shared/src: Shared/Rule (segment-rules.ts), Shared/Events (segment-events.ts);
--     the errors of all services are in Shared/Result, and JSON values in Shared/Json.
--   apps/api/prisma/schema.prisma: Database. Database/Prisma is the interface of the queries, with the
--     documented behaviour of each as a law; the words of the laws are in Database/Views, and
--     Database/InMemory is a database of lists that has every law.
--   apps/api/prisma/seed.ts: Seed.
--   apps/api/src/segments: Segments/Evaluator (evaluator.service.ts), Segments/Metrics
--     (metrics.service.ts), Segments/Dependency (dependency.service.ts), Segments/Evaluation,
--     Segments/Order and Segments/Rebuild (segment-evaluation.service.ts: evaluateSegment, topoSort,
--     and rebuildAllDynamic with the bootstrap hook). Segments/Evaluation/Outage is
--     evaluateSegment where queries or transactions fail; System/Steps has it as a step.
--   apps/api/src/segments/segments.controller.ts: Api/Rules (validateRule), Api/Segments
--     (create, update, remove, detail, evaluate), Api/Listing (list, members, deltas, rebuild and the
--     preview of metrics).
--   apps/api/src/messaging: Messaging/Outbox (outbox-publisher.service.ts), Messaging/Campaign
--     (campaign-consumer.service.ts), Messaging/Cascade (cascade-consumer.service.ts),
--     Messaging/Buffer (change-buffer.service.ts), Messaging/Realtime (realtime.gateway.ts),
--     Messaging/RabbitMq (rabbitmq.service.ts, topology.ts).
--   apps/api/src/simulator/simulator.controller.ts: Simulator.
--   apps/web/src/app: Web/SegmentsList, Web/SegmentDetail, Web/CampaignFeed, Web/SimulatorPanel.
--   All of them together: System. System/Steps has one step for each request, delivery and timer, in
--     any order; System/Soundness says when segments and edges fit, System/History reads the table of
--     deltas as a log, and System/Counts follows the counts of the browser. System/Keeping carries any
--     property of the tables over all steps from the single writes.
-- Prelude and Number are shared helpers, and Tests holds concrete inputs.
--
-- How they interact: a change of data marks customers in the change buffer; its tick rebuilds all
-- dynamic segments in the order of their references; each pass writes members, history rows and one
-- outbox event in a transaction; the publisher sends waiting events; the cascade consumer evaluates
-- the segments that depend on the changed one, the campaign consumer notifies once for each event, and
-- the gateway passes the delta to the web client, which counts it in.
--
-- How code became definitions: a method that reads and writes the database is a function from the
-- tables to a result beside the new tables (Exec), in which a throw keeps what was written before it;
-- a transaction that fails leaves the tables as they were. Loops are structural recursion over the list
-- they walk. The loop of topoSort runs once for each segment that is not placed, and the bulk loop of
-- the simulator gets `count` steps, rounded up, enough since each step advances by at least one; its
-- numbers are multiples of 2^-16, for which doubles compute exactly.
-- validateRule counts its depth down from 33, so that depth 0 to 32 is allowed as in the source.
-- The clock, random ids and batches, random draws, parseInt, the answers of the channel and of the
-- server, and the orders that the database gives rows are arguments.
--
-- What is assumed or left out: calls do not interleave, each runs to its end, but for the two
-- evaluations of Segments/Evaluation/Race, which both read before either writes; the database answers,
-- but in Segments/Evaluation/Outage (and the steps made of it), in the insert of edges and in the query
-- for names; a new segment gets an id that no segment has; ids are unique where a theorem says so; foreign keys are checked only where dependency edges,
-- single transactions and the initial members of a segment are inserted; amounts are
-- hundredths and instants are milliseconds, integers without a bound; JavaScript numbers are multiples
-- of the least positive double. Not modelled: connections, timers, logging, rendering, the
-- channels of the consumers, the wrappers of HTTP and of the socket, the health check and the plain
-- listing of customers.
pub mod Prelude
pub mod Number
pub mod Shared
pub mod Segments
pub mod Database
pub mod Messaging
pub mod Api
pub mod Simulator
pub mod Web
pub mod System
pub mod Seed
pub mod Tests
