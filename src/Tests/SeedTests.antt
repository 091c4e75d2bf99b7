-- ===== src/Tests/SeedTests.antt =====
-- The seeded database with one random customer.
use optio_ai_assignment.Prelude.{true, ◌≡◌, refl, [], ◌∷◌, distinct, has}
use optio_ai_assignment.Prelude.Int.{pos}
use optio_ai_assignment.Database.{Tables}
use optio_ai_assignment.Database.InMemory.{in_memory}
use optio_ai_assignment.Database.Views.{segment_ids, customer_ids}
use optio_ai_assignment.Messaging.Buffer.{tick}
use optio_ai_assignment.System.Announced.{IsUnique}
use optio_ai_assignment.System.History.{IsRecorded}
use optio_ai_assignment.System.Steps.{stay, go, ticks}
use optio_ai_assignment.Seed.{SeedIds, seed, seed_segments}
use optio_ai_assignment.Seed.Start.{seeded_history}
use optio_ai_assignment.Tests.Data.{decimal_text, redis_sets, ann, bought, base, env, buffered}

abbrev seed_ids : SeedIds
seed_ids = record {
  nino = "c1";
  lasha = "c2";
  tamar = "c3";
  giorgi = "c4";
  mari = "c5";
  active_buyers = "s1";
  vip = "s2";
  risk_group = "s3";
  active_vips = "s4";
  march_campaign = "s5";
}

abbrev seeded : Tables
seeded = seed (pos 9000) seed_ids (ann ∷ []) (bought ∷ []) base

segments_once : distinct (segment_ids (seed_segments seed_ids)) ≡ true
unfolding distinct has seed_segments
segments_once = refl

customers_once : distinct (customer_ids (ann ∷ [])) ≡ true
unfolding distinct has
customers_once = refl

seeded_history_example :
    IsRecorded (tick env (buffered seeded)).tables × IsUnique (tick env (buffered seeded)).tables
seeded_history_example =
    seeded_history (pos 9000) seed_ids (ann ∷ []) (bought ∷ []) base segments_once customers_once
      (buffered seeded) (tick env (buffered seeded)) refl (go stay (ticks env (buffered seeded)))
