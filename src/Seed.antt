-- ===== src/Seed.antt =====
-- apps/api/prisma/seed.ts. The ids that the database gives, the random customers and the random
-- transactions are arguments; the random customers stand in the order in which they are read back.
pub mod Start
use optio_ai_assignment.Prelude.{String, some, List, [], ◌∷◌, ◌++◌, map, take}
use optio_ai_assignment.Prelude.Int.{ℤ, pos, ◌-ℤ◌}
use optio_ai_assignment.Number.{of_ℕ}
use optio_ai_assignment.Shared.Json.{Fields, no_fields, entry, string}
use optio_ai_assignment.Shared.Rule.{
  SegmentRule, compare, in_segment, and, nil, cons, tx_count_30d, tx_count_total, sum_amount_60d,
  last_tx_age_days, gt, ge,
}
use optio_ai_assignment.Database.{
  Customer, Transaction, Segment, SegmentMember, Tables, dynamic, static,
}
use optio_ai_assignment.Segments.Metrics.{days}

pub record SeedIds : Type 0 where
  pub nino : String
  pub lasha : String
  pub tamar : String
  pub giorgi : String
  pub mari : String
  pub active_buyers : String
  pub vip : String
  pub risk_group : String
  pub active_vips : String
  pub march_campaign : String

abbrev tier : String → Fields
tier t = entry "tier" (string t) no_fields

unfoldable pub named_customers : SeedIds → List Customer
named_customers ids =
    record {
      id = ids.nino;
      name = "Nino Beridze";
      email = "nino@drift.test";
      profile = tier "gold";
    }
    ∷ record {
      id = ids.lasha;
      name = "Lasha Kapanadze";
      email = "lasha@drift.test";
      profile = tier "silver";
    }
    ∷ record {
      id = ids.tamar;
      name = "Tamar Lomidze";
      email = "tamar@drift.test";
      profile = tier "bronze";
    }
    ∷ record {
      id = ids.giorgi;
      name = "Giorgi Tsereteli";
      email = "giorgi@drift.test";
      profile = tier "gold";
    }
    ∷ record {
      id = ids.mari;
      name = "Mari Kvaratskhelia";
      email = "mari@drift.test";
      profile = tier "bronze";
    }
    ∷ []

-- an amount in hundredths, so many days ago
abbrev paid : ℤ → String → ℤ → ℤ → Transaction
paid now customer_id amount age = record {
  customer_id = customer_id;
  amount = amount;
  occurred_at = now -ℤ age;
}

unfoldable pub named_transactions : ℤ → SeedIds → List Transaction
named_transactions now ids =
    paid now ids.nino (pos 300000) (days 28)
    ∷ paid now ids.nino (pos 250000) (days 40)
    ∷ paid now ids.nino (pos 250000) (days 55)
    ∷ paid now ids.lasha (pos 300000) (days 35)
    ∷ paid now ids.lasha (pos 250000) (days 50)
    ∷ paid now ids.tamar (pos 15000) (days 100)
    ∷ paid now ids.tamar (pos 20000) (days 120)
    ∷ paid now ids.giorgi (pos 100000) (days 2)
    ∷ paid now ids.giorgi (pos 80000) (days 10)
    ∷ paid now ids.giorgi (pos 150000) (days 20)
    ∷ paid now ids.giorgi (pos 200000) (days 35)
    ∷ paid now ids.giorgi (pos 120000) (days 50)
    ∷ []

abbrev active_buyers_rule : SegmentRule
active_buyers_rule = compare tx_count_30d ge (of_ℕ 1)

abbrev vip_rule : SegmentRule
vip_rule = compare sum_amount_60d gt (of_ℕ 5000)

abbrev risk_group_rule : SegmentRule
risk_group_rule =
    and
      (cons (compare last_tx_age_days gt (of_ℕ 90)) (cons (compare tx_count_total ge (of_ℕ 1)) nil))

abbrev active_vips_rule : SeedIds → SegmentRule
active_vips_rule ids = and (cons (in_segment ids.active_buyers) (cons (in_segment ids.vip) nil))

abbrev pub march_campaign_row : SeedIds → Segment
march_campaign_row ids = record {
  id = ids.march_campaign;
  name = "March Campaign Audience";
  description =
      some
        "Static snapshot for the March 2026 campaign — does not auto-update. Manual refresh re-evaluates the rule.";
  type = static;
  rule = compare tx_count_total ge (of_ℕ 10);
}

unfoldable pub seed_segments : SeedIds → List Segment
seed_segments ids =
    record {
      id = ids.active_buyers;
      name = "Active Buyers";
      description = some "Customers with at least one transaction in the last 30 days.";
      type = dynamic;
      rule = active_buyers_rule;
    }
    ∷ record {
      id = ids.vip;
      name = "VIP";
      description = some "Customers whose 60-day spend exceeds 5,000 GEL.";
      type = dynamic;
      rule = vip_rule;
    }
    ∷ record {
      id = ids.risk_group;
      name = "Risk Group";
      description = some "Customers with no transaction in 90 days but were previously active.";
      type = dynamic;
      rule = risk_group_rule;
    }
    ∷ record {
      id = ids.active_vips;
      name = "Active VIPs";
      description = some "Customers in both Active Buyers and VIP — demonstrates cascading.";
      type = dynamic;
      rule = active_vips_rule ids;
    }
    ∷ march_campaign_row ids
    ∷ []

-- the first fifty random customers
unfoldable pub campaign_members : SeedIds → List Customer → List SegmentMember
campaign_members ids customers =
    map (λ c. record { segment_id = ids.march_campaign; customer_id = c.id }) (take 50 customers)

-- `main`. With the segments and customers go their history and their edges; the outbox and the claims
-- stay.
unfoldable pub seed : ℤ → SeedIds → List Customer → List Transaction → Tables → Tables
seed now ids random_customers random_transactions t = record t {
  customers = named_customers ids ++ random_customers;
  transactions = named_transactions now ids ++ random_transactions;
  segments = seed_segments ids;
  members = campaign_members ids random_customers;
  deltas = [];
  dependencies = [];
}
