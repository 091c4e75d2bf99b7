-- ===== src/Seed/Start.antt =====
-- The seeded database as the start of the service.
use optio_ai_assignment.Prelude.{
  ℕ, zero, suc, String, true, false, ◌≡◌, refl, sym, ap, subst, ◌∙◌, some, List, [], ◌∷◌, map, take,
  has, distinct, ◌==◌, eq_iff, arith, Bool-cases, inl, inr, true_not_false, if◌then◌else◌,
}
use mathlib.Core.Option.{some-injective}
use optio_ai_assignment.Prelude.Int.{ℤ}
use optio_ai_assignment.Database.{Customer, Transaction, Tables}
use optio_ai_assignment.Database.Views.{
  is_dynamic, segment_ids, customer_ids, find_segment_row, members_of,
}
use optio_ai_assignment.Database.Prisma.{Prisma}
use optio_ai_assignment.Segments.Metrics.{DecimalText}
use optio_ai_assignment.Segments.Evaluation.Pass.{is_in}
use optio_ai_assignment.Messaging.Buffer.{Redis, ChangeBuffer}
use optio_ai_assignment.System.Announced.{IsUnique}
use optio_ai_assignment.System.History.{IsRecorded, replay}
use optio_ai_assignment.System.Recorded.{Reaches-IsRecorded}
use optio_ai_assignment.System.Unique.{Reaches-IsUnique}
use optio_ai_assignment.System.Steps.{Reaches}
use optio_ai_assignment.Seed.{SeedIds, seed, seed_segments, campaign_members, march_campaign_row}

members_of-rows :
    (march : String) (rows : List Customer) (id : String)
    → members_of (map (λ c. record { segment_id = march; customer_id = c.id }) rows) id
      ≡ (if march == id then customer_ids rows else [])
unfolding members_of
members_of-rows march [] id = ground arith
members_of-rows march (c ∷ rows) id = ground (arith, members_of-rows march rows id)

has-take :
    (n : ℕ) (rows : List Customer) (x : String)
    → has (customer_ids rows) x ≡ false
    → has (customer_ids (take n rows)) x ≡ false
unfolding has
has-take zero rows x h = refl
has-take (suc n) [] x h = refl
has-take (suc n) (c ∷ rows) x h = ground (arith, has-take n rows x)

distinct-take :
    (n : ℕ) (rows : List Customer)
    → distinct (customer_ids rows) ≡ true
    → distinct (customer_ids (take n rows)) ≡ true
unfolding distinct
distinct-take zero rows d = refl
distinct-take (suc n) [] d = refl
distinct-take (suc n) (c ∷ rows) d = ground (arith, distinct-take n rows, has-take n rows c.id)

module _ (now : ℤ) (ids : SeedIds) (customers : List Customer) (transactions : List Transaction)
    (t : Tables) (segments_once : distinct (segment_ids (seed_segments ids)) ≡ true)
    (customers_once : distinct (customer_ids customers) ≡ true) where
  seed-IsUnique : IsUnique (seed now ids customers transactions t)
  unfolding seed campaign_members distinct
  seed-IsUnique id =
      rw (members_of-rows ids.march_campaign (take 50 customers) id)
        (ground (arith, distinct-take 50 customers customers_once))

  nobody_yet :
      (id c : String)
      → (ids.march_campaign == id) ≡ false
      → is_in (seed now ids customers transactions t) id c ≡ false
  unfolding seed campaign_members has
  nobody_yet id c other = rw (members_of-rows ids.march_campaign (take 50 customers) id, other)

  march_row :
      find_segment_row (seed_segments ids) ids.march_campaign ≡ some (march_campaign_row ids)
  unfolding seed_segments distinct has
  march_row =
      let a : (ids.active_buyers == ids.march_campaign) ≡ false = ground (
        arith,
        segments_once,
        eq_iff ids.active_buyers ids.march_campaign,
        eq_iff ids.march_campaign ids.active_buyers,
      ) in
      let b : (ids.vip == ids.march_campaign) ≡ false = ground (
        arith,
        segments_once,
        eq_iff ids.vip ids.march_campaign,
        eq_iff ids.march_campaign ids.vip,
      ) in
      let c : (ids.risk_group == ids.march_campaign) ≡ false = ground (
        arith,
        segments_once,
        eq_iff ids.risk_group ids.march_campaign,
        eq_iff ids.march_campaign ids.risk_group,
      ) in
      let d : (ids.active_vips == ids.march_campaign) ≡ false = ground (
        arith,
        segments_once,
        eq_iff ids.active_vips ids.march_campaign,
        eq_iff ids.march_campaign ids.active_vips,
      ) in
      let e : (ids.march_campaign == ids.march_campaign) ≡ true =
        (eq_iff ids.march_campaign ids.march_campaign).1 refl in
      rw (a, b, c, d, e)

  march_there : has (segment_ids (seed_segments ids)) ids.march_campaign ≡ true
  unfolding seed_segments has
  march_there = ground (arith, eq_iff ids.march_campaign ids.march_campaign)

  seed-IsRecorded : IsRecorded (seed now ids customers transactions t)
  unfolding replay seed
  seed-IsRecorded = record {
    recorded = λ id c s found d. elim (Bool-cases (ids.march_campaign == id)) [
      | inr other ↦ nobody_yet id c other
      | inl same ↦
          let here : find_segment_row (seed_segments ids) ids.march_campaign ≡ some s =
            subst (λ x. find_segment_row (seed_segments ids) x ≡ some s)
              (sym ((eq_iff ids.march_campaign id).0 same)) found in
          absurd
            (true_not_false (sym d ∙ ap is_dynamic (some-injective _ _ (sym here ∙ march_row))))
    ];
    nobody =
        λ id c gone. nobody_yet id c (ground (arith, march_there, eq_iff ids.march_campaign id));
    nothing = λ id c gone. refl;
  }

  -- From the database that the seed leaves, whatever the service does: in every state that it reaches,
  -- the table of members and the replayed history say the same of every dynamic segment, and no
  -- customer stands twice in a segment. The database gives the five segments different ids, and the
  -- random customers too.
  pub seeded_history :
      ⦃prisma : Prisma⦄ ⦃text : DecimalText⦄ ⦃redis : Redis⦄ (s s' : ChangeBuffer)
      → s.tables ≡ seed now ids customers transactions t
      → Reaches s s'
      → IsRecorded s'.tables × IsUnique s'.tables
  seeded_history s s' seeded reached = (
    Reaches-IsRecorded s s' (rw seeded seed-IsRecorded) reached,
    Reaches-IsUnique s s' (λ id. rw seeded (seed-IsUnique id)) reached,
  )
