-- ===== src/Simulator/Clock.antt =====
-- Moving every transaction back is moving the clock forward.
use optio_ai_assignment.Prelude.{
  ℕ, String, true, false, ◌||◌, ◌≡◌, refl, ap, ◌∙◌, Option, none, some, List, [], ◌∷◌, has, map,
  filter, length, arith, length-map,
}
use optio_ai_assignment.Prelude.Int.{ℤ, ◌+ℤ◌, ◌-ℤ◌, le_ℤ, +ℤ_parts, -ℤ_parts, eq_of_parts}
use optio_ai_assignment.Number.{Number, is_finite, lt, of_ℕ}
use optio_ai_assignment.Shared.Result.{ok}
use optio_ai_assignment.Database.{Customer, Transaction, Tables}
use optio_ai_assignment.Segments.Metrics.{
  DecimalText, days, transactions_of, within_days, sum_amount, later_of, last_occurred, metrics_of,
  compute_all, age_days, rows_for,
}
use optio_ai_assignment.Database.Views.{customer_ids}
use optio_ai_assignment.Messaging.Buffer.{Redis, ChangeBuffer, mark_changed_many}
use optio_ai_assignment.Messaging.Buffer.Marks.{mark_changed_many-tables, has-mark_changed_many}
use optio_ai_assignment.Simulator.{floor_days, shift, AdvanceResult, advance_time}

le-shift : (a b d : ℤ) → le_ℤ a (b -ℤ d) ≡ le_ℤ (a +ℤ d) b
unfolding le_ℤ
le-shift a b d = ground (arith, -ℤ_parts b d, +ℤ_parts a d)

le_shifted : (a b d : ℤ) → le_ℤ (a -ℤ d) (b -ℤ d) ≡ le_ℤ a b
unfolding le_ℤ
le_shifted a b d = ground (arith, -ℤ_parts a d, -ℤ_parts b d)

swap : (a b d : ℤ) → (a -ℤ b) +ℤ d ≡ (a +ℤ d) -ℤ b
swap a b d =
    eq_of_parts ((a -ℤ b) +ℤ d) ((a +ℤ d) -ℤ b)
      (ground (arith, -ℤ_parts a b, +ℤ_parts (a -ℤ b) d, +ℤ_parts a d, -ℤ_parts (a +ℤ d) b))

age_shift : (a b d : ℤ) → a -ℤ (b -ℤ d) ≡ (a +ℤ d) -ℤ b
age_shift a b d =
    eq_of_parts (a -ℤ (b -ℤ d)) ((a +ℤ d) -ℤ b)
      (ground (arith, -ℤ_parts b d, -ℤ_parts a (b -ℤ d), +ℤ_parts a d, -ℤ_parts (a +ℤ d) b))

within_days-shift :
    (n w : ℕ) (now : ℤ) (x : Transaction)
    → within_days w now (shift n x) ≡ within_days w (now +ℤ days n) x
unfolding within_days
within_days-shift n w now x =
    le-shift (now -ℤ days w) x.occurred_at (days n)
    ∙ ap (λ k. le_ℤ k x.occurred_at) (swap now (days w) (days n))

transactions_of-shift :
    (n : ℕ) (rows : List Transaction) (id : String)
    → transactions_of (map (shift n) rows) id ≡ map (shift n) (transactions_of rows id)
unfolding transactions_of
transactions_of-shift n [] id = refl
transactions_of-shift n (x ∷ rows) id = ground (arith, transactions_of-shift n rows id)

filter-shift :
    (n w : ℕ) (now : ℤ) (rows : List Transaction)
    → filter (within_days w now) (map (shift n) rows)
      ≡ map (shift n) (filter (within_days w (now +ℤ days n)) rows)
filter-shift n w now [] = refl
filter-shift n w now (x ∷ rows) =
    ground (arith, filter-shift n w now rows, within_days-shift n w now x)

sum_amount-shift :
    (n : ℕ) (rows : List Transaction) → sum_amount (map (shift n) rows) ≡ sum_amount rows
unfolding sum_amount
sum_amount-shift n [] = refl
sum_amount-shift n (x ∷ rows) = ap (x.amount +ℤ◌) (sum_amount-shift n rows)

abbrev moved : ℕ → Option ℤ → Option ℤ
moved n none = none
moved n (some a) = some (a -ℤ days n)

later_of-shift :
    (n : ℕ) (a : ℤ) (o : Option ℤ) → later_of (a -ℤ days n) (moved n o) ≡ later_of a o -ℤ days n
unfolding later_of
later_of-shift n a none = refl
later_of-shift n a (some b) = ground (arith, le_shifted a b (days n))

last_occurred-shift :
    (n : ℕ) (rows : List Transaction)
    → last_occurred (map (shift n) rows) ≡ moved n (last_occurred rows)
unfolding last_occurred
last_occurred-shift n [] = refl
last_occurred-shift n (x ∷ rows) = ap some (
    ap (later_of (x.occurred_at -ℤ days n)) (last_occurred-shift n rows)
    ∙ later_of-shift n x.occurred_at (last_occurred rows))

module _ ⦃text : DecimalText⦄ where
  metrics_of-shift :
      (n : ℕ) (now : ℤ) (own : List Transaction)
      → metrics_of now (map (shift n) own) ≡ metrics_of (now +ℤ days n) own
  unfolding metrics_of
  metrics_of-shift n now own =
      rw
        (
          filter-shift n 30 now own,
          filter-shift n 60 now own,
          length-map (shift n) own,
          length-map (shift n) (filter (within_days 30 (now +ℤ days n)) own),
          sum_amount-shift n (filter (within_days 60 (now +ℤ days n)) own),
          last_occurred-shift n own,
        )
        (ap
          (λ a. record {
            tx_count_30d = of_ℕ (length (filter (within_days 30 (now +ℤ days n)) own));
            tx_count_total = of_ℕ (length own);
            sum_amount_60d =
                text.of_amount (sum_amount (filter (within_days 60 (now +ℤ days n)) own));
            last_tx_age_days = a;
          })
          (aged (last_occurred own)))
    where
      aged : (o : Option ℤ) → age_days now (moved n o) ≡ age_days (now +ℤ days n) o
      aged none = refl
      aged (some a) = ap text.of_age (age_shift now a (days n))

  rows_for-shift :
      (n : ℕ) (now : ℤ) (rows : List Transaction) (customers : List Customer)
      → rows_for now (map (shift n) rows) customers ≡ rows_for (now +ℤ days n) rows customers
  rows_for-shift n now rows [] = refl
  rows_for-shift n now rows (c ∷ customers) = rw (
    transactions_of-shift n rows c.id,
    metrics_of-shift n now (transactions_of rows c.id),
    rows_for-shift n now rows customers,
  )

module _ ⦃text : DecimalText⦄ ⦃redis : Redis⦄ where
  -- After an accepted request to advance by `d` days the metrics at any instant are those that the
  -- data would have had that many whole days later without the request, every customer of the table
  -- is marked as changed, and the customers who were marked before still are.
  pub advance_time-clock :
      (d : Number) (now : ℤ) (s : ChangeBuffer)
      → is_finite d ≡ true
      → lt d (of_ℕ 1) ≡ false
      → lt (of_ℕ 365) d ≡ false
      → (r : AdvanceResult) × (s' : ChangeBuffer) × (advance_time d s ≡ (ok r, s'))
        × (compute_all now s'.tables ≡ compute_all (now +ℤ days (floor_days d)) s.tables)
        × ((c : String)
            → has s'.keys.buffer c
              ≡ (has s.keys.buffer c || has (customer_ids s.tables.customers) c))
  unfolding advance_time compute_all
  advance_time-clock d now s finite low high =
      let moved_tables : Tables = record (s.tables) {
        transactions = map (shift (floor_days d)) s.tables.transactions;
      } in
      let s1 : ChangeBuffer = record s { tables = moved_tables } in
      let ids = customer_ids s.tables.customers in
      (
        record {
          shifted_transactions = length s.tables.transactions;
          shifted_days = d;
          affected_customers = length s.tables.customers;
        },
        mark_changed_many ids s1,
        rw (finite, low, high),
        rw (mark_changed_many-tables ids s1)
            (rows_for-shift (floor_days d) now s.tables.transactions s.tables.customers),
        (λ c. has-mark_changed_many ids s1 c),
      )
