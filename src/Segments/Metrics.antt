-- ===== src/Segments/Metrics.antt =====
-- apps/api/src/segments/metrics.service.ts: the SQL aggregate and the conversion of its rows.
-- Amounts are hundredths and instants are milliseconds, as integers of any size; the clock that
-- `NOW()` reads is an argument.
use optio_ai_assignment.Prelude.{
  ℕ, ◌*◌, String, Bool, Option, none, some, List, [], ◌∷◌, length, filter, ◌==◌, if◌then◌else◌,
}
use optio_ai_assignment.Prelude.Int.{ℤ, pos, ◌+ℤ◌, ◌-ℤ◌, le_ℤ}
use optio_ai_assignment.Number.{Number, infinity, of_ℕ}
use optio_ai_assignment.Database.{Customer, Transaction, Tables}

pub record CustomerMetrics : Type 0 where
  pub tx_count_30d : Number
  pub tx_count_total : Number
  pub sum_amount_60d : Number
  pub last_tx_age_days : Number

-- `Number(text)` of the decimal texts that the query returns, rounded to a double: of an amount in
-- hundredths, and of an age in days that is given in milliseconds.
pub record DecimalText : Type 0 where
  pub of_amount : ℤ → Number
  pub of_age : ℤ → Number

-- `INTERVAL 'n days'`
abbrev pub days : ℕ → ℤ
days n = pos (n * 86400000)

-- the join: the transactions of one customer
unfoldable pub transactions_of : List Transaction → String → List Transaction
transactions_of rows id = filter (λ t. t.customer_id == id) rows

-- `t."occurredAt" >= NOW() - INTERVAL 'n days'`
unfoldable pub within_days : ℕ → ℤ → Transaction → Bool
within_days n now t = le_ℤ (now -ℤ days n) t.occurred_at

-- `COALESCE(SUM(t.amount), 0)`
unfoldable pub sum_amount : List Transaction → ℤ
sum_amount [] = pos 0
sum_amount (t ∷ rows) = t.amount +ℤ sum_amount rows

-- `MAX(t."occurredAt")`
unfoldable pub later_of : ℤ → Option ℤ → ℤ
later_of a none = a
later_of a (some b) = if le_ℤ a b then b else a

unfoldable pub last_occurred : List Transaction → Option ℤ
unfolding later_of
last_occurred [] = none
last_occurred (t ∷ rows) = some (later_of t.occurred_at (last_occurred rows))

module _ ⦃text : DecimalText⦄ where
  -- the age column, `NULL` for a customer with no transaction, as a number
  abbrev pub age_days : ℤ → Option ℤ → Number
  age_days now none = infinity
  age_days now (some last) = text.of_age (now -ℤ last)

  unfoldable pub metrics_of : ℤ → List Transaction → CustomerMetrics
  unfolding within_days sum_amount last_occurred
  metrics_of now own = record {
    tx_count_30d = of_ℕ (length (filter (within_days 30 now) own));
    tx_count_total = of_ℕ (length own);
    sum_amount_60d = text.of_amount (sum_amount (filter (within_days 60 now) own));
    last_tx_age_days = age_days now (last_occurred own);
  }

  -- the `Map` that `computeAll` fills, one entry for each customer row
  abbrev pub rows_for : ℤ → List Transaction → List Customer → List (String × CustomerMetrics)
  rows_for now transactions [] = []
  rows_for now transactions (c ∷ customers) =
      (c.id, metrics_of now (transactions_of transactions c.id))
      ∷ rows_for now transactions customers

  unfoldable pub compute_all : ℤ → Tables → List (String × CustomerMetrics)
  compute_all now t = rows_for now t.transactions t.customers
