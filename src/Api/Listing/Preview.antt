-- ===== src/Api/Listing/Preview.antt =====
-- The metrics preview of the segments controller.
use optio_ai_assignment.Prelude.{
  String, true, ◌≡◌, refl, some, List, [], ◌∷◌, map, all, has, ◌==◌, eq_iff, arith, Bool-cases, inl,
  inr,
}
use optio_ai_assignment.Prelude.Int.{ℤ}
use optio_ai_assignment.Database.{Customer, Transaction, Tables}
use optio_ai_assignment.Database.Views.{customer_ids}
use optio_ai_assignment.Segments.Metrics.{
  DecimalText, transactions_of, metrics_of, rows_for, compute_all,
}
use optio_ai_assignment.Api.Listing.{PreviewRow, get_metrics, preview}

module _ ⦃text : DecimalText⦄ where
  get_metrics-rows :
      (now : ℤ) (transactions : List Transaction) (rows : List Customer) (id : String)
      → has (customer_ids rows) id ≡ true
      → get_metrics (rows_for now transactions rows) id
        ≡ some (metrics_of now (transactions_of transactions id))
  unfolding get_metrics has
  get_metrics-rows now transactions [] id h = absurd (ground arith)
  get_metrics-rows now transactions (c ∷ rows) id h = elim (Bool-cases (c.id == id)) [
    | inl same ↦ rw (same, (eq_iff c.id id).0 same)
    | inr other ↦ rw other (get_metrics-rows now transactions rows id (ground arith))
  ]

  rows-preview :
      (now : ℤ) (t : Tables) (rows : List Customer)
      → all (λ c. has (customer_ids t.customers) c.id) rows ≡ true
      → map {B = PreviewRow}
          (λ c. record {
            name = c.name;
            email = c.email;
            metrics = get_metrics (compute_all now t) c.id;
          })
          rows
        ≡ map {B = PreviewRow}
            (λ c. record {
              name = c.name;
              email = c.email;
              metrics = some (metrics_of now (transactions_of t.transactions c.id));
            })
            rows
  unfolding compute_all
  rows-preview now t [] h = refl
  rows-preview now t (c ∷ rows) h =
      let here : has (customer_ids t.customers) c.id ≡ true = ground arith in
      rw (
        get_metrics-rows now t.transactions t.customers c.id here,
        rows-preview now t rows (ground arith),
      )

  -- The preview shows each customer that the query finds, in its order, with the metrics of exactly
  -- this customer's transactions; none is without. The query finds customers of the table.
  pub preview-metrics :
      (now : ℤ) (named : Tables → List Customer) (t : Tables)
      → all (λ c. has (customer_ids t.customers) c.id) (named t) ≡ true
      → preview now named t
        ≡ map {B = PreviewRow}
            (λ c. record {
              name = c.name;
              email = c.email;
              metrics = some (metrics_of now (transactions_of t.transactions c.id));
            })
            (named t)
  unfolding preview
  preview-metrics now named t h = rows-preview now t (named t) h
