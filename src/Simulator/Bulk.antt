-- ===== src/Simulator/Bulk.antt =====
-- What the bulk endpoint inserts.
use mathlib.Core.List.{append_assoc, append-nil}
use optio_ai_assignment.Prelude.{
  ℕ, zero, suc, ◌+◌, ◌-◌, ◌*◌, ◌/◌, ◌≤◌, min, false, ◌||◌, ◌≡◌, refl, ap, ◌∙◌, ◌∷◌, ◌++◌, length,
  is_empty, ltb, leb, arith, Bool-cases, inl, inr,
}
use optio_ai_assignment.Shared.Result.{ok}
use optio_ai_assignment.Database.{Transaction}
use optio_ai_assignment.Messaging.Buffer.{Redis, ChangeBuffer, mark_changed_many}
use optio_ai_assignment.Simulator.{
  drawn, touched, unit, passes, BulkResult, bulk_chunk, bulk_loop, simulate_bulk,
}

drawn-append :
    (draw : ℕ → Transaction) (i j m n a : ℕ)
    → a ≡ m + n
    → j ≡ i + m
    → drawn draw i m ++ drawn draw j n ≡ drawn draw i a
unfolding drawn
drawn-append draw i j zero n a e k = rw (the_same, also) refl
  where
    the_same : a ≡ n
    the_same = omega arith

    also : j ≡ i
    also = omega arith
drawn-append draw i j (suc m) n zero e k = absurd (omega arith)
drawn-append draw i j (suc m) n (suc a) e k =
    ap (◌∷◌ (draw i)) (drawn-append draw (i + 1) j m n a (omega arith) (omega arith))

-- A chunk of whole size, and the chunks behind it.
chunk_joined :
    (draw : ℕ → Transaction) (whole next rest : ℕ)
    → drawn draw next (passes (min (whole * 65536) rest))
        ++ drawn draw (next + passes (min (whole * 65536) rest)) (passes (rest - whole * 65536))
      ≡ drawn draw next (passes rest)
unfolding drawn
chunk_joined draw whole next rest = elim (Bool-cases (leb (whole * 65536) rest)) [
  | inl fits ↦
      let f : min (whole * 65536) rest ≡ whole * 65536 = ground arith in
      let g : whole * 65536 ≤ rest = ground arith in
      rw f (
        drawn-append draw next (next + passes (whole * 65536)) (passes (whole * 65536))
          (passes (rest - whole * 65536)) (passes rest) (omega (arith, g)) refl)
  | inr short ↦
      let f : min (whole * 65536) rest ≡ rest = ground arith in
      let e : passes (rest - whole * 65536) ≡ 0 = ground arith in rw (f, e, append-nil)
]

module _ ⦃redis : Redis⦄ (draw : ℕ → Transaction) where
  transactions-bulk_chunk :
      (next size : ℕ) (s : ChangeBuffer)
      → (bulk_chunk draw next size s).tables.transactions
        ≡ s.tables.transactions ++ drawn draw next (passes size)
  unfolding mark_changed_many
  transactions-bulk_chunk next size s =
      elim (Bool-cases (is_empty (touched (drawn draw next (passes size))))) [
        | inl e ↦ rw e
        | inr e ↦ rw e
      ]

  bulk_loop-inserts :
      (fuel count whole offset inserted next : ℕ) (s : ChangeBuffer)
      → 1 ≤ whole
      → count ≤ offset + fuel * 65536
      → ((bulk_loop draw fuel count (whole * 65536) offset inserted next s).0
          ≡ inserted + (count - offset))
        × ((bulk_loop draw fuel count (whole * 65536) offset inserted next s).1.tables.transactions
            ≡ s.tables.transactions ++ drawn draw next (passes (count - offset)))
  unfolding bulk_loop drawn
  bulk_loop-inserts zero count whole offset inserted next s h k =
      let e : count - offset ≡ 0 = omega arith in (omega arith, rw (e, append-nil))
  bulk_loop-inserts (suc fuel) count whole offset inserted next s h k =
      elim (Bool-cases (ltb offset count)) [
        | inr over ↦
            let e : count - offset ≡ 0 = ground arith in
            rw over (omega (arith, e), rw (e, append-nil))
        | inl more ↦
            let size = min (whole * 65536) (count - offset) in
            let (number, rows) =
              bulk_loop-inserts fuel count whole (offset + whole * 65536) (inserted + size)
                (next + passes size) (bulk_chunk draw next size s) h (omega arith) in
            let left : count - (offset + whole * 65536) ≡ count - offset - whole * 65536 =
              omega arith in
            rw more (
              omega (arith, number),
              rows
                  ∙ ap
                      (λ xs.
                        xs
                        ++ drawn draw (next + passes size)
                            (passes (count - (offset + whole * 65536))))
                      (transactions-bulk_chunk next size s)
                  ∙ append_assoc s.tables.transactions (drawn draw next (passes size))
                      (drawn draw (next + passes size) (passes (count - (offset + whole * 65536))))
                  ∙ ap
                      (λ k.
                        s.tables.transactions
                        ++ (drawn draw next (passes size)
                            ++ drawn draw (next + passes size) (passes k)))
                      left
                  ∙ ap (s.tables.transactions ++◌) (chunk_joined draw whole next (count - offset)),
            )
      ]

  -- An accepted bulk request whose chunk size is a whole number inserts as many rows as `count`
  -- rounded up, the draws in their order, whatever the chunk size, and reports `count`, which is the
  -- number of rows if it is a whole number.
  pub simulate_bulk-inserts :
      (count whole : ℕ) (s : ChangeBuffer)
      → unit ≤ count
      → count ≤ 200000 * unit
      → 1 ≤ whole
      → whole ≤ 5000
      → is_empty s.tables.customers ≡ false
      → (r : BulkResult) × (s' : ChangeBuffer) × (simulate_bulk draw count (whole * unit) s
          ≡ (ok r, s'))
        × (r.inserted ≡ count)
        × (s'.tables.transactions ≡ s.tables.transactions ++ drawn draw 0 (passes count))
        × ((n : ℕ) → count ≡ n * unit → passes count ≡ n)
  unfolding simulate_bulk
  simulate_bulk-inserts count whole s a b c d some_customers =
      let (number, rows) = bulk_loop-inserts (passes count) count whole 0 0 0 s c (omega arith) in
      let low : (ltb count 65536 || ltb (200000 * 65536) count) ≡ false = ground arith in
      let high : (ltb (whole * 65536) 65536 || ltb (5000 * 65536) (whole * 65536)) ≡ false =
        ground arith in
      let all_of_it : count - 0 ≡ count = omega arith in
      (
        record {
          inserted = (bulk_loop draw (passes count) count (whole * 65536) 0 0 0 s).0;
          chunk_size = whole * 65536;
          chunks = (count + whole * 65536 - 1) / (whole * 65536);
          unique_customers = length s.tables.customers;
        },
        (bulk_loop draw (passes count) count (whole * 65536) 0 0 0 s).1,
        rw (low, high, some_customers),
        omega (arith, number),
        rows ∙ ap (λ k. s.tables.transactions ++ drawn draw 0 (passes k)) all_of_it,
        λ n e. omega (arith, e),
      )
