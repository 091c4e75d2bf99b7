-- ===== src/System/Announced.antt =====
-- What evaluations write into the outbox accounts for every member who came and went.
use optio_ai_assignment.Prelude.{
  all, ◌&&◌, ℕ, ◌+◌, String, Bool, true, false, ◌≡◌, refl, sym, subst, ◌∙◌, List, [], ◌∷◌, ◌++◌,
  map, length, length-append, has, has-append, distinct, distinct-append, ◌==◌, eq_iff, eq_refl,
  arith, if◌then◌else◌, Bool-cases, inl, inr,
}
use mathlib.Core.List.{append-nil, append_assoc}
use optio_ai_assignment.Prelude.Counting.{length-eq_of_same}
use optio_ai_assignment.Prelude.Int.{ℤ}
use optio_ai_assignment.Shared.Events.{segment_delta, SegmentDeltaPayload}
use optio_ai_assignment.Database.{Segment, OutboxEvent, Tables}
use optio_ai_assignment.Database.Views.{is_pending, members_of}
use optio_ai_assignment.Database.Prisma.{Prisma}
use optio_ai_assignment.Segments.Metrics.{DecimalText}
use optio_ai_assignment.Segments.Evaluation.{EvaluationResult, evaluate_segment}
use optio_ai_assignment.Segments.Evaluation.Persist.{payload_of}
use optio_ai_assignment.Segments.Evaluation.Race.{payloads-append}
use optio_ai_assignment.Segments.Evaluation.Contract.{
  Evaluated, is_unchanged, evaluate_segment_atomic,
}

-- No customer stands twice in a segment: the primary key of `SegmentMember`.
abbrev pub IsUnique : Tables → Type 0
IsUnique t = (id : String) → distinct (members_of t.members id) ≡ true

-- What deltas add to one segment, and what they take from it.
unfoldable pub sum_added : List SegmentDeltaPayload → String → ℕ
sum_added [] id = 0
sum_added (d ∷ ds) id = (if id == d.segment_id then length d.added else 0) + sum_added ds id

unfoldable pub sum_removed : List SegmentDeltaPayload → String → ℕ
sum_removed [] id = 0
sum_removed (d ∷ ds) id = (if id == d.segment_id then length d.removed else 0) + sum_removed ds id

sum_added-append :
    (ds es : List SegmentDeltaPayload) (id : String)
    → sum_added (ds ++ es) id ≡ sum_added ds id + sum_added es id
unfolding sum_added
sum_added-append [] es id = omega arith
sum_added-append (d ∷ ds) es id = omega (arith, sum_added-append ds es id)

sum_removed-append :
    (ds es : List SegmentDeltaPayload) (id : String)
    → sum_removed (ds ++ es) id ≡ sum_removed ds id + sum_removed es id
unfolding sum_removed
sum_removed-append [] es id = omega arith
sum_removed-append (d ∷ ds) es id = omega (arith, sum_removed-append ds es id)

module _ ⦃prisma : Prisma⦄ ⦃text : DecimalText⦄ {now : ℤ} {s : Segment} {r : EvaluationResult}
    {t t' : Tables} (done : Evaluated now s r t t') (unique : IsUnique t) where
  -- Those who were in and those who joined are those who are in and those who left.
  pub pass-length :
      length (members_of t'.members s.id) + length r.removed
      ≡ length (members_of t.members s.id) + length r.added
  pass-length =
      let after : List String = members_of t'.members s.id in
      let before : List String = members_of t.members s.id in
      omega (
        arith,
        length-append after r.removed,
        length-append before r.added,
        length-eq_of_same (after ++ r.removed) (before ++ r.added)
            (distinct-append after r.removed (done.once s.id (unique s.id)) done.removed_once
              (λ c m. left c m))
            (distinct-append before r.added (unique s.id) done.added_once (λ c m. joined c m))
            (λ c. same c),
      )
    where
      left : (c : String) → has (members_of t'.members s.id) c ≡ true → has r.removed c ≡ false
      left c m = ground (arith, done.members s.id c, done.removed c, eq_iff s.id s.id)

      joined : (c : String) → has (members_of t.members s.id) c ≡ true → has r.added c ≡ false
      joined c m = ground (arith, done.added c)

      same :
          (c : String)
          → has (members_of t'.members s.id ++ r.removed) c
            ≡ has (members_of t.members s.id ++ r.added) c
      same c = ground (
        arith,
        has-append (members_of t'.members s.id) r.removed c,
        has-append (members_of t.members s.id) r.added c,
        done.members s.id c,
        done.added c,
        done.removed c,
        eq_iff s.id s.id,
      )

  pass-other :
      (id : String)
      → (s.id == id) ≡ false
      → length (members_of t'.members id) ≡ length (members_of t.members id)
  pass-other id other =
      length-eq_of_same (members_of t'.members id) (members_of t.members id)
        (done.once id (unique id)) (unique id) (λ c. ground (arith, done.members id c))

abbrev pub payloads : List OutboxEvent → List SegmentDeltaPayload
payloads rows = map (λ e. e.payload) rows

-- A delta event that waits to be published.
abbrev pub is_news : OutboxEvent → Bool
is_news e = is_pending e && e.event_type == segment_delta

all-snoc :
    (p : OutboxEvent → Bool) (rows : List OutboxEvent) (e : OutboxEvent)
    → all p rows ≡ true
    → p e ≡ true
    → all p (rows ++ e ∷ []) ≡ true
all-snoc p [] e h k = ground arith
all-snoc p (x ∷ rows) e h k = ground (arith, all-snoc p rows e)

-- `u` are tables that evaluations made of `t`, and `announced` what they wrote into the outbox: it
-- accounts for every member who came and went.
pub record Announced (t u : Tables) : Type 0 where
  pub rows : List OutboxEvent
  pub outbox : u.outbox ≡ t.outbox ++ rows
  pub news : all is_news rows ≡ true
  pub segments : u.segments ≡ t.segments
  pub unique : IsUnique u
  pub counts :
      (id : String)
      → length (members_of u.members id) + sum_removed (payloads rows) id
        ≡ length (members_of t.members id) + sum_added (payloads rows) id

module _ ⦃prisma : Prisma⦄ ⦃text : DecimalText⦄ where
  Announced-pass :
      {now : ℤ} {s : Segment} {r : EvaluationResult} (t u u' : Tables)
      → Evaluated now s r u u'
      → Announced t u
      → Announced t u'
  Announced-pass {now} {s} {r} t u u' done h = elim (Bool-cases (is_unchanged r)) [
    | inl quiet ↦
        let same : u'.members ≡ u.members = rw quiet at done.kept in
        record {
          rows = h.rows;
          outbox = (rw quiet at done.outbox) ∙ h.outbox;
          news = h.news;
          segments = done.segments ∙ h.segments;
          unique = λ id. done.once id (h.unique id);
          counts = λ id. rw same (h.counts id);
        }
    | inr changed ↦ record {
      rows = h.rows ++ done.event ∷ [];
      outbox =
          (rw changed at done.outbox)
          ∙ rw h.outbox (append_assoc t.outbox h.rows (done.event ∷ []));
      news = all-snoc is_news h.rows done.event h.news (rw (done.status, done.event_type));
      segments = done.segments ∙ h.segments;
      unique = λ id. done.once id (h.unique id);
      counts = λ id. rw (payloads-append h.rows (done.event ∷ []), done.payload) (counted_pass id);
    }
  ]
    where
      d : SegmentDeltaPayload
      d = payload_of s.id s.name r.batch_id r.added r.removed

      own :
          length (members_of u'.members s.id) + sum_removed (payloads h.rows ++ d ∷ []) s.id
          ≡ length (members_of t.members s.id) + sum_added (payloads h.rows ++ d ∷ []) s.id
      own =
          unfold sum_added sum_removed in
          rw
            (
              sum_removed-append (payloads h.rows) (d ∷ []) s.id,
              sum_added-append (payloads h.rows) (d ∷ []) s.id,
              eq_refl s.id,
            )
            (omega (arith, pass-length done h.unique, h.counts s.id))

      counted_pass :
          (id : String)
          → length (members_of u'.members id) + sum_removed (payloads h.rows ++ d ∷ []) id
            ≡ length (members_of t.members id) + sum_added (payloads h.rows ++ d ∷ []) id
      counted_pass id = elim (Bool-cases (s.id == id)) [
        | inl here ↦
            subst
              (λ x.
                length (members_of u'.members x) + sum_removed (payloads h.rows ++ d ∷ []) x
                ≡ length (members_of t.members x) + sum_added (payloads h.rows ++ d ∷ []) x)
              ((eq_iff s.id id).0 here) own
        | inr other ↦
            unfold sum_added sum_removed in
            let away : (id == s.id) ≡ false = ground (arith, eq_iff s.id id, eq_iff id s.id) in
            rw
              (
                sum_removed-append (payloads h.rows) (d ∷ []) id,
                sum_added-append (payloads h.rows) (d ∷ []) id,
                away,
              )
              (omega (arith, pass-other done h.unique id other, h.counts id))
      ]

  pub Announced-evaluate :
      (t : Tables) (now : ℤ) (batch_id id : String) (force : Bool) (u : Tables)
      → Announced t u
      → Announced t (evaluate_segment now batch_id id force u).1
  Announced-evaluate t now batch_id id force u h =
      elim (evaluate_segment_atomic now batch_id id force u) [
        | inl (e, failed) ↦ rw failed h
        | inr (s, r, u', found, ran, done) ↦ rw ran (Announced-pass t u u' done h)
      ]

pub Announced-start : (t : Tables) → IsUnique t → Announced t t
unfolding sum_added sum_removed
Announced-start t unique = record {
  rows = [];
  outbox = sym (append-nil t.outbox);
  news = refl;
  segments = refl;
  unique = unique;
  counts = λ id. refl;
}
