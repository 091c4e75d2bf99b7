-- ===== src/System/Recorded.antt =====
-- The history of the segments and their members agree in every state of the service.
use mathlib.Core.Option.{some-injective}
use optio_ai_assignment.Prelude.{
  ◌&&◌, ◌||◌, String, Bool, true, false, not, ◌||◌, ◌≡◌, sym, ap, subst, ◌∙◌, some, List, [], ◌∷◌,
  ◌++◌, filter, has, ◌==◌, eq_iff, arith, Bool-cases, inl, inr, true_not_false,
}
use optio_ai_assignment.Prelude.Int.{ℤ}
use optio_ai_assignment.Database.{Segment, Tables, static}
use optio_ai_assignment.Database.Views.{
  is_dynamic, segment_ids, find_segment_row, insert_members, replace_row,
}
use optio_ai_assignment.Database.MemberLaws.{has-insert_members}
use optio_ai_assignment.Database.Prisma.{Prisma}
use optio_ai_assignment.Segments.Metrics.{DecimalText}
use optio_ai_assignment.Segments.Evaluation.{EvaluationResult, evaluate_segment}
use optio_ai_assignment.Segments.Evaluation.Pass.{is_in}
use optio_ai_assignment.Segments.Evaluation.Contract.{Evaluated, evaluate_segment_atomic}
use optio_ai_assignment.Segments.Order.Finding.{find_segment_row-id, has-find}
use optio_ai_assignment.Messaging.Buffer.{Redis, ChangeBuffer}
use optio_ai_assignment.Api.Segments.Removing.{has-filter_ids}
use optio_ai_assignment.Api.Segments.Updating.{ids-replace_row, find-replace_row_same}
use optio_ai_assignment.System.Edits.{
  find-append_other, find-replaced_other, find-filtered, has-ids-snoc,
}
use optio_ai_assignment.System.History.{
  replay, IsRecorded, replay-pass, replay-deleted, members_of-deleted,
}
use optio_ai_assignment.System.Untouched.{SameSegments}
use optio_ai_assignment.System.Steps.{Reaches}
use optio_ai_assignment.System.Keeping.{IsKept, Reaches-keeps}
use optio_ai_assignment.Segments.Evaluation.Race.{written-members, written-deltas, written-segments}

there :
    (rows : List Segment) (id : String) (s : Segment)
    → find_segment_row rows id ≡ some s
    → has (segment_ids rows) id ≡ true
there rows id s found =
    subst (λ x. has (segment_ids rows) x ≡ true) (find_segment_row-id rows id s found)
      (has-find (λ u. u.id == id) rows s found)

module _ ⦃prisma : Prisma⦄ ⦃text : DecimalText⦄ {now : ℤ} {s : Segment} {r : EvaluationResult}
    {t t' : Tables} (done : Evaluated now s r t t') where
  -- What a pass does to the members of its segment, the rows that it adds to the log say.
  replay-Evaluated :
      (id c : String)
      → is_in t id c ≡ replay t.deltas id c false
      → is_in t' id c ≡ replay t'.deltas id c false
  replay-Evaluated id c was = rw done.deltas (
      ground (
        arith,
        done.members id c,
        replay-pass t.deltas s.id r.batch_id r.added r.removed id c,
        done.added c,
        done.removed c,
        eq_iff s.id id,
      ))

  replay-other :
      (id c : String)
      → (s.id == id) ≡ false
      → replay t'.deltas id c false ≡ replay t.deltas id c false
  replay-other id c other =
      rw done.deltas
        (replay-pass t.deltas s.id r.batch_id r.added r.removed id c ∙ rw other (ground arith))

IsRecorded-inserted :
    (s : Segment) (t : Tables)
    → has (segment_ids t.segments) s.id ≡ false
    → IsRecorded t
    → IsRecorded (record t { segments = t.segments ++ s ∷ [] })
IsRecorded-inserted s t fresh h = record {
  recorded = λ id c u found d. elim (Bool-cases (s.id == id)) [
    | inl same ↦
        let gone : has (segment_ids t.segments) id ≡ false = ground (arith, eq_iff s.id id) in
        h.nobody id c gone ∙ sym (h.nothing id c gone)
    | inr other ↦ h.recorded id c u (rw (find-append_other t.segments s id other) at found) d
  ];
  nobody = λ id c gone. h.nobody id c (ground (arith, has-ids-snoc t.segments s id));
  nothing = λ id c gone. h.nothing id c (ground (arith, has-ids-snoc t.segments s id));
}

IsRecorded-joined :
    (s : Segment) (cs : List String) (t : Tables)
    → find_segment_row t.segments s.id ≡ some s
    → s.type ≡ static
    → IsRecorded t
    → IsRecorded (record t { members = insert_members s.id cs t.members })
IsRecorded-joined s cs t found fixed h = record {
  recorded = λ id c u row d. elim (Bool-cases (s.id == id)) [
    | inl same ↦
        let here : find_segment_row t.segments s.id ≡ some u =
          subst (λ x. find_segment_row t.segments x ≡ some u) (sym ((eq_iff s.id id).0 same)) row in
        absurd (
          true_not_false (sym d ∙ ap is_dynamic (some-injective _ _ (sym here ∙ found)) ∙ rw fixed))
    | inr other ↦ ground (arith, has-insert_members s.id cs t.members id c, h.recorded id c u row d)
  ];
  nobody = λ id c gone. ground (
    arith,
    has-insert_members s.id cs t.members id c,
    h.nobody id c gone,
    eq_iff s.id id,
    there t.segments s.id s found,
  );
  nothing = h.nothing;
}

IsRecorded-replaced :
    (s u : Segment) (t : Tables)
    → find_segment_row t.segments s.id ≡ some u
    → s.type ≡ u.type
    → IsRecorded t
    → IsRecorded (record t { segments = replace_row s t.segments })
IsRecorded-replaced s u t found typed h = record {
  recorded = λ id c v row d. elim (Bool-cases (s.id == id)) [
    | inl same ↦
        let own : id ≡ s.id = sym ((eq_iff s.id id).0 same) in
        let here : find_segment_row (replace_row s t.segments) s.id ≡ some v =
          subst (λ x. find_segment_row (replace_row s t.segments) x ≡ some v) own row in
        let now_s : v ≡ s =
          some-injective _ _ (sym here ∙ find-replace_row_same s u t.segments found) in
        let kind : is_dynamic u ≡ is_dynamic s = rw typed in
        let was : is_in t s.id c ≡ replay t.deltas s.id c false =
          h.recorded s.id c u found (kind ∙ ap is_dynamic (sym now_s) ∙ d) in
        subst (λ x. is_in t x c ≡ replay t.deltas x c false) (sym own) was
    | inr other ↦ h.recorded id c v (rw (find-replaced_other s t.segments id other) at row) d
  ];
  nobody = λ id c gone. h.nobody id c (rw (ids-replace_row s t.segments) at gone);
  nothing = λ id c gone. h.nothing id c (rw (ids-replace_row s t.segments) at gone);
}

IsRecorded-deleted :
    (id : String) (t : Tables)
    → IsRecorded t
    → IsRecorded (record t {
      segments = filter (λ s. not (s.id == id)) t.segments;
      members = filter (λ m. not (m.segment_id == id)) t.members;
      deltas = filter (λ d. not (d.segment_id == id)) t.deltas;
      dependencies = filter (λ d. not (d.parent_id == id || d.child_id == id)) t.dependencies;
    })
IsRecorded-deleted id t h = record {
  recorded = λ j c u row d.
      let (found, other) = find-filtered t.segments id j u row in
      ground (
        arith,
        members_of-deleted id t.members j c,
        replay-deleted id t.deltas j c false,
        h.recorded j c u found d,
      );
  nobody = λ j c gone.
      ground
        (arith, members_of-deleted id t.members j c, has-filter_ids t.segments id j, h.nobody j c);
  nothing = λ j c gone.
      ground (
        arith,
        replay-deleted id t.deltas j c false,
        has-filter_ids t.segments id j,
        h.nothing j c,
      );
}

IsRecorded-same : (t u : Tables) → SameSegments t u → IsRecorded t → IsRecorded u
IsRecorded-same t u same h = record {
  recorded = λ id c s found d.
      rw (same.members, same.deltas) (h.recorded id c s (rw same.segments at found) d);
  nobody = λ id c gone. rw same.members (h.nobody id c (rw same.segments at gone));
  nothing = λ id c gone. rw same.deltas (h.nothing id c (rw same.segments at gone));
}

module _ ⦃prisma : Prisma⦄ ⦃text : DecimalText⦄ where
  IsRecorded-evaluated :
      (now : ℤ) (batch_id id : String) (force : Bool) (t : Tables)
      → IsRecorded t
      → IsRecorded (evaluate_segment now batch_id id force t).1
  IsRecorded-evaluated now batch_id id force t h =
      elim (evaluate_segment_atomic now batch_id id force t) [
        | inl (e, failed) ↦ rw failed h
        | inr (s, r, t', found, ran, done) ↦
            let own : has (segment_ids t.segments) s.id ≡ true =
              has-find (λ u. u.id == id) t.segments s found in
            rw ran (record {
              recorded = λ j c u row d.
                  replay-Evaluated done j c (h.recorded j c u (rw done.segments at row) d);
              nobody = λ j c gone.
                  let away : has (segment_ids t.segments) j ≡ false = rw done.segments at gone in
                  ground (arith, done.members j c, h.nobody j c away, eq_iff s.id j);
              nothing = λ j c gone.
                  let away : has (segment_ids t.segments) j ≡ false = rw done.segments at gone in
                  replay-other done j c (ground (arith, eq_iff s.id j)) ∙ h.nothing j c away;
            })
      ]

  IsRecorded-IsKept : IsKept IsRecorded
  IsRecorded-IsKept = record {
    by_evaluate = IsRecorded-evaluated;
    by_written = λ s batch_id added removed t found h.
        let here : has (segment_ids t.segments) s.id ≡ true = there t.segments s.id s found in
        let rows = written-segments s batch_id added removed t in
        record {
          recorded = λ j c u row d. rw (written-deltas s.id s.name batch_id added removed t) (
              written-members s.id s.name batch_id added removed t j c
              ∙ ap (λ b. (b || s.id == j && has added c) && not (s.id == j && has removed c))
                  (h.recorded j c u (rw rows.0 at row) d)
              ∙ sym (replay-pass t.deltas s.id batch_id added removed j c));
          nobody = λ j c gone.
              let away : has (segment_ids t.segments) j ≡ false = rw rows.0 at gone in
              ground (
                arith,
                written-members s.id s.name batch_id added removed t j c,
                h.nobody j c away,
                eq_iff s.id j,
              );
          nothing = λ j c gone.
              let away : has (segment_ids t.segments) j ≡ false = rw rows.0 at gone in
              rw (written-deltas s.id s.name batch_id added removed t) (
                replay-pass t.deltas s.id batch_id added removed j c
                ∙ ground (arith, h.nothing j c away, eq_iff s.id j));
        };
    by_rewire = λ s t h. record { recorded = h.recorded; nobody = h.nobody; nothing = h.nothing };
    by_insert = IsRecorded-inserted;
    by_join = IsRecorded-joined;
    by_replace = IsRecorded-replaced;
    by_delete = IsRecorded-deleted;
    by_same = IsRecorded-same;
  }

module _ ⦃prisma : Prisma⦄ ⦃text : DecimalText⦄ ⦃redis : Redis⦄ where
  -- In every state that the service can reach from tables whose history is in order, the history is
  -- in order: for each dynamic segment and each customer, the table of members says the same as the
  -- rows of `SegmentDelta` replayed from the first to the last, and a segment that does not exist has
  -- neither members nor a history.
  pub Reaches-IsRecorded :
      (s s' : ChangeBuffer) → IsRecorded s.tables → Reaches s s' → IsRecorded s'.tables
  Reaches-IsRecorded s s' h reached = Reaches-keeps IsRecorded IsRecorded-IsKept s s' h reached
