-- ===== src/Segments/Rebuild/Convergence.antt =====
-- After a rebuild every dynamic segment has the members that its rule asks for.
use mathlib.Core.Option.{some-injective}
use optio_ai_assignment.Prelude.{
  ℕ, String, Bool, true, false, ◌||◌, ◌≡◌, refl, sym, ap, subst, ◌∙◌, some, List, [], ◌∷◌, filter,
  has, add, distinct, ◌==◌, eq_iff, arith, if◌then◌else◌, Bool-cases, inl, inr, has-add,
}
use optio_ai_assignment.Shared.Result.{ok}
use optio_ai_assignment.Database.{Segment, Tables}
use optio_ai_assignment.Database.Views.{is_dynamic, segment_ids, find_segment_row}
use optio_ai_assignment.Database.Prisma.{Prisma}
use optio_ai_assignment.Segments.Metrics.{DecimalText}
use optio_ai_assignment.Segments.Evaluator.Meaning.{refers}
use optio_ai_assignment.Segments.Dependency.Edges.{ParentsExist}
use optio_ai_assignment.Segments.Evaluation.{EvaluationResult, is_refused}
use optio_ai_assignment.Segments.Evaluation.Pass.{is_in}
use optio_ai_assignment.Segments.Evaluation.Contract.{Evaluated, evaluate_segment-Evaluated}
use optio_ai_assignment.Segments.Evaluation.Sync.{InSync, Evaluated-InSync, Evaluated-keeps}
use optio_ai_assignment.Segments.Order.Finding.{
  has-find, find_segment_row-id, find_segment_row-filter, distinct-filter_rows,
}
use optio_ai_assignment.Segments.Order.Sound.{ParentsDone, IsOrdered, topo_sort-IsOrdered}
use optio_ai_assignment.Segments.Order.Cover.{IsOrdered-cover, IsOrdered-subset}
use optio_ai_assignment.Segments.Order.Complete.{IsRanked, topo_sort-total}
use optio_ai_assignment.Segments.Rebuild.{Surroundings, evaluate_in_order, rebuild_all_dynamic}

-- A row that a pass can be run over: found by its id, dynamic, and its rule fit.
pub record IsFit (t : Tables) (s : Segment) : Type 0 where
  pub found : find_segment_row t.segments s.id ≡ some s
  pub dynamic_type : is_dynamic s ≡ true
  pub no_self : refers s.rule s.id ≡ false
  pub parents : ParentsExist s.rule t

allowed_of_dynamic : (s : Segment) → is_dynamic s ≡ true → is_refused s false ≡ false
allowed_of_dynamic s h = ground arith

IsFit-transfer : {t u : Tables} {s : Segment} → u.segments ≡ t.segments → IsFit t s → IsFit u s
IsFit-transfer e fit = record {
  found = rw e fit.found;
  dynamic_type = fit.dynamic_type;
  no_self = fit.no_self;
  parents = λ p r. rw e (fit.parents p r);
}

module _ ⦃prisma : Prisma⦄ ⦃text : DecimalText⦄ (env : Surroundings) (batch : List Segment) where
  -- Each segment of the batch whose id passes the test is in sync, and so are its parents done.
  abbrev pub Settled : (String → Bool) → Tables → Type 0
  Settled done t =
      (id : String) (s : Segment)
      → find_segment_row batch id ≡ some s
      → done id ≡ true
      → InSync (env.now s.id) t s
        × ((p : String) → refers s.rule p ≡ true → has (segment_ids batch) p ≡ true → done p ≡ true)

  -- One pass settles its segment and keeps the settled ones.
  Settled-step :
      (done : List String) (s : Segment) {r : EvaluationResult} {t t' : Tables}
      → Evaluated (env.now s.id) s r t t'
      → find_segment_row batch s.id ≡ some s
      → refers s.rule s.id ≡ false
      → has done s.id ≡ false
      → ParentsDone batch done s
      → Settled (has done) t
      → Settled (has (add done s.id)) t'
  Settled-step done s {t = t} {t' = t'} meets found no_self fresh parents settled id u there done' =
      elim (Bool-cases (s.id == id)) [
        | inl here ↦
            let e : s ≡ u = some-injective s u (
              sym found
              ∙ subst (λ x. find_segment_row batch x ≡ some u) (sym ((eq_iff s.id id).0 here))
                  there) in
            subst (λ x. InSync (env.now x.id) t' x × Later x) e
              (
                Evaluated-InSync meets no_self,
                λ p r m. ground (arith, parents p r m, has-add done s.id p),
              )
        | inr other ↦
            let before : has done id ≡ true = ground (arith, has-add done s.id id) in
            let (sync, ups) = settled id u there before in
            let same : u.id ≡ id = find_segment_row-id batch id u there in
            (
              Evaluated-keeps meets (env.now u.id) u (λ q. ground (arith, eq_iff s.id id))
                  (apart u ups) sync,
              λ p r m. ground (arith, ups p r m, has-add done s.id p),
            )
      ]
    where
      Later : Segment → Type 0
      Later x =
          (p : String)
          → refers x.rule p ≡ true
          → has (segment_ids batch) p ≡ true
          → has (add done s.id) p ≡ true

      apart :
          (u : Segment)
          → ((p : String)
              → refers u.rule p ≡ true
              → has (segment_ids batch) p ≡ true
              → has done p ≡ true)
          → refers u.rule s.id ≡ false
      apart u ups = elim (Bool-cases (refers u.rule s.id)) [
        | inr no' ↦ no'
        | inl does ↦
            absurd (ground (arith, ups s.id does (has-find (λ x. x.id == s.id) batch s found)))
      ]

  -- The loop over an ordered list does not throw, settles the list, and moves no other members.
  pub evaluate_in_order-Settled :
      (done : List String) (rest : List Segment) (t : Tables)
      → IsOrdered batch done rest
      → ((id : String) (s : Segment) → find_segment_row batch id ≡ some s → IsFit t s)
      → Settled (has done) t
      → (results : List EvaluationResult) × (t' : Tables) × (evaluate_in_order env rest t
          ≡ (ok results, t'))
        × Settled (λ id. has done id || has (segment_ids rest) id) t'
        × (t'.segments ≡ t.segments)
        × ((id c : String) → has (segment_ids rest) id ≡ false → is_in t' id c ≡ is_in t id c)
  unfolding evaluate_in_order has
  evaluate_in_order-Settled done [] t ordered fit settled = (
    [],
    t,
    refl,
    (λ id s found h.
        let (sync, ups) = settled id s found (ground arith) in
        (sync, λ p r m. ground (arith, ups p r m))),
    refl,
    (λ id c h. refl),
  )
  evaluate_in_order-Settled done (s ∷ rest) t (found, fresh, parents, later) fit settled =
      let here = fit s.id s found in
      let (r, t1, ran, meets, _) =
        evaluate_segment-Evaluated (env.now s.id) (env.batch_id s.id) s.id false s t here.found
          (allowed_of_dynamic s here.dynamic_type) here.no_self here.parents in
      let (rs, t2, ran', settled', segments', others) =
        evaluate_in_order-Settled (add done s.id) rest t1 later
          (λ id u k. IsFit-transfer meets.segments (fit id u k))
          (Settled-step done s meets found here.no_self fresh parents settled) in
      (
        r ∷ rs,
        t2,
        rw (ran, ran'),
        (λ id u k h.
            let (sync, ups) = settled' id u k (ground (arith, has-add done s.id id)) in
            (sync, λ p q m. ground (arith, ups p q m, has-add done s.id p))),
        segments' ∙ meets.segments,
        (λ id c h. others id c (ground arith) ∙ ground (arith, meets.members id c)),
      )

module _ ⦃text : DecimalText⦄ where
  -- Each segment of the list has the members that satisfy its rule.
  abbrev pub AllInSync : Surroundings → Tables → List Segment → Type 0
  AllInSync env t [] = Unit
  AllInSync env t (s ∷ rest) = InSync (env.now s.id) t s × AllInSync env t rest

  pub AllInSync-intro :
      (env : Surroundings) (t : Tables) (rows : List Segment)
      → distinct (segment_ids rows) ≡ true
      → ((id : String) (s : Segment)
          → find_segment_row rows id ≡ some s
          → InSync (env.now s.id) t s)
      → AllInSync env t rows
  unfolding distinct
  AllInSync-intro env t [] d h = tt
  AllInSync-intro env t (s ∷ rows) d h = (
    h s.id s (ground (arith, eq_iff s.id s.id)),
    AllInSync-intro env t rows (ground arith) (λ id u k. h id u (
        ground (
          arith,
          eq_iff s.id id,
          has-find (λ x. x.id == id) rows u k,
          find_segment_row-id rows id u k,
          k,
        ))),
  )

-- A dynamic segment of the table can be evaluated: its rule refers only to segments that are there.
abbrev pub DynamicParentsExist : Tables → Type 0
DynamicParentsExist t =
    (id : String) (s : Segment)
    → find_segment_row (filter is_dynamic t.segments) id ≡ some s
    → ParentsExist s.rule t

pub in_table :
    (rows : List Segment) (id : String) (s : Segment)
    → find_segment_row rows id ≡ some s
    → has (segment_ids rows) id ≡ true
in_table rows id s found =
    subst (λ x. has (segment_ids rows) x ≡ true) (find_segment_row-id rows id s found)
      (has-find (λ x. x.id == id) rows s found)

IsFit-of_ranked :
    (rank : String → ℕ) (t : Tables)
    → distinct (segment_ids t.segments) ≡ true
    → IsRanked rank (filter is_dynamic t.segments)
    → DynamicParentsExist t
    → (id : String) (s : Segment) → find_segment_row (filter is_dynamic t.segments) id ≡ some s
    → IsFit t s
IsFit-of_ranked rank t d ranked exist id s found =
    let (row, good) = find_segment_row-filter is_dynamic t.segments id s d found in
    let same : s.id ≡ id = find_segment_row-id t.segments id s row in
    record {
      found = subst (λ x. find_segment_row t.segments x ≡ some s) (sym same) row;
      dynamic_type = good;
      no_self = elim (Bool-cases (refers s.rule s.id)) [
        | inr other ↦ other
        | inl self ↦ absurd (
            omega (
              arith,
              ap rank same,
              ranked id s s.id found self
                  (rw same (in_table (filter is_dynamic t.segments) id s found)),
            ))
      ];
      parents = exist id s found;
    }

module _ ⦃prisma : Prisma⦄ ⦃text : DecimalText⦄ where
  -- If the references among the dynamic segments have no cycle and lead to segments that are there,
  -- the rebuild does not throw; after it every dynamic segment has exactly the members that satisfy
  -- its rule, by the memberships after the rebuild, and the members of all other segments are as
  -- they were.
  pub rebuild_all_dynamic-AllInSync :
      (env : Surroundings) (rank : String → ℕ) (t : Tables)
      → distinct (segment_ids t.segments) ≡ true
      → IsRanked rank (filter is_dynamic t.segments)
      → DynamicParentsExist t
      → (results : List EvaluationResult) × (t' : Tables) × (rebuild_all_dynamic env t
          ≡ (ok results, t'))
        × AllInSync env t' (filter is_dynamic t.segments)
        × (t'.segments ≡ t.segments)
        × ((id c : String)
            → is_in t' id c ≡ (
                if has (segment_ids (filter is_dynamic t.segments)) id
                then is_in t' id c
                else is_in t id c))
  unfolding rebuild_all_dynamic has
  rebuild_all_dynamic-AllInSync env rank t d ranked exist =
      let batch : List Segment = filter is_dynamic t.segments in
      let d' : distinct (segment_ids batch) ≡ true = distinct-filter_rows is_dynamic t.segments d in
      let (ordered, sorted) = topo_sort-total rank batch d' ranked in
      let (is_ordered, n) = topo_sort-IsOrdered batch ordered d' sorted in
      let (results, t', ran, settled, segments, others) =
        evaluate_in_order-Settled env batch [] ordered t is_ordered
          (IsFit-of_ranked rank t d ranked exist) (λ id s found h. absurd (ground arith)) in
      (
        results,
        t',
        rw (prisma.find_dynamic_lem t, sorted) ran,
        AllInSync-intro env t' batch d' (λ id s found.
            (settled id s found
              (IsOrdered-cover batch ordered id is_ordered n (in_table batch id s found))).0),
        segments,
        (λ id c. elim (Bool-cases (has (segment_ids batch) id)) [
          | inl inside ↦ rw inside
          | inr outside ↦
              rw outside
                (others id c (ground (arith, IsOrdered-subset batch [] ordered id is_ordered)))
        ]),
      )
