-- ===== src/Web/SegmentDetail/Refresh.antt =====
-- The refresh of a segment by hand, from the button of the detail page to the tables and back.
use optio_ai_assignment.Prelude.{
  String, true, false, ◌≡◌, refl, sym, ap, subst, ◌∙◌, none, some, List, length, distinct, ◌==◌,
  arith,
}
use optio_ai_assignment.Prelude.Int.{pos}
use optio_ai_assignment.Shared.Result.{Result, ok, err}
use optio_ai_assignment.Database.{Segment, Tables}
use optio_ai_assignment.Database.Views.{members_of, find_segment_row}
use optio_ai_assignment.Database.Prisma.{Prisma}
use optio_ai_assignment.Segments.Metrics.{DecimalText}
use optio_ai_assignment.Segments.Evaluator.Meaning.{refers}
use optio_ai_assignment.Segments.Dependency.Edges.{ParentsExist}
use optio_ai_assignment.Segments.Evaluation.{EvaluationResult}
use optio_ai_assignment.Segments.Evaluation.Contract.{evaluate_segment-Evaluated}
use optio_ai_assignment.Segments.Order.Finding.{find_segment_row-id}
use optio_ai_assignment.Segments.Rebuild.{Surroundings}
use optio_ai_assignment.Api.Segments
use optio_ai_assignment.Api.Segments.{SegmentDetail, detail}
use optio_ai_assignment.Api.Segments.Creating.{detail-found}
use optio_ai_assignment.Api.Listing
use optio_ai_assignment.Api.Listing.{MemberRow, DeltaRow, deltas}
use optio_ai_assignment.Web.SegmentDetail.{
  ShownSegment, Answer, answered, refused, DetailPage, Server, page_size, load_members, load,
  force_refresh,
}

abbrev shown_detail : Result SegmentDetail → Answer ShownSegment
shown_detail (ok d) = answered (record { name = d.name; member_count = pos d.member_count })
shown_detail (err e) = refused none

abbrev pub to_answer : Result EvaluationResult → Answer (Unit {0})
to_answer (ok r) = answered tt
to_answer (err e) = refused none

-- What the page is after a successful refresh.
abbrev refreshed_page : Server → ShownSegment → DetailPage → DetailPage
refreshed_page server d p = record p {
  segment = some d;
  deltas = server.deltas;
  members_page = some (server.members page_size p.offset);
  loading = false;
  refreshing = false;
  error = none;
}

force_refresh-answered :
    (server : Server) (d : ShownSegment) (p : DetailPage)
    → (p.id == "") ≡ false
    → server.detail ≡ answered d
    → force_refresh (answered tt) server p ≡ refreshed_page server d p
unfolding force_refresh load load_members
force_refresh-answered server d p named there = rw (named, there, named)

module _ ⦃prisma : Prisma⦄ (by_name : List MemberRow → List MemberRow)
    (recent : Tables → String → List DeltaRow) where
  -- The endpoints over some tables, as the detail page of one segment meets them.
  abbrev pub server_of : Tables → String → Server
  server_of t id = record {
    members = λ l o.
        let page = Listing.members by_name id (some (pos l)) (some (pos o)) t in
        record { total = page.total; limit = page.limit; offset = page.offset };
    detail = shown_detail (detail id t).0;
    deltas = deltas recent id none t;
  }

  -- A press on the refresh button of a segment, static or dynamic, whose rule refers only to other
  -- segments that exist, shows what the evaluation made: the endpoint returns a result, and the page
  -- then shows the name and the number of members that the result has, in the header and as the total
  -- of the member list, and is neither loading nor refreshing nor in error. Before it no customer
  -- stands twice in the segment.
  pub force_refresh_shows :
      ⦃text : DecimalText⦄ (env : Surroundings) (t : Tables) (s : Segment) (p : DetailPage)
      → find_segment_row t.segments p.id ≡ some s
      → (p.id == "") ≡ false
      → refers s.rule s.id ≡ false
      → ParentsExist s.rule t
      → distinct (members_of t.members p.id) ≡ true
      → (r : EvaluationResult) × (t' : Tables) × (p' : DetailPage) × (Segments.evaluate env p.id
            true t
          ≡ (ok r, t'))
        × (force_refresh (to_answer (Segments.evaluate env p.id true t).0) (server_of t' p.id) p
            ≡ p')
        × (p'.segment ≡ some (record { name = s.name; member_count = pos r.total_members }))
        × (p'.members_page ≡ some ((server_of t' p.id).members page_size p.offset))
        × (((server_of t' p.id).members page_size p.offset).total ≡ r.total_members)
        × (p'.loading ≡ false)
        × (p'.refreshing ≡ false)
        × (p'.error ≡ none)
  unfolding Segments.evaluate force_refresh load load_members Listing.members
  force_refresh_shows env t s p found named no_self exist unique =
      let own : s.id ≡ p.id = find_segment_row-id t.segments p.id s found in
      let (r, t', ran, meets, _) =
        evaluate_segment-Evaluated (env.now p.id) (env.batch_id p.id) p.id true s t found
          (ground arith) no_self exist in
      let total : r.total_members ≡ length (members_of t'.members p.id) =
        subst (λ x. r.total_members ≡ length (members_of t'.members x)) own
          (meets.total (subst (λ x. distinct (members_of t.members x) ≡ true) (sym own) unique)) in
      let seen = detail-found t' p.id s (rw meets.segments found) in
      let d : ShownSegment = record {
        name = s.name;
        member_count = pos (length (prisma.find_members t' s.id));
      } in
      let counted : length (prisma.find_members t' s.id) ≡ r.total_members =
        ap length (prisma.find_members_lem t' s.id)
        ∙ ap (λ x. length (members_of t'.members x)) own
        ∙ sym total in
      (
        r,
        t',
        refreshed_page (server_of t' p.id) d p,
        rw ran,
        rw ran (force_refresh-answered (server_of t' p.id) d p named (rw seen)),
        rw counted,
        refl,
        sym total,
        refl,
        refl,
        refl,
      )
