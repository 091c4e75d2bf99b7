-- ===== src/Web/SegmentDetail/Paging.antt =====
-- The pager of the detail page.
use optio_ai_assignment.Prelude.{
  ℕ, ◌+◌, ◌-◌, ◌<◌, true, false, ◌≡◌, sym, ap, some, ltb, ◌==◌, arith,
}
use optio_ai_assignment.Web.SegmentDetail.{
  page_size, DetailPage, Server, load_members, members_upper, has_next_page, next_page, prev_page,
}

-- The page that is shown is the one that the server gave for the offset.
abbrev pub IsLoaded : Server → DetailPage → Type 0
IsLoaded server p = p.members_page ≡ some (server.members page_size p.offset)

-- The server repeats the limit and the offset, and has the same number of members for every page.
pub record Answers (server : Server) (total : ℕ) : Type 0 where
  pub total_lem : (l o : ℕ) → (server.members l o).total ≡ total
  pub limit_lem : (l o : ℕ) → (server.members l o).limit ≡ l
  pub offset_lem : (l o : ℕ) → (server.members l o).offset ≡ o

-- If there is a next page, turning to it shows rows that the page before did not show: it begins
-- where that one ended, before the last row. Turning back leads to the state before.
pub next_page-rows :
    (server : Server) (total : ℕ) (p : DetailPage)
    → Answers server total
    → (p.id == "") ≡ false
    → IsLoaded server p
    → has_next_page p ≡ true
    → ((next_page server p).offset ≡ members_upper p)
      × ((next_page server p).offset < members_upper (next_page server p))
      × (prev_page server (next_page server p) ≡ p)
unfolding next_page prev_page load_members members_upper has_next_page
next_page-rows server total p answers named loaded more =
    let t = answers.total_lem page_size p.offset in
    let l = answers.limit_lem page_size p.offset in
    let o = answers.offset_lem page_size p.offset in
    let t' = answers.total_lem page_size (p.offset + page_size) in
    let l' = answers.limit_lem page_size (p.offset + page_size) in
    let o' = answers.offset_lem page_size (p.offset + page_size) in
    let room : ltb (p.offset + page_size) total ≡ true = (rw (loaded, t, l, o) at more) in
    let back : p.offset + page_size - page_size ≡ p.offset = omega arith in
    (
      rw (named, loaded, t, l, o) (ground (arith, room)),
      rw (named, t', l', o') (ground (arith, room)),
      rw (named, named, back) (ap (λ m. record p { members_page = m }) (sym loaded)),
    )
