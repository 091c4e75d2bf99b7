-- ===== src/Database/MemberLaws.antt =====
-- Inserts and deletes of membership rows, as a reader of one segment sees them.
use mathlib.Core.List.{append-nil}
use optio_ai_assignment.Prelude.{
  Bool, false, String, not, ◌&&◌, ◌||◌, ◌≡◌, refl, List, [], ◌∷◌, ◌++◌, has, distinct, ◌==◌, eq_iff,
  arith, filter, true, distinct-snoc,
}
use optio_ai_assignment.Database.{SegmentMember}
use optio_ai_assignment.Database.Views.{members_of, insert_member, insert_members, delete_members}

members_of-append :
    (xs ys : List SegmentMember) (j c : String)
    → has (members_of (xs ++ ys) j) c ≡ (has (members_of xs j) c || has (members_of ys j) c)
unfolding members_of has
members_of-append [] ys j c = refl
members_of-append (m ∷ xs) ys j c = ground (arith, members_of-append xs ys j c)

has-insert_one :
    (id c' : String) (rows : List SegmentMember) (j c : String)
    → has (members_of (insert_member id c' rows) j) c
      ≡ (has (members_of rows j) c || id == j && c' == c)
unfolding insert_member members_of has
has-insert_one id c' rows j c = ground (
  arith,
  members_of-append rows (record { segment_id = id; customer_id = c' } ∷ []) j c,
  eq_iff id j,
  eq_iff c' c,
)

-- After the insert the listed customers are members of the segment, and nothing else changed.
pub has-insert_members :
    (id : String) (cs : List String) (rows : List SegmentMember) (j c : String)
    → has (members_of (insert_members id cs rows) j) c
      ≡ (has (members_of rows j) c || id == j && has cs c)
unfolding insert_members has
has-insert_members id [] rows j c = ground arith
has-insert_members id (c' ∷ cs) rows j c =
    ground (
      arith,
      has-insert_members id cs (insert_member id c' rows) j c,
      has-insert_one id c' rows j c,
    )

-- After the delete the listed customers are no members of the segment, and nothing else changed.
pub has-delete_members :
    (id : String) (cs : List String) (rows : List SegmentMember) (j c : String)
    → has (members_of (delete_members id cs rows) j) c
      ≡ (has (members_of rows j) c && not (id == j && has cs c))
unfolding delete_members members_of has
has-delete_members id cs [] j c = refl
has-delete_members id cs (m ∷ rows) j c = ground (
  arith,
  has-delete_members id cs rows j c,
  eq_iff m.segment_id id,
  eq_iff m.segment_id j,
  eq_iff id j,
  eq_iff m.customer_id c,
)

members_of-concat :
    (xs ys : List SegmentMember) (j : String)
    → members_of (xs ++ ys) j ≡ members_of xs j ++ members_of ys j
unfolding members_of
members_of-concat [] ys j = refl
members_of-concat (m ∷ xs) ys j = ground (arith, members_of-concat xs ys j)

distinct-insert_one :
    (id c : String) (rows : List SegmentMember) (j : String)
    → distinct (members_of rows j) ≡ true
    → distinct (members_of (insert_member id c rows) j) ≡ true
unfolding insert_member members_of
distinct-insert_one id c rows j d =
    let added = members_of-concat rows (record { segment_id = id; customer_id = c } ∷ []) j in
    ground (
      arith,
      added,
      append-nil (members_of rows j),
      distinct-snoc (members_of rows j) c,
      eq_iff id j,
    )

-- Inserts that skip duplicates keep the members of a segment without repetition.
pub distinct-insert_members :
    (id : String) (cs : List String) (rows : List SegmentMember) (j : String)
    → distinct (members_of rows j) ≡ true
    → distinct (members_of (insert_members id cs rows) j) ≡ true
unfolding insert_members
distinct-insert_members id [] rows j d = d
distinct-insert_members id (c ∷ cs) rows j d =
    distinct-insert_members id cs (insert_member id c rows) j (distinct-insert_one id c rows j d)

fewer :
    (p : SegmentMember → Bool) (rows : List SegmentMember) (j c : String)
    → has (members_of rows j) c ≡ false
    → has (members_of (filter p rows) j) c ≡ false
unfolding members_of has
fewer p [] j c h = refl
fewer p (m ∷ rows) j c h = ground (arith, fewer p rows j c)

-- So does every delete: the members that stay are some of those that were there.
pub distinct-filter_members :
    (p : SegmentMember → Bool) (rows : List SegmentMember) (j : String)
    → distinct (members_of rows j) ≡ true
    → distinct (members_of (filter p rows) j) ≡ true
unfolding members_of distinct
distinct-filter_members p [] j d = refl
distinct-filter_members p (m ∷ rows) j d =
    ground (arith, distinct-filter_members p rows j, fewer p rows j m.customer_id)
