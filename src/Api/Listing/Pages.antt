-- ===== src/Api/Listing/Pages.antt =====
-- Paging through the members.
use optio_ai_assignment.Prelude.{
  has, find, sum_of, true, eq_iff, ◌==◌, if◌then◌else◌, Bool-cases, inl, inr, ℕ, zero, suc, ◌+◌,
  ◌*◌, ◌≤◌, String, ◌≡◌, refl, sym, ap, ◌∙◌, Option, some, List, [], ◌∷◌, ◌++◌, take, drop, length,
  arith,
}
use optio_ai_assignment.Prelude.Int.{ℤ, pos}
use optio_ai_assignment.Database.{Customer, Tables}
use optio_ai_assignment.Database.Views.{members_of, customer_ids}
use optio_ai_assignment.Api.Listing.{page_limit, page_offset, MemberRow, joined, members}

-- Whatever the query says, the limit lies between 1 and 200.
pub page_limit-bounds : (parsed : Option ℤ) → (1 ≤ page_limit parsed) × (page_limit parsed ≤ 200)
unfolding page_limit
page_limit-bounds parsed = (omega arith, omega arith)

page_limit-given : (l : ℕ) → 1 ≤ l → l ≤ 200 → page_limit (some (pos l)) ≡ l
unfolding page_limit
page_limit-given zero h k = absurd (omega arith)
page_limit-given (suc l) h k = omega arith

page_offset-given : (o : ℕ) → page_offset (some (pos o)) ≡ o
unfolding page_offset
page_offset-given zero = refl
page_offset-given (suc o) = refl

module _ {ℓ} {A : Type ℓ} where
  drop-drop : (m n k : ℕ) (xs : List A) → k ≡ m + n → drop n (drop m xs) ≡ drop k xs
  drop-drop zero n k xs e = ap (λ j. drop j xs) (omega arith)
  drop-drop (suc m) n zero xs e = absurd (omega arith)
  drop-drop (suc m) n (suc k) (x ∷ xs) e = drop-drop m n k xs (omega arith)
  drop-drop (suc m) zero (suc k) [] e = refl
  drop-drop (suc m) (suc n) (suc k) [] e = refl

  take_all : (n : ℕ) (xs : List A) → length xs ≤ n → take n xs ≡ xs
  take_all zero [] h = refl
  take_all (suc n) [] h = refl
  take_all zero (x ∷ xs) h = absurd (omega arith)
  take_all (suc n) (x ∷ xs) h = ap (◌∷◌ x) (take_all n xs (omega arith))

  take-joined : (m n k : ℕ) (xs : List A) → k ≡ m + n → take m xs ++ take n (drop m xs) ≡ take k xs
  take-joined zero n k xs e = ap (λ j. take j xs) (omega arith)
  take-joined (suc m) n zero xs e = absurd (omega arith)
  take-joined (suc m) n (suc k) (x ∷ xs) e = ap (◌∷◌ x) (take-joined m n k xs (omega arith))
  take-joined (suc m) zero (suc k) [] e = refl
  take-joined (suc m) (suc n) (suc k) [] e = refl

-- The rows of the members of a segment, with their customers.
abbrev pub rows_in : Tables → String → List MemberRow
rows_in t id = joined t.customers (members_of t.members id)

-- The members on `n` pages behind one another, from an offset on.
unfoldable pub fetched :
    (List MemberRow → List MemberRow) → String → ℕ → Tables → ℕ → ℕ → List MemberRow
fetched by_name id l t zero o = []
fetched by_name id l t (suc n) o =
    (members by_name id (some (pos l)) (some (pos o)) t).members ++ fetched by_name id l t n (o + l)

fetched-take :
    (by_name : List MemberRow → List MemberRow) (id : String) (l : ℕ) (t : Tables) (n o : ℕ)
    → 1 ≤ l
    → l ≤ 200
    → fetched by_name id l t n o ≡ take (n * l) (drop o (by_name (rows_in t id)))
unfolding fetched members
fetched-take by_name id l t zero o h k =
    let none_left : 0 ≡ 0 * l = omega arith in
    ap (λ k. take k (drop o (by_name (rows_in t id)))) none_left
fetched-take by_name id l t (suc n) o h k =
    rw
      (
        page_limit-given l h k,
        page_offset-given o,
        fetched-take by_name id l t n (o + l) h k,
        sym (drop-drop o l (o + l) (by_name (rows_in t id)) refl),
      )
      (take-joined l (n * l) (suc n * l) (drop o (by_name (rows_in t id))) (omega arith))

-- An order: a rearrangement, which has each row as often.
pub record Rearranges (by_name : List MemberRow → List MemberRow) : Type 0 where
  pub same_length : (rows : List MemberRow) → length (by_name rows) ≡ length rows
  pub same_sum :
      (w : MemberRow → ℕ) (rows : List MemberRow) → sum_of w (by_name rows) ≡ sum_of w rows

-- How often a customer stands among rows, or among ids.
abbrev pub times : String → List MemberRow → ℕ
times c rows = sum_of (λ r. if r.customer_id == c then 1 else 0) rows

abbrev pub times_id : String → List String → ℕ
times_id c ids = sum_of (λ x. if x == c then 1 else 0) ids

found_customer :
    (customers : List Customer) (id : String)
    → has (customer_ids customers) id ≡ true
    → (c : Customer) × (find (λ c. c.id == id) customers ≡ some c) × (c.id ≡ id)
unfolding has
found_customer [] id h = absurd (ground arith)
found_customer (c ∷ customers) id h = elim (Bool-cases (c.id == id)) [
  | inl own ↦ (c, rw own, (eq_iff c.id id).0 own)
  | inr other ↦
      let (d, found, same) = found_customer customers id (ground (arith, eq_iff c.id id)) in
      (d, rw other found, same)
]

module _ (customers : List Customer) where
  joined-all :
      (ids : List String) (c : String)
      → ((x : String) → has ids x ≡ true → has (customer_ids customers) x ≡ true)
      → (length (joined customers ids) ≡ length ids)
        × (times c (joined customers ids) ≡ times_id c ids)
  unfolding joined has
  joined-all [] c there = (refl, refl)
  joined-all (id ∷ ids) c there =
      let (d, found, same) =
        found_customer customers id (there id (ground (arith, eq_iff id id))) in
      let (n, m) = joined-all ids c (λ x h. there x (ground arith)) in
      rw (found, same) (omega (arith, n), omega (arith, m))

-- Pages of one limit between 1 and 200, fetched behind one another from offset 0 with no change in
-- between, give the rows of the members of the segment in their order, and every customer as often as
-- the customer is a member, as soon as pages times limit reach the total that a page reports. Each
-- member has a customer row, and every query orders the rows in the same way, also rows of one name.
pub members_pages :
    (by_name : List MemberRow → List MemberRow) (id : String) (l : ℕ) (t : Tables) (n : ℕ)
    → Rearranges by_name
    → ((x : String)
        → has (members_of t.members id) x ≡ true
        → has (customer_ids t.customers) x ≡ true)
    → 1 ≤ l
    → l ≤ 200
    → (members by_name id (some (pos l)) (some (pos 0)) t).total ≤ n * l
    → (fetched by_name id l t n 0 ≡ by_name (rows_in t id))
      × ((c : String) → times c (fetched by_name id l t n 0) ≡ times_id c (members_of t.members id))
unfolding members
members_pages by_name id l t n order there h k enough =
    let few : length (by_name (rows_in t id)) ≤ n * l = omega (
      arith,
      enough,
      order.same_length (rows_in t id),
      (joined-all t.customers (members_of t.members id) "" there).0,
    ) in
    let all_rows : fetched by_name id l t n 0 ≡ by_name (rows_in t id) =
      fetched-take by_name id l t n 0 h k ∙ take_all (n * l) (by_name (rows_in t id)) few in
    (
      all_rows,
      λ c.
          ap (times c) all_rows
          ∙ order.same_sum (λ r. if r.customer_id == c then 1 else 0) (rows_in t id)
          ∙ (joined-all t.customers (members_of t.members id) c there).1,
    )
