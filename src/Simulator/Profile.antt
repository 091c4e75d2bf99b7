-- ===== src/Simulator/Profile.antt =====
-- The profile patch: what it merges, and that no segment can notice it.
use optio_ai_assignment.Prelude.{
  String, true, false, ◌≡◌, refl, subst, ◌∙◌, Option, none, some, List, [], ◌∷◌, has,
  has-to_set_onto, find, ◌==◌, eq_iff, arith, if◌then◌else◌, Bool-cases, inl, inr,
}
use optio_ai_assignment.Prelude.Int.{ℤ}
use optio_ai_assignment.Shared.Json.{Json, Fields, no_fields, entry, field, set_field, spread}
use optio_ai_assignment.Shared.Rule.{SegmentRule}
use optio_ai_assignment.Shared.Result.{ok}
use optio_ai_assignment.Database.{Customer, Transaction, Tables}
use optio_ai_assignment.Database.Views.{set_profile}
use optio_ai_assignment.Database.Prisma.{Prisma}
use optio_ai_assignment.Segments.Metrics.{DecimalText, rows_for, compute_all}
use optio_ai_assignment.Segments.Evaluation.Pass.{satisfies}
use optio_ai_assignment.Segments.Order.Finding.{find-holds}
use optio_ai_assignment.Messaging.Buffer.{Redis, ChangeBuffer, mark_changed}
use optio_ai_assignment.Simulator.{simulate_profile}

-- The keys of an object that JSON.parse returns are unique.
abbrev pub IsObject : Fields → Type 0
IsObject no_fields = Unit
IsObject (entry key value rest) = (field key rest ≡ none) × IsObject rest

abbrev pub or_else : Option Json → Option Json → Option Json
or_else none old = old
or_else (some new) old = some new

field-set_field :
    (name key : String) (value : Json) (o : Fields)
    → field name (set_field key value o) ≡ (if key == name then some value else field name o)
unfolding field set_field
field-set_field name key value no_fields = refl
field-set_field name key value (entry k v rest) =
    ground
      (arith, field-set_field name key value rest, eq_iff k key, eq_iff key name, eq_iff k name)

-- A field of the merged object is that of the patch, and where the patch has none that of the object.
pub field-spread :
    (o patch : Fields) (name : String)
    → IsObject patch
    → field name (spread o patch) ≡ or_else (field name patch) (field name o)
unfolding field spread
field-spread o no_fields name h = refl
field-spread o (entry key value rest) name (once, h) = elim (Bool-cases (key == name)) [
  | inl same ↦
      let unset : field name rest ≡ none =
        subst (λ x. field x rest ≡ none) ((eq_iff key name).0 same) once in
      field-spread (set_field key value o) rest name h
      ∙ rw (unset, field-set_field name key value o, same)
  | inr other ↦
      field-spread (set_field key value o) rest name h
      ∙ rw (field-set_field name key value o, other)
]

find-set_profile :
    (id : String) (profile : Fields) (rows : List Customer) (x : String) (c : Customer)
    → find (λ u. u.id == x) rows ≡ some c
    → find (λ u. u.id == x) (set_profile id profile rows)
      ≡ some (if c.id == id then record c { profile = profile } else c)
unfolding set_profile
find-set_profile id profile [] x c h = absurd (ground arith)
find-set_profile id profile (u ∷ rows) x c h =
    ground (arith, find-set_profile id profile rows x c, eq_iff u.id x, eq_iff u.id id)

find-set_profile_other :
    (id : String) (profile : Fields) (rows : List Customer) (x : String)
    → (x == id) ≡ false
    → find (λ u. u.id == x) (set_profile id profile rows) ≡ find (λ u. u.id == x) rows
unfolding set_profile
find-set_profile_other id profile [] x other = refl
find-set_profile_other id profile (u ∷ rows) x other =
    ground
      (arith, find-set_profile_other id profile rows x, eq_iff u.id x, eq_iff u.id id, eq_iff x id)

rows_for-set_profile :
    ⦃text : DecimalText⦄ (now : ℤ) (transactions : List Transaction) (id : String)
    (profile : Fields) (rows : List Customer)
    → rows_for now transactions (set_profile id profile rows) ≡ rows_for now transactions rows
unfolding set_profile
rows_for-set_profile now transactions id profile [] = refl
rows_for-set_profile now transactions id profile (c ∷ rows) = elim (Bool-cases (c.id == id)) [
  | inl here ↦ rw (here, rows_for-set_profile now transactions id profile rows)
  | inr other ↦ rw (other, rows_for-set_profile now transactions id profile rows)
]

-- What a merge leaves: the fields of the patch, and the others that were there.
abbrev pub IsMerged : Fields → Fields → Customer → Type 0
IsMerged old patch c =
    (name : String) → field name c.profile ≡ or_else (field name patch) (field name old)

module _ ⦃prisma : Prisma⦄ ⦃redis : Redis⦄ ⦃text : DecimalText⦄ where
  -- A patch of the profile of a known customer succeeds: each field of the profile becomes that of
  -- the patch and stays where the patch has none, every other customer stays, and the customer is
  -- marked. But nobody's place in a segment can depend on it: who satisfies a rule is the same before
  -- and after, for every rule. The patch has each key once, and the customer's id is not empty.
  pub simulate_profile_merges :
      (customer_id : String) (patch : Fields) (s : ChangeBuffer) (existing : Customer)
      → (customer_id == "") ≡ false
      → find (λ c. c.id == customer_id) s.tables.customers ≡ some existing
      → IsObject patch
      → (c : Customer) × (s' : ChangeBuffer) × (simulate_profile customer_id (some patch) s
          ≡ (ok tt, s'))
        × IsMerged existing.profile patch c
        × ((id : String)
            → find (λ u. u.id == id) s'.tables.customers
              ≡ (if id == customer_id then some c else find (λ u. u.id == id) s.tables.customers))
        × (has s'.keys.buffer customer_id ≡ true)
        × ((now : ℤ) (rule : SegmentRule) (who : String)
            → satisfies now s'.tables rule who ≡ satisfies now s.tables rule who)
  unfolding simulate_profile mark_changed compute_all
  simulate_profile_merges customer_id patch s existing named found once =
      let merged : Fields = spread existing.profile patch in
      let t' : Tables = record (s.tables) {
        customers = set_profile customer_id merged s.tables.customers;
      } in
      let own : (existing.id == customer_id) ≡ true =
        find-holds (λ c. c.id == customer_id) s.tables.customers existing found in
      (
        record existing { profile = merged },
        mark_changed customer_id (record s { tables = t' }),
        rw (
          named,
          prisma.find_customer_lem s.tables customer_id,
          found,
          prisma.update_profile_lem customer_id merged s.tables,
        ),
        (λ name. field-spread existing.profile patch name once),
        (λ id. elim (Bool-cases (id == customer_id)) [
          | inl same ↦
              rw (same, (eq_iff id customer_id).0 same)
                (find-set_profile customer_id merged s.tables.customers customer_id existing found
                  ∙ rw own)
          | inr other ↦
              rw other (find-set_profile_other customer_id merged s.tables.customers id other)
        ]),
        marked,
        (λ now rule who.
            rw (
              rows_for-set_profile now s.tables.transactions customer_id merged
                s.tables.customers)),
      )
    where
      marked : has (redis.sadd (customer_id ∷ []) s.keys).buffer customer_id ≡ true
      marked = rw (redis.sadd_lem (customer_id ∷ []) s.keys) (
          has-to_set_onto s.keys.buffer (customer_id ∷ []) customer_id
          ∙ unfold has in ground (arith, eq_iff customer_id customer_id))
