-- ===== src/Messaging/Buffer/Marks.antt =====
-- Marking changes.
use optio_ai_assignment.Prelude.{
  String, true, ◌||◌, ◌≡◌, refl, List, [], ◌∷◌, has, distinct, arith, has-to_set_onto,
  distinct-to_set_onto,
}
use optio_ai_assignment.Messaging.Buffer.{Redis, ChangeBuffer, mark_changed_many}

module _ ⦃redis : Redis⦄ where
  pub has-mark_changed_many :
      (ids : List String) (s : ChangeBuffer) (c : String)
      → has (mark_changed_many ids s).keys.buffer c ≡ (has s.keys.buffer c || has ids c)
  unfolding mark_changed_many has
  has-mark_changed_many [] s c = ground arith
  has-mark_changed_many (id ∷ ids) s c =
      rw (redis.sadd_lem (id ∷ ids) s.keys) (has-to_set_onto s.keys.buffer (id ∷ ids) c)

  pub mark_changed_many-tables :
      (ids : List String) (s : ChangeBuffer) → (mark_changed_many ids s).tables ≡ s.tables
  unfolding mark_changed_many
  mark_changed_many-tables [] s = refl
  mark_changed_many-tables (id ∷ ids) s = refl

  -- The bulk call marks each of its customers, forgets none that was marked, and marks no other; a
  -- customer who is marked again is still in the buffer once.
  pub mark_changed_many-has :
      (ids : List String) (s : ChangeBuffer)
      → distinct s.keys.buffer ≡ true
      → ((c : String)
          → has (mark_changed_many ids s).keys.buffer c ≡ (has s.keys.buffer c || has ids c))
        × (distinct (mark_changed_many ids s).keys.buffer ≡ true)
  unfolding mark_changed_many
  mark_changed_many-has [] s d = (has-mark_changed_many [] s, d)
  mark_changed_many-has (id ∷ ids) s d = (
    has-mark_changed_many (id ∷ ids) s,
    rw (redis.sadd_lem (id ∷ ids) s.keys) (distinct-to_set_onto s.keys.buffer (id ∷ ids) d),
  )
