-- ===== src/Sql/Tables.antt =====
-- SELECT, UPDATE, DELETE and INSERT on a list of rows.
use yudesk.Base.{ℕ, ◌+◌, Bool, Option, none, some, List, [], ◌∷◌, ◌++◌, if◌then◌else◌}

module _ {Row : Type 0} where
  -- SELECT … WHERE: `none` is `sql.ErrNoRows`.
  unfoldable pub select : (Row → Bool) → List Row → Option Row
  select test [] = none
  select test (r ∷ rows) = if test r then some r else select test rows

  -- UPDATE … SET … WHERE
  unfoldable pub update : (Row → Bool) → (Row → Row) → List Row → List Row
  update test change [] = []
  update test change (r ∷ rows) = (if test r then change r else r) ∷ update test change rows

  -- `RowsAffected`
  unfoldable pub affected : (Row → Bool) → List Row → ℕ
  affected test [] = 0
  affected test (r ∷ rows) = (if test r then 1 else 0) + affected test rows

  -- DELETE … WHERE
  unfoldable pub delete : (Row → Bool) → List Row → List Row
  delete test [] = []
  delete test (r ∷ rows) = if test r then delete test rows else r ∷ delete test rows

  -- INSERT, at the end of the table
  unfoldable pub insert : Row → List Row → List Row
  insert r rows = rows ++ r ∷ []
