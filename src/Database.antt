-- ===== src/Database.antt =====
-- The database client of apps/server (Prisma over PostgreSQL), which the repository only calls: a
-- table with the operations that the services use, behind laws. A filter is a Boolean test, the
-- state of a table is a value of `Db`, and `rows` is what `findMany` without a filter returns.
-- A transaction is a function from a state to a result: where it throws, there is no new state.
pub mod Memory
pub mod Distinct
use collab_ide.Base.{
  ℕ, ◌≡◌, Bool, true, false, not, Option, none, some, List, [], ◌∷◌, ◌++◌, map, any, keep, find,
  count, if◌then◌else◌,
}

abbrev pub update_row {ℓ} : {A : Type ℓ} → (A → Bool) → (A → A) → A → A
update_row p f r = if p r then f r else r

-- `conflict r s` says that `r` and `s` agree on the columns of a unique constraint.
pub record Table (Row : Type 0) (conflict : Row → Row → Bool) : Type 1 where
  pub Db : Type 0
  pub rows : Db → List Row
  -- `none` is the error P2002, a violated unique constraint.
  pub create : Row → Db → Option Db
  -- An update that leaves the columns of every unique constraint alone.
  pub update_many : (Row → Bool) → (Row → Row) → Db → Db
  pub delete_many : (Row → Bool) → Db → Db
  pub create_conflict : (r : Row) (d : Db) → any (conflict r) (rows d) ≡ true → create r d ≡ none
  pub create_rows :
      (r : Row) (d : Db)
      → any (conflict r) (rows d) ≡ false
      → (d' : Db) × (create r d ≡ some d') × (rows d' ≡ rows d ++ r ∷ [])
  pub rows-update_many :
      (p : Row → Bool) (f : Row → Row) (d : Db)
      → rows (update_many p f d) ≡ map (update_row p f) (rows d)
  pub rows-delete_many :
      (p : Row → Bool) (d : Db) → rows (delete_many p d) ≡ keep (λ r. not (p r)) (rows d)

-- The queries, over the rows of a state.
module _ {Row : Type 0} {conflict : Row → Row → Bool} (t : Table Row conflict) where
  abbrev pub find_many : (Row → Bool) → t.Db → List Row
  find_many p d = keep p (t.rows d)

  -- `findUnique` and `findFirst`
  abbrev pub find_first : (Row → Bool) → t.Db → Option Row
  find_first p d = find p (t.rows d)

  abbrev pub count_rows : (Row → Bool) → t.Db → ℕ
  count_rows p d = count p (t.rows d)
