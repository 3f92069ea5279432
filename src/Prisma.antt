-- ===== src/Prisma.antt =====
-- The Prisma client as the services use it: a package that the repository does not hold, so its
-- tables are a parameter. What is assumed of it is the documented behaviour of `create`,
-- `updateMany`, `deleteMany` and of reads, with the rows listed in the order of their creation, and
-- that a new uuid is not in use. `create` is used where no row has the unique key.
pub mod Keyed
pub mod Orders
pub mod Insertion
pub mod InMemory
use pr_sentinel_backend.Base.{
  ℕ, String, ◌≡◌, ◌≢◌, Bool, not, List, [], ◌∷◌, ◌++◌, map, Option, All, find, keep, map_where,
}

pub record Prisma : Type 1 where
  pub Table : Type 0 → Type 0
  pub rows : {Row : Type 0} → Table Row → List Row
  pub create : {Row : Type 0} → Row → Table Row → Table Row
  pub update_many : {Row : Type 0} → (Row → Bool) → (Row → Row) → Table Row → Table Row
  pub delete_many : {Row : Type 0} → (Row → Bool) → Table Row → Table Row
  pub uuid : List ℕ → ℕ
  -- The message of the error P2002 for a unique column.
  pub not_unique_message : (column : String) → String
  pub rows-create : {Row : Type 0} (r : Row) (t : Table Row) → rows (create r t) ≡ rows t ++ r ∷ []
  pub rows-update_many :
      {Row : Type 0} (p : Row → Bool) (f : Row → Row) (t : Table Row)
      → rows (update_many p f t) ≡ map_where p f (rows t)
  pub rows-delete_many :
      {Row : Type 0} (p : Row → Bool) (t : Table Row)
      → rows (delete_many p t) ≡ keep (λ r. not (p r)) (rows t)
  pub uuid_fresh : (taken : List ℕ) → All (λ i. i ≢ uuid taken) taken

module _ ⦃p : Prisma⦄ {Row : Type 0} where
  -- `findFirst({ where })`, and `findUnique` where the test compares a unique key.
  abbrev pub find_first : (Row → Bool) → p.Table Row → Option Row
  find_first test t = find test (p.rows t)

  -- `findMany({ where })`
  abbrev pub find_many : (Row → Bool) → p.Table Row → List Row
  find_many test t = keep test (p.rows t)

  -- The id that `@default(uuid())` gives a new row.
  abbrev pub new_id : (Row → ℕ) → p.Table Row → ℕ
  new_id id t = p.uuid (map id (p.rows t))

  -- `createMany({ data })`: the rows in the order of the data, each with a new id.
  unfoldable pub create_many :
      {Data : Type 0} → (Row → ℕ) → (ℕ → Data → Row) → List Data → p.Table Row → p.Table Row
  create_many id row [] t = t
  create_many id row (d ∷ ds) t = create_many id row ds (p.create (row (new_id id t) d) t)
