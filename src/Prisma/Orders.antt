-- ===== src/Prisma/Orders.antt =====
-- `orderBy` of the Prisma client, which is the database's: a parameter, of which is assumed that it
-- gives the same rows. `collate` is the order of texts in the database.
use mathlib.Core.List.{Perm}
use pr_sentinel_backend.Base.{ℕ, String, Bool, List, leb}

pub record Orders : Type 1 where
  pub collate : String → String → Bool
  pub order_by : {Row : Type 0} → (Row → Row → Bool) → List Row → List Row
  pub order_by-Perm :
      {Row : Type 0} (precedes : Row → Row → Bool) (rows : List Row)
      → Perm (order_by precedes rows) rows

module _ ⦃o : Orders⦄ {Row : Type 0} where
  -- `orderBy: { createdAt: 'desc' }`, and so for the time of the last update.
  abbrev pub newest_first : (Row → ℕ) → List Row → List Row
  newest_first time rows = o.order_by (λ x y. leb (time y) (time x)) rows

  -- `orderBy: { createdAt: 'asc' }`
  abbrev pub oldest_first : (Row → ℕ) → List Row → List Row
  oldest_first time rows = o.order_by (λ x y. leb (time x) (time y)) rows

  -- `orderBy: { filename: 'asc' }`, and so for other texts.
  abbrev pub by_text : (Row → String) → List Row → List Row
  by_text text rows = o.order_by (λ x y. o.collate (text x) (text y)) rows
