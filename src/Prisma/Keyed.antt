-- ===== src/Prisma/Keyed.antt =====
-- Reads, updates and upserts by a unique numeric column, and what they do to each other.
use mathlib.Core.Option
use pr_sentinel_backend.Base.{
  ℕ, ◌≡◌, subst, ◌∙◌, inl, inr, Bool, [], ◌∷◌, Option, none, some, arith, find, change, or_option,
  if◌then◌else◌, ◌==◌, ==_iff, Option-cases, Bool-cases, find-append, find-map_where, find-passes,
  ◌≢◌, refl, List, map, All,
}
use pr_sentinel_backend.Prisma.{Prisma, find_first, new_id}

module _ ⦃p : Prisma⦄ {Row : Type 0} where
  -- `findUnique({ where: { key: k } })`
  abbrev pub find_unique : (Row → ℕ) → ℕ → p.Table Row → Option Row
  find_unique key k t = find_first (λ r. key r == k) t

  -- `update({ where: { key: k }, data })`, used where the row exists.
  abbrev pub update : (Row → ℕ) → ℕ → (Row → Row) → p.Table Row → p.Table Row
  update key k f t = p.update_many (λ r. key r == k) f t

  -- The row that `upsert` returns: the created or the updated one.
  abbrev pub upserted : Option Row → Row → (Row → Row) → Row
  upserted none new f = new
  upserted (some r) new f = f r

  -- `upsert({ where: { key: k }, create, update })`
  unfoldable pub upsert : (Row → ℕ) → ℕ → Row → (Row → Row) → p.Table Row → Row × p.Table Row
  upsert key k new f t = elim (find_unique key k t) [
    | none ↦ (new, p.create new t)
    | some r ↦ (f r, update key k f t)
  ]

  pub upsert-row :
      (key : Row → ℕ) (k : ℕ) (new : Row) (f : Row → Row) (t : p.Table Row)
      → (upsert key k new f t).0 ≡ upserted (find_unique key k t) new f
  unfolding upsert
  upsert-row key k new f t = elim (Option-cases (find_unique key k t)) [
    | inl e ↦ rw (e, upsert)
    | inr (r, e) ↦ rw (e, upsert)
  ]

  -- The table after an upsert, where the code makes the choice itself.
  pub upsert-create :
      (key : Row → ℕ) (k : ℕ) (new : Row) (f : Row → Row) (t : p.Table Row)
      → find_unique key k t ≡ none
      → p.create new t ≡ (upsert key k new f t).1
  unfolding upsert
  upsert-create key k new f t e = rw (e, upsert)

  pub upsert-update :
      (key : Row → ℕ) (k : ℕ) (new : Row) (f : Row → Row) (t : p.Table Row) {r : Row}
      → find_unique key k t ≡ some r
      → update key k f t ≡ (upsert key k new f t).1
  unfolding upsert
  upsert-update key k new f t e = rw (e, upsert)

  -- A lookup after a create.
  pub find-create :
      (test : Row → Bool) (r : Row) (t : p.Table Row)
      → find test (p.rows (p.create r t))
        ≡ or_option (find test (p.rows t)) (if test r then some r else none)
  find-create test r t = rw (p.rows-create r t) (find-append test (p.rows t) (r ∷ []))

  -- A lookup after an update that leaves the tested columns alone.
  pub find-update_many :
      (q test : Row → Bool) (f : Row → Row) (t : p.Table Row)
      → ((r : Row) → q (f r) ≡ q r)
      → find q (p.rows (p.update_many test f t)) ≡ Option.map (change test f) (find q (p.rows t))
  find-update_many q test f t same =
      rw (p.rows-update_many test f t) (find-map_where q test f (p.rows t) same)

  module _ (key : Row → ℕ) (k : ℕ) (f : Row → Row) (fixed : (r : Row) → key (f r) ≡ key r) where
    pub find-update :
        (j : ℕ) (t : p.Table Row)
        → find_unique key j (update key k f t)
          ≡ (if j == k then Option.map f (find_unique key j t) else find_unique key j t)
    find-update j t = elim (Option-cases (find_unique key j t)) [
      | inl e ↦ moved ∙ rw e (ground arith)
      | inr (r, e) ↦
          moved
          ∙ rw e (ground (arith, find-passes (λ x. key x == j) (p.rows t) e, ==_iff (key r) j))
    ]
      where
        moved :
            find_unique key j (update key k f t)
            ≡ Option.map (change (λ r. key r == k) f) (find_unique key j t)
        moved = find-update_many (λ r. key r == j) (λ r. key r == k) f t (λ r. rw (fixed r))

    -- A lookup after an upsert: the upserted row under its key, and no change elsewhere.
    pub find-upsert :
        (j : ℕ) (new : Row) (t : p.Table Row)
        → key new ≡ k
        → find_unique key j (upsert key k new f t).1
          ≡ (if j == k then some (upserted (find_unique key k t) new f) else find_unique key j t)
    unfolding upsert
    find-upsert j new t e = elim (Option-cases (find_unique key k t)) [
      | inl absent ↦
          rw (absent, upsert)
            (find-create (λ r. key r == j) new t ∙ elim (Option-cases (find_unique key j t)) [
              | inl missing ↦ rw missing (ground (arith, ==_iff j k))
              | inr (r, found) ↦ rw found (elim (Bool-cases (j == k)) [
                | inl same ↦
                    cc (subst (λ (i : ℕ). find_unique key i t ≡ some r) ((==_iff j k).0 same) found)
                | inr other ↦ rw other
              ])
            ])
      | inr (r, found) ↦
          rw (found, upsert)
            (find-update j t ∙ elim (Bool-cases (j == k)) [
              | inl same ↦ rw (same) (rw ((==_iff j k).0 same, found))
              | inr other ↦ rw other
            ])
    ]

module _ {Row : Type 0} (key : Row → ℕ) where
  find-unused :
      (n : ℕ) (rows : List Row)
      → All (λ i. i ≢ n) (map key rows)
      → find (λ r. key r == n) rows ≡ none
  find-unused n [] unused = refl
  find-unused n (x ∷ xs) unused = elim (Bool-cases (key x == n)) [
    | inl same ↦ absurd (unused.0 ((==_iff (key x) n).0 same))
    | inr other ↦ rw other (find-unused n xs unused.1)
  ]

  -- No row has a new id.
  pub find-new_id : ⦃p : Prisma⦄ (t : p.Table Row) → find_unique key (new_id key t) t ≡ none
  find-new_id ⦃p⦄ t =
      find-unused (p.uuid (map key (p.rows t))) (p.rows t) (p.uuid_fresh (map key (p.rows t)))
