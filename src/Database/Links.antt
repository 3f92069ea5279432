-- ===== src/Database/Links.antt =====
-- The foreign keys of the schema: every row that leads to another leads to one that is there.
pub mod Tables
use pr_sentinel_backend.Base.{
  ℕ, ◌≡◌, refl, ◌∙◌, sym, inl, inr, Bool, true, false, not, ◌&&◌, List, [], ◌∷◌, ◌++◌, Option, none,
  some, arith, any, All, All-map, All-append, All-keep, All-map_where, any-append, any-last,
  any-map_where, any-keep, any-member, find, keep, map_where, ◌==◌, ==_refl, Option-cases,
}
use pr_sentinel_backend.Prisma.{Prisma, create_many, new_id}
use pr_sentinel_backend.Prisma.Keyed.{find_unique, upsert}
use pr_sentinel_backend.Database.{Db, leads_to}

module _ ⦃p : Prisma⦄ where
  -- A row with this id is there.
  abbrev pub has : {Row : Type 0} → (Row → ℕ) → ℕ → p.Table Row → Bool
  has id k t = any (λ x. id x == k) (p.rows t)

  -- Every row of the first table leads to a row of the second.
  abbrev pub Linked :
      {Child Parent : Type 0} → (Child → ℕ) → (Parent → ℕ) → p.Table Child → p.Table Parent → Type 0
  Linked key id cs ps = All (λ c. has id (key c) ps ≡ true) (p.rows cs)

  -- Every id of the first table is in the second.
  abbrev pub Covers : {Row : Type 0} → (Row → ℕ) → p.Table Row → p.Table Row → Type 0
  Covers id t t' = (k : ℕ) → has id k t ≡ true → has id k t' ≡ true

  module _ {Row : Type 0} (id : Row → ℕ) where
    pub Covers-create : (r : Row) (t : p.Table Row) → Covers id t (p.create r t)
    Covers-create r t k h =
        rw (p.rows-create r t) (any-append (λ x. id x == k) (p.rows t) (r ∷ []) h)

    pub has-create : (r : Row) (t : p.Table Row) → has id (id r) (p.create r t) ≡ true
    has-create r t =
        rw (p.rows-create r t) (any-last (λ x. id x == id r) (p.rows t) r (==_refl (id r)))

    pub has-update_many :
        (test : Row → Bool) (f : Row → Row) (t : p.Table Row) (k : ℕ)
        → ((r : Row) → id (f r) ≡ id r)
        → has id k (p.update_many test f t) ≡ has id k t
    has-update_many test f t k same =
        rw (p.rows-update_many test f t)
          (any-map_where (λ x. id x == k) test f (p.rows t) (λ r. rw (same r)))

    pub Covers-update_many :
        (test : Row → Bool) (f : Row → Row) (t : p.Table Row)
        → ((r : Row) → id (f r) ≡ id r)
        → Covers id t (p.update_many test f t)
    Covers-update_many test f t same k h = has-update_many test f t k same ∙ h

    pub has-found :
        (test : Row → Bool) (t : p.Table Row) {r : Row}
        → find test (p.rows t) ≡ some r
        → has id (id r) t ≡ true
    has-found test t {r} e =
        any-member (λ x. id x == id r) test (p.rows t) {x = r} e (==_refl (id r))

    module _ (key : Row → ℕ) (k : ℕ) (new : Row) (f : Row → Row)
        (same : (r : Row) → id (f r) ≡ id r) where
      pub Covers-upsert : (t : p.Table Row) → Covers id t (upsert key k new f t).1
      unfolding upsert
      Covers-upsert t = elim (Option-cases (find_unique key k t)) [
        | inl e ↦ rw (e, upsert) (Covers-create new t)
        | inr (r, e) ↦ rw (e, upsert) (Covers-update_many (λ x. key x == k) f t same)
      ]

      -- The row that an upsert returns is there.
      pub has-upsert :
          (t : p.Table Row) → has id (id (upsert key k new f t).0) (upsert key k new f t).1 ≡ true
      unfolding upsert
      has-upsert t = elim (Option-cases (find_unique key k t)) [
        | inl e ↦ rw (e, upsert) (has-create new t)
        | inr (r, e) ↦
            rw (e, upsert)
              (rw (same r) (
                has-update_many (λ x. key x == k) f t (id r) same
                ∙ has-found (λ x. key x == k) t e))
      ]

  module _ {Child Parent : Type 0} (key : Child → ℕ) (id : Parent → ℕ) where
    pub Linked-Covers :
        (cs : p.Table Child) (ps ps' : p.Table Parent)
        → Covers id ps ps'
        → Linked key id cs ps
        → Linked key id cs ps'
    Linked-Covers cs ps ps' covers =
        All-map (λ c. has id (key c) ps ≡ true) (λ c. has id (key c) ps' ≡ true) (p.rows cs)
          (λ c. covers (key c))

    pub Linked-create :
        (c : Child) (cs : p.Table Child) (ps : p.Table Parent)
        → has id (key c) ps ≡ true
        → Linked key id cs ps
        → Linked key id (p.create c cs) ps
    Linked-create c cs ps h linked =
        rw (p.rows-create c cs)
          (All-append (λ x. has id (key x) ps ≡ true) (p.rows cs) (c ∷ []) linked (h, tt))

    pub Linked-update_many :
        (test : Child → Bool) (f : Child → Child) (cs : p.Table Child) (ps : p.Table Parent)
        → ((c : Child) → has id (key c) ps ≡ true → has id (key (f c)) ps ≡ true)
        → Linked key id cs ps
        → Linked key id (p.update_many test f cs) ps
    Linked-update_many test f cs ps step linked =
        rw (p.rows-update_many test f cs)
          (All-map_where (λ x. has id (key x) ps ≡ true) test f (p.rows cs) step linked)

    pub Linked-upsert :
        (column : Child → ℕ) (k : ℕ) (new : Child) (f : Child → Child) (cs : p.Table Child)
        (ps : p.Table Parent)
        → has id (key new) ps ≡ true
        → ((c : Child) → has id (key c) ps ≡ true → has id (key (f c)) ps ≡ true)
        → Linked key id cs ps
        → Linked key id (upsert column k new f cs).1 ps
    unfolding upsert
    Linked-upsert column k new f cs ps h step linked =
        elim (Option-cases (find_unique column k cs)) [
          | inl e ↦ rw (e, upsert) (Linked-create new cs ps h linked)
          | inr (r, e) ↦
              rw (e, upsert) (Linked-update_many (λ x. column x == k) f cs ps step linked)
        ]

    pub Linked-delete_many :
        (test : Child → Bool) (cs : p.Table Child) (ps : p.Table Parent)
        → Linked key id cs ps
        → Linked key id (p.delete_many test cs) ps
    Linked-delete_many test cs ps linked = rw (p.rows-delete_many test cs) (
        All-keep (λ x. has id (key x) ps ≡ true) (λ x. has id (key x) ps ≡ true) (λ c. not (test c))
          (p.rows cs) (λ c kept h. h) linked)

    pub Linked-create_many :
        {Data : Type 0} (column : Child → ℕ) (row : ℕ → Data → Child) (ds : List Data)
        (cs : p.Table Child) (ps : p.Table Parent)
        → ((n : ℕ) (d : Data) → has id (key (row n d)) ps ≡ true)
        → Linked key id cs ps
        → Linked key id (create_many column row ds cs) ps
    unfolding create_many
    Linked-create_many column row [] cs ps h linked = linked
    Linked-create_many column row (d ∷ ds) cs ps h linked =
        let new = row (new_id column cs) d in
        Linked-create_many column row ds (p.create new cs) ps h
          (Linked-create new cs ps (h (new_id column cs) d) linked)

    -- A deletion with its cascade.
    pub Linked-cascade :
        (test : Parent → Bool) (cs : p.Table Child) (ps : p.Table Parent)
        → Linked key id cs ps
        → Linked key id
            (p.delete_many (λ c. leads_to id test (p.rows ps) (key c)) cs)
            (p.delete_many test ps)
    Linked-cascade test cs ps linked =
        rw
          (
            p.rows-delete_many (λ c. leads_to id test (p.rows ps) (key c)) cs,
            p.rows-delete_many test ps,
          )
          (All-keep (λ c. has id (key c) ps ≡ true)
            (λ c. any (λ x. id x == key c) (keep (λ x. not (test x)) (p.rows ps)) ≡ true)
            (λ c. not (leads_to id test (p.rows ps) (key c))) (p.rows cs)
            (λ c kept h. any-keep (λ x. id x == key c) test (p.rows ps) h (ground (arith, kept)))
            linked)
