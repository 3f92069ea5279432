-- ===== src/Auth/Columns.antt =====
-- The unique columns `email` and `githubId` of the users, after a write.
use pr_sentinel_backend.Base.{
  ◌+◌, ◌≤◌, String, ◌≡◌, ◌∙◌, inl, inr, Bool, true, [], ◌∷◌, none, some, arith, count, count-append,
  count-none, count-map_where, if◌then◌else◌, eq_iff, ap, Option-cases, Bool-cases,
}
use pr_sentinel_backend.Prisma.{Prisma}
use pr_sentinel_backend.Schema.{User}
use pr_sentinel_backend.Database.{Db}
use pr_sentinel_backend.Auth.Api.{has_email, has_github}
use pr_sentinel_backend.Auth.Accounts.{find_by_email, find_by_github_id}

module _ ⦃p : Prisma⦄ where
  -- No two users have the same e-mail address, or the same id at GitHub.
  abbrev pub AreUnique : Db → Type 0
  AreUnique db =
      ((email : String) → count (has_email email) (p.rows db.users) ≤ 1)
      × ((github_id : String) → count (has_github github_id) (p.rows db.users) ≤ 1)

  count-create :
      (q : User → Bool) (u : User) (db : Db)
      → count q (p.rows (p.create u db.users)) ≡ count q (p.rows db.users) + (if q u then 1 else 0)
  unfolding count
  count-create q u db =
      rw (p.rows-create u db.users) (count-append q (p.rows db.users) (u ∷ []) ∙ omega arith)

  -- A new user whose columns nobody has.
  pub create-AreUnique :
      (u : User) (db : Db)
      → ((email : String)
          → has_email email u ≡ true
          → count (has_email email) (p.rows db.users) ≡ 0)
      → ((g : String) → has_github g u ≡ true → count (has_github g) (p.rows db.users) ≡ 0)
      → AreUnique db
      → AreUnique (record db { users = p.create u db.users })
  create-AreUnique u db new_email new_github (emails, githubs) = (
    λ email. rw (count-create (has_email email) u db) (elim (Bool-cases (has_email email u)) [
      | inl same ↦ rw (same, new_email email same) (omega arith)
      | inr other ↦ rw other (omega (arith, emails email))
    ]),
    λ g. rw (count-create (has_github g) u db) (elim (Bool-cases (has_github g u)) [
      | inl same ↦ rw (same, new_github g same) (omega arith)
      | inr other ↦ rw other (omega (arith, githubs g))
    ]),
  )

  -- A change of users that leaves both columns.
  pub update-AreUnique :
      (test : User → Bool) (f : User → User) (db : Db)
      → ((u : User) → (f u).email ≡ u.email)
      → ((u : User) → (f u).github_id ≡ u.github_id)
      → AreUnique db
      → AreUnique (record db { users = p.update_many test f db.users })
  update-AreUnique test f db same_email same_github (emails, githubs) = (
    λ email. rw (p.rows-update_many test f db.users) (
        omega (
          arith,
          emails email,
          count-map_where (has_email email) test f (p.rows db.users)
              (λ u e. rw (same_email u) at e),
        )),
    λ g. rw (p.rows-update_many test f db.users) (
        omega (
          arith,
          githubs g,
          count-map_where (has_github g) test f (p.rows db.users) (λ u e. rw (same_github u) at e),
        )),
  )

  pub nobody-email :
      (email : String) (db : Db)
      → find_by_email email db ≡ none
      → count (has_email email) (p.rows db.users) ≡ 0
  nobody-email email db = count-none (has_email email) (p.rows db.users)

  pub nobody-github :
      (g : String) (db : Db)
      → find_by_github_id g db ≡ none
      → count (has_github g) (p.rows db.users) ≡ 0
  nobody-github g db = count-none (has_github g) (p.rows db.users)

  pub has_email-holds :
      (email : String) (u : User) → has_email email u ≡ true → u.email ≡ some email
  has_email-holds email u h = elim (Option-cases u.email) [
    | inl missing ↦ cc (rw missing at h)
    | inr (t, there) ↦ rw there (ap some ((eq_iff t email).0 (rw there at h)))
  ]
