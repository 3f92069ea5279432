-- ===== src/Auth/Again.antt =====
-- Signing in through GitHub a second time, of src/auth/auth.service.ts.
use pr_sentinel_backend.Base.{
  ℕ, String, ◌≡◌, refl, ap, ◌∙◌, inl, inr, Bool, true, false, not, ◌&&◌, List, [], ◌∷◌, ◌++◌,
  Option, none, some, any, arith, map_where, str_eq_refl, Option-cases, Bool-cases, find-passes,
}
use pr_sentinel_backend.Base.Text.{decimal}
use pr_sentinel_backend.Errors.{Result, ok, err}
use pr_sentinel_backend.Prisma.{Prisma}
use pr_sentinel_backend.Prisma.Keyed.{find-create, find-update_many}
use pr_sentinel_backend.Schema.{User}
use pr_sentinel_backend.Database.{Db}
use pr_sentinel_backend.Auth.Api.{GithubUserProfile, has_email, has_github, email_not_unique}
use pr_sentinel_backend.Auth.Accounts.{
  find_by_github_id, email_taken, refresh_user, new_user, upsert_github_user,
}

-- Nobody but the users with `p` passes `q`, also after a row with `p` is added, or such rows change.
others-append :
    {A : Type 0} (q p : A → Bool) (xs : List A) (x : A)
    → p x ≡ true
    → any (λ y. q y && not (p y)) xs ≡ false
    → any (λ y. q y && not (p y)) (xs ++ x ∷ []) ≡ false
others-append q p [] x own h = ground (arith, own)
others-append q p (y ∷ xs) x own h = ground (arith, own, h, others-append q p xs x)

others-map_where :
    {A : Type 0} (q p : A → Bool) (f : A → A) (xs : List A)
    → ((x : A) → p (f x) ≡ p x)
    → any (λ y. q y && not (p y)) xs ≡ false
    → any (λ y. q y && not (p y)) (map_where p f xs) ≡ false
others-map_where q p f [] same h = refl
others-map_where q p f (x ∷ xs) same h = ground (arith, same x, h, others-map_where q p f xs same)

module _ ⦃p : Prisma⦄ (now later : ℕ) (profile : GithubUserProfile) (db : Db) where
  abbrev id_text : String
  id_text = decimal profile.id

  abbrev row : User
  row =
      new_user now (some id_text) (some profile.login) profile.email none (some profile.avatar_url)
        db

  abbrev with_row : Db
  with_row = record db { users = p.create row db.users }

  abbrev refreshed : Db
  refreshed = record db {
    users = p.update_many (has_github id_text) (refresh_user now profile) db.users;
  }

  free-with_row :
      (email : Option String)
      → email_taken id_text email db ≡ false
      → email_taken id_text email with_row ≡ false
  free-with_row none h = refl
  free-with_row (some e) h = rw (p.rows-create row db.users) (
      others-append (has_email e) (has_github id_text) (p.rows db.users) row (str_eq_refl id_text)
        h)

  free-refreshed :
      (email : Option String)
      → email_taken id_text email db ≡ false
      → email_taken id_text email refreshed ≡ false
  free-refreshed none h = refl
  free-refreshed (some e) h =
      rw (p.rows-update_many (has_github id_text) (refresh_user now profile) db.users) (
        others-map_where (has_email e) (has_github id_text) (refresh_user now profile)
          (p.rows db.users) (λ x. refl) h)

  find-with_row :
      find_by_github_id id_text db ≡ none → find_by_github_id id_text with_row ≡ some row
  find-with_row unknown =
      find-create (has_github id_text) row db.users ∙ rw (unknown, str_eq_refl id_text) refl

  find-refreshed :
      {old : User}
      → find_by_github_id id_text db ≡ some old
      → find_by_github_id id_text refreshed ≡ some (refresh_user now profile old)
  find-refreshed {old} known =
      find-update_many (has_github id_text) (has_github id_text) (refresh_user now profile) db.users
        (λ x. refl)
      ∙ rw (known, find-passes (has_github id_text) (p.rows db.users) {x = old} known) refl

  -- The answer to a user that GitHub's id finds, whose address is free.
  upsert-known :
      (at : ℕ) (db' : Db) {u : User}
      → email_taken id_text profile.email db' ≡ false
      → find_by_github_id id_text db' ≡ some u
      → (upsert_github_user at profile db').0 ≡ ok (refresh_user at profile u)
  unfolding upsert_github_user
  upsert-known at db' free known = rw (free, upsert_github_user) (rw known refl)

  upsert-taken :
      email_taken id_text profile.email db ≡ true
      → upsert_github_user now profile db ≡ (err email_not_unique, db)
  unfolding upsert_github_user
  upsert-taken taken = rw (taken, upsert_github_user) refl

  upsert-created :
      email_taken id_text profile.email db ≡ false
      → find_by_github_id id_text db ≡ none
      → upsert_github_user now profile db ≡ (ok row, with_row)
  unfolding upsert_github_user
  upsert-created free unknown = rw (free, upsert_github_user) (rw unknown refl)

  upsert-updated :
      {old : User}
      → email_taken id_text profile.email db ≡ false
      → find_by_github_id id_text db ≡ some old
      → upsert_github_user now profile db ≡ (ok (refresh_user now profile old), refreshed)
  unfolding upsert_github_user
  upsert-updated free known = rw (free, upsert_github_user) (rw known refl)

  -- The answer with a user of whom only the time of the update has changed.
  abbrev touched : User → Result User
  touched u = ok (record u { updated_at = later })

  -- Who signs in through GitHub again is the same user: after a sign-in that is answered, one with
  -- the same profile is answered with the same user, of whom only the time of the update changes.
  pub upsert_github_user-again :
      {u : User}
      → (upsert_github_user now profile db).0 ≡ ok u
      → (upsert_github_user later profile (upsert_github_user now profile db).1).0
        ≡ ok (record u { updated_at = later })
  upsert_github_user-again {u} answered = elim (Bool-cases (email_taken id_text profile.email db)) [
    | inl taken ↦ cc (rw (upsert-taken taken) at answered)
    | inr free ↦ elim (Option-cases (find_by_github_id id_text db)) [
      | inl unknown ↦
          let first = upsert-created free unknown in
          let same : row ≡ u = cc (rw first at answered) in
          rw first (
            upsert-known later with_row (free-with_row profile.email free) (find-with_row unknown)
            ∙ ap touched same)
      | inr (old, known) ↦
          let first = upsert-updated free known in
          let same : refresh_user now profile old ≡ u = cc (rw first at answered) in
          rw first (
            upsert-known later refreshed (free-refreshed profile.email free) (find-refreshed known)
            ∙ ap touched same)
    ]
  ]
