-- ===== src/Auth/Unique.antt =====
-- The unique columns `email` and `githubId` of the users, over any history of registrations, GitHub
-- sign-ins and changes of the mode.
use pr_sentinel_backend.Base.{
  ℕ, String, ◌≡◌, refl, inl, inr, false, not, ◌&&◌, List, [], ◌∷◌, none, some, any, arith,
  count-within, count-map_within, count-map_where, ◌==◌, eq_iff, subst, Option-cases, Bool-cases,
}
use pr_sentinel_backend.Base.Text.{decimal}
use pr_sentinel_backend.Prisma.{Prisma}
use pr_sentinel_backend.Prisma.Keyed.{find_unique}
use pr_sentinel_backend.Schema.{User, LlmMode}
use pr_sentinel_backend.Database.{Db}
use pr_sentinel_backend.Llm.Config.{may_switch, update_mode}
use pr_sentinel_backend.Auth.Columns.{
  AreUnique, create-AreUnique, update-AreUnique, nobody-email, nobody-github, has_email-holds,
}
use pr_sentinel_backend.Auth.Api.{AuthApi, GithubUserProfile, has_email, has_github}
use pr_sentinel_backend.Auth.Accounts.{
  normalized, find_by_email, find_by_github_id, email_taken, refresh_user, new_user,
  register_local_user, upsert_github_user,
}

-- What the services do to users.
pub data UserChange : Type 0 where
  registers : (now : ℕ) → AuthApi → (salt email password : String) → UserChange
  signs_in : (now : ℕ) → GithubUserProfile → UserChange
  switches : (now user_id : ℕ) → LlmMode → UserChange

module _ ⦃p : Prisma⦄ where
  pub apply : UserChange → Db → Db
  apply (registers now api salt email password) db =
      (register_local_user api now salt email password db).1
  apply (signs_in now profile) db = (upsert_github_user now profile db).1
  apply (switches now user_id mode) db = (update_mode now user_id mode db).1

  pub run : List UserChange → Db → Db
  run [] db = db
  run (c ∷ cs) db = run cs (apply c db)

  register-AreUnique :
      (now : ℕ) (api : AuthApi) (salt email password : String) (db : Db)
      → AreUnique db
      → AreUnique (register_local_user api now salt email password db).1
  unfolding register_local_user
  register-AreUnique now api salt email password db unique =
      elim (Option-cases (find_by_email (normalized api email) db)) [
        | inl unused ↦
            rw (unused, register_local_user)
              (create-AreUnique
                (new_user now none none (some (normalized api email))
                  (some (api.hash salt password 12)) none db)
                db
                (λ e same. nobody-email e db (
                  subst (λ x. find_by_email x db ≡ none) ((eq_iff (normalized api email) e).0 same)
                    unused))
                (λ g same. cc) unique)
        | inr (old, taken) ↦ rw (taken, register_local_user) unique
      ]

  module _ (now : ℕ) (profile : GithubUserProfile) (db : Db) where
    abbrev id_text : String
    id_text = decimal profile.id

    -- Only the user with the id at GitHub may have the address of the profile.
    only_own :
        (email : String)
        → profile.email ≡ some email
        → email_taken id_text profile.email db ≡ false
        → any (λ u. has_email email u && not (has_github id_text u)) (p.rows db.users) ≡ false
    only_own email is_it untaken = rw is_it at untaken

    created :
        AreUnique db
        → find_by_github_id id_text db ≡ none
        → email_taken id_text profile.email db ≡ false
        → AreUnique (record db {
          users =
              p.create
                (new_user now
                  (some id_text)
                  (some profile.login)
                  profile.email
                  none
                  (some profile.avatar_url)
                  db)
                db.users;
        })
    created unique unknown untaken =
        let row =
          new_user now (some id_text) (some profile.login) profile.email none
            (some profile.avatar_url) db in
        create-AreUnique row db
          (λ email same.
            let own =
              count-within (has_email email) (has_github id_text) (p.rows db.users)
                (only_own email (has_email-holds email row same) untaken) in
            omega (arith, own, nobody-github id_text db unknown))
          (λ g same.
            nobody-github g db
              (subst (λ x. find_by_github_id x db ≡ none) ((eq_iff id_text g).0 same) unknown))
          unique

    updated :
        AreUnique db
        → User
        → email_taken id_text profile.email db ≡ false
        → AreUnique (record db {
          users = p.update_many (has_github id_text) (refresh_user now profile) db.users;
        })
    updated (emails, githubs) old untaken =
        let f = refresh_user now profile in
        let mine = has_github id_text in
        (
          λ email.
              rw (p.rows-update_many mine f db.users) (elim (Bool-cases (has_email email (f old))) [
                | inl same ↦ omega (
                  arith,
                  githubs id_text,
                  count-map_within (has_email email) mine f (p.rows db.users)
                      (only_own email (has_email-holds email (f old) same) untaken),
                )
                | inr other ↦ omega (
                  arith,
                  emails email,
                  count-map_where (has_email email) mine f (p.rows db.users) (λ u same. cc),
                )
              ]),
          λ g. rw (p.rows-update_many mine f db.users) (
              omega (
                arith,
                githubs g,
                count-map_where (has_github g) mine f (p.rows db.users) (λ u same. same),
              )),
        )

    upsert-AreUnique : AreUnique db → AreUnique (upsert_github_user now profile db).1
    unfolding upsert_github_user
    upsert-AreUnique unique = elim (Bool-cases (email_taken id_text profile.email db)) [
      | inl taken ↦ rw (taken, upsert_github_user) unique
      | inr untaken ↦ elim (Option-cases (find_by_github_id id_text db)) [
        | inl unknown ↦
            rw (untaken, upsert_github_user) (rw unknown (created unique unknown untaken))
        | inr (old, known) ↦
            rw (untaken, upsert_github_user) (rw known (updated unique old untaken))
      ]
    ]

  switch-AreUnique :
      (now user_id : ℕ) (mode : LlmMode) (db : Db)
      → AreUnique db
      → AreUnique (update_mode now user_id mode db).1
  unfolding update_mode
  switch-AreUnique now user_id mode db unique = elim (Bool-cases (may_switch user_id mode db)) [
    | inr refused ↦ rw (refused, update_mode) unique
    | inl allowed ↦ elim (Option-cases (find_unique (λ (u : User). u.id) user_id db.users)) [
      | inl missing ↦ rw (allowed, update_mode) (rw missing unique)
      | inr (u, found) ↦
          rw (allowed, update_mode)
            (rw found (
              update-AreUnique (λ u. u.id == user_id)
                (λ u. record u { llm_mode = mode; updated_at = now }) db (λ u. refl) (λ u. refl)
                unique))
    ]
  ]

  -- In any history of registrations, GitHub sign-ins and changes of the mode, no e-mail address and
  -- no id at GitHub comes to belong to two users.
  pub run-AreUnique : (cs : List UserChange) (db : Db) → AreUnique db → AreUnique (run cs db)
  unfolding run apply
  run-AreUnique [] db unique = unique
  run-AreUnique (registers now api salt email password ∷ cs) db unique =
      run-AreUnique cs (apply (registers now api salt email password) db)
        (register-AreUnique now api salt email password db unique)
  run-AreUnique (signs_in now profile ∷ cs) db unique =
      run-AreUnique cs (apply (signs_in now profile) db) (upsert-AreUnique now profile db unique)
  run-AreUnique (switches now user_id mode ∷ cs) db unique =
      run-AreUnique cs (apply (switches now user_id mode) db)
        (switch-AreUnique now user_id mode db unique)
