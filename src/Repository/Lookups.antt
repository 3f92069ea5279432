-- ===== src/Repository/Lookups.antt =====
-- What each operation on installations and repositories does to a lookup, under the operation's
-- own key and under every other.
use mathlib.Core.Option
use pr_sentinel_backend.Base.{
  ℕ, String, ◌≡◌, refl, sym, subst, ◌∙◌, inl, inr, true, false, not, Option, none, some, arith,
  if◌then◌else◌, ◌==◌, ==_iff, Option-cases, Bool-cases, find-keep_other, find-keep-none,
}
use pr_sentinel_backend.Prisma.{Prisma}
use pr_sentinel_backend.Prisma.Keyed.{
  upsert, upserted, upsert-row, upsert-create, upsert-update, find-update, find-upsert,
}
use pr_sentinel_backend.Schema.{Installation}
use pr_sentinel_backend.Database.{Db, delete_cascade, is_deleted}
use pr_sentinel_backend.Repository.Installations.{
  find_installation_by_github_id, delete_installation, is_unclaimed, new_installation,
  upsert_installation, suspend_installation, unsuspend_installation, set_suspended,
  claim_installation, relink_installation, upsert_installation_with_user,
  find_or_create_installation,
}

module _ ⦃p : Prisma⦄ where
  pub find-delete_installation :
      (j k : ℕ) (db : Db)
      → find_installation_by_github_id j (delete_installation k db)
        ≡ (if j == k then none else find_installation_by_github_id j db)
  unfolding delete_installation delete_cascade
  find-delete_installation j k db = elim (Option-cases (find_installation_by_github_id k db)) [
    | inl absent ↦ rw (absent, delete_installation) (ground (arith, ==_iff j k))
    | inr (i, found) ↦
        rw (found, delete_installation)
          (rw (p.rows-delete_many (is_deleted k) db.installations) (elim (Bool-cases (j == k)) [
            | inl same ↦ rw same (
                find-keep-none (λ r. r.github_installation_id == j) (λ r. not (is_deleted k r))
                  (p.rows db.installations) (λ r hit. ground (arith, ==_iff j k)))
            | inr other ↦ rw other (
                find-keep_other (λ r. r.github_installation_id == j) (λ r. not (is_deleted k r))
                  (p.rows db.installations) (λ r hit. ground (arith, ==_iff j k)))
          ]))
  ]

module _ ⦃p : Prisma⦄ (now : ℕ) where
  -- The suspended flag set, or a suspended placeholder.
  abbrev pub suspended_row : ℕ → Db → Installation
  suspended_row k db =
      upserted (find_installation_by_github_id k db) (new_installation now db k none none none true)
        (set_suspended now true)

  suspend-upsert :
      (k : ℕ) (db : Db)
      → (suspend_installation now k db).installations
        ≡ (upsert
            (λ i. i.github_installation_id)
            k
            (new_installation now db k none none none true)
            (set_suspended now true)
            db.installations).1
  unfolding suspend_installation
  suspend-upsert k db = elim (Option-cases (find_installation_by_github_id k db)) [
    | inl e ↦ rw (e, suspend_installation) (upsert-create _ k _ _ db.installations e)
    | inr (i, e) ↦ rw (e, suspend_installation) (upsert-update _ k _ _ db.installations e)
  ]

  pub find-suspend_installation :
      (j k : ℕ) (db : Db)
      → find_installation_by_github_id j (suspend_installation now k db)
        ≡ (if j == k then some (suspended_row k db) else find_installation_by_github_id j db)
  unfolding new_installation
  find-suspend_installation j k db = rw (suspend-upsert k db) (
      find-upsert _ k _ (λ r. refl) j (new_installation now db k none none none true)
        db.installations refl)

  pub find-unsuspend_installation :
      (j k : ℕ) (db : Db)
      → find_installation_by_github_id j (unsuspend_installation now k db) ≡ (
          if j == k
          then Option.map (set_suspended now false) (find_installation_by_github_id k db)
          else find_installation_by_github_id j db)
  unfolding unsuspend_installation
  find-unsuspend_installation j k db = elim (Option-cases (find_installation_by_github_id k db)) [
    | inl e ↦
        rw (e, unsuspend_installation)
          (elim (Bool-cases (j == k)) [
            | inl same ↦ rw same (
                subst (λ (n : ℕ). find_installation_by_github_id n db ≡ none)
                  (sym ((==_iff j k).0 same)) e)
            | inr other ↦ rw other
          ])
    | inr (i, e) ↦
        rw (e, unsuspend_installation)
          (find-update _ k (set_suspended now false) (λ r. refl) j db.installations
            ∙ elim (Bool-cases (j == k)) [
              | inl same ↦ rw same (rw ((==_iff j k).0 same, e))
              | inr other ↦ rw other
            ])
  ]

  abbrev pub upserted_installation : ℕ → Option ℕ → Db → Installation
  upserted_installation k user_id db =
      upserted (find_installation_by_github_id k db)
        (new_installation now db k user_id none none false)
        (λ i. record i { suspended = false; updated_at = now })

  pub find-upsert_installation :
      (j k : ℕ) (user_id : Option ℕ) (db : Db)
      → find_installation_by_github_id j (upsert_installation now k user_id db).1 ≡ (
          if j == k
          then some (upserted_installation k user_id db)
          else find_installation_by_github_id j db)
  unfolding upsert_installation
  find-upsert_installation j k user_id db =
      find-upsert _ k _ (λ r. refl) j (new_installation now db k user_id none none false)
        db.installations refl

  pub upsert_installation-row :
      (k : ℕ) (user_id : Option ℕ) (db : Db)
      → (upsert_installation now k user_id db).0 ≡ upserted_installation k user_id db
  unfolding upsert_installation
  upsert_installation-row k user_id db = upsert-row _ k _ _ db.installations

  -- The row of a completed installation: created, claimed, or relinked to its owner.
  abbrev pub linked_row : ℕ → ℕ → String → String → Db → Installation
  linked_row k user_id login avatar db =
      upserted (find_installation_by_github_id k db)
        (new_installation now db k (some user_id) (some login) (some avatar) false)
        (if is_unclaimed (find_installation_by_github_id k db)
          then claim_installation now user_id login avatar
          else relink_installation now login avatar)

  pub find-upsert_installation_with_user :
      (j k user_id : ℕ) (login avatar : String) (db : Db)
      → find_installation_by_github_id j
          (upsert_installation_with_user now k user_id login avatar db).1
        ≡ (if j == k
            then some (linked_row k user_id login avatar db)
            else find_installation_by_github_id j db)
  unfolding upsert_installation_with_user claim_installation relink_installation
  find-upsert_installation_with_user j k user_id login avatar db =
      find-upsert _ k _ fixed j
        (new_installation now db k (some user_id) (some login) (some avatar) false) db.installations
        refl
    where
      fixed :
          (r : Installation)
          → ((if is_unclaimed (find_installation_by_github_id k db)
                then claim_installation now user_id login avatar
                else relink_installation now login avatar)
              r).github_installation_id
            ≡ r.github_installation_id
      fixed r = elim (Bool-cases (is_unclaimed (find_installation_by_github_id k db))) [
        | inl e ↦ rw e refl
        | inr e ↦ rw e refl
      ]

  pub upsert_installation_with_user-row :
      (k user_id : ℕ) (login avatar : String) (db : Db)
      → (upsert_installation_with_user now k user_id login avatar db).0
        ≡ linked_row k user_id login avatar db
  unfolding upsert_installation_with_user
  upsert_installation_with_user-row k user_id login avatar db = upsert-row _ k _ _ db.installations

  abbrev pub found_or_placeholder : ℕ → Db → Installation
  found_or_placeholder k db =
      upserted (find_installation_by_github_id k db)
        (new_installation now db k none none none false) (λ i. i)

  pub find-find_or_create_installation :
      (j k : ℕ) (db : Db)
      → find_installation_by_github_id j (find_or_create_installation now k db).1
        ≡ (if j == k then some (found_or_placeholder k db) else find_installation_by_github_id j db)
  unfolding find_or_create_installation
  find-find_or_create_installation j k db =
      elim (Option-cases (find_installation_by_github_id k db)) [
        | inl e ↦
            rw (e, find_or_create_installation)
              (rw (upsert-create (λ i. i.github_installation_id) k _ (λ i. i) db.installations e) (
                find-upsert _ k (λ i. i) (λ r. refl) j
                  (new_installation now db k none none none false) db.installations refl
                ∙ rw e))
        | inr (i, e) ↦
            rw (e, find_or_create_installation)
              (elim (Bool-cases (j == k)) [
                | inl same ↦ rw same (
                    subst (λ (n : ℕ). find_installation_by_github_id n db ≡ some i)
                      (sym ((==_iff j k).0 same)) e)
                | inr other ↦ rw other
              ])
      ]
