-- ===== src/PullRequest/Links.antt =====
-- The operations of src/pull-request/pull-request.service.ts leave no foreign key that leads nowhere.
use pr_sentinel_backend.Base.{
  ℕ, String, ◌≡◌, refl, ◌∙◌, inl, inr, Bool, true, not, ◌||◌, List, map, Option, none, some,
  is_some, ◌==◌, Option-cases, Bool-cases,
}
use pr_sentinel_backend.Prisma.{Prisma}
use pr_sentinel_backend.Schema.{PullRequest}
use pr_sentinel_backend.Database.{Db}
use pr_sentinel_backend.Database.Links.{
  has, Covers-update_many, Covers-upsert, has-upsert, has-found, has-update_many,
  Linked-update_many, Linked-upsert, Linked-delete_many, Linked-create_many,
}
use pr_sentinel_backend.Database.Links.Tables.{
  IsLinked, with_pull_requests-IsLinked, with_files-IsLinked,
}
use pr_sentinel_backend.Payloads.{GithubPullRequest, GithubPrFile, PullRequestTriggerAction}
use pr_sentinel_backend.PullRequest.{
  find_by_github_pr_id, is_opened, was_delivered, refresh_pull_request, new_pull_request,
  resynchronize, create_or_update, update_existing, upsert_pull_request, pr_file_data, new_pr_file,
  replace_pr_files, set_failed, mark_failed,
}

module _ ⦃p : Prisma⦄ where
  abbrev pub HasPullRequest : ℕ → Db → Type 0
  HasPullRequest id db = has (λ pr. pr.id) id db.pull_requests ≡ true

  -- The row, if there is one, is a pull request that is there.
  abbrev pub RowIsThere : Option PullRequest → Db → Type 0
  RowIsThere none db = Unit
  RowIsThere (some pr) db = HasPullRequest pr.id db

module _ ⦃p : Prisma⦄ (now : ℕ) where
  -- A write to pull requests that leaves their ids and their repositories.
  pub updated-IsLinked :
      (test : PullRequest → Bool) (f : PullRequest → PullRequest) (db : Db)
      → ((pr : PullRequest) → (f pr).id ≡ pr.id)
      → ((pr : PullRequest) → (f pr).repository_id ≡ pr.repository_id)
      → IsLinked db
      → IsLinked (record db { pull_requests = p.update_many test f db.pull_requests })
  updated-IsLinked test f db same_id same_repository linked =
      with_pull_requests-IsLinked db (p.update_many test f db.pull_requests)
        (Covers-update_many (λ pr. pr.id) test f db.pull_requests same_id)
        (Linked-update_many (λ pr. pr.repository_id) (λ r. r.id) test f db.pull_requests
          db.repositories (λ pr h. rw (same_repository pr) h) linked.1)
        linked

  create_or_update-IsLinked :
      (repository_id : ℕ) (pr : GithubPullRequest) (delivery_id : String) (db : Db)
      → has (λ r. r.id) repository_id db.repositories ≡ true
      → IsLinked db
      → let (row, db') = create_or_update now repository_id pr delivery_id db in
        IsLinked db' × RowIsThere row db'
  unfolding create_or_update new_pull_request refresh_pull_request
  create_or_update-IsLinked repository_id pr delivery_id db there linked =
      let new = new_pull_request now db repository_id pr delivery_id in
      let f = refresh_pull_request now repository_id pr delivery_id in
      (
        with_pull_requests-IsLinked db
            (create_or_update now repository_id pr delivery_id db).1.pull_requests
            (Covers-upsert (λ r. r.id) (λ r. r.github_pr_id) pr.id new f (λ r. refl)
              db.pull_requests)
            (Linked-upsert (λ r. r.repository_id) (λ r. r.id) (λ r. r.github_pr_id) pr.id new f
              db.pull_requests db.repositories there (λ r h. there) linked.1)
            linked,
        has-upsert (λ r. r.id) (λ r. r.github_pr_id) pr.id new f (λ r. refl) db.pull_requests,
      )

  update_existing-IsLinked :
      (pr : GithubPullRequest) (delivery_id : String) (db : Db)
      → IsLinked db
      → let (row, db') = update_existing now pr delivery_id (find_by_github_pr_id pr.id db) db in
        IsLinked db' × RowIsThere row db'
  unfolding update_existing resynchronize
  update_existing-IsLinked pr delivery_id db linked =
      let test : PullRequest → Bool = λ r. r.github_pr_id == pr.id in
      let f = resynchronize now pr delivery_id in
      (
        updated-IsLinked test f db (λ r. refl) (λ r. refl) linked,
        elim (Option-cases (find_by_github_pr_id pr.id db)) [
          | inl e ↦ rw e tt
          | inr (r, e) ↦ rw e (
              has-update_many (λ x. x.id) test f db.pull_requests r.id (λ x. refl)
              ∙ has-found (λ x. x.id) test db.pull_requests e)
        ],
      )

  -- The row that an upsert of a pull request returns is there.
  pub upsert_pull_request-IsLinked :
      (repository_id : ℕ) (pr : GithubPullRequest) (action : PullRequestTriggerAction)
      (delivery_id : String) (db : Db)
      → has (λ r. r.id) repository_id db.repositories ≡ true
      → IsLinked db
      → let (row, db') = upsert_pull_request now repository_id pr action delivery_id db in
        IsLinked db' × RowIsThere row db'
  unfolding upsert_pull_request
  upsert_pull_request-IsLinked repository_id pr action delivery_id db there linked =
      let existing = find_by_github_pr_id pr.id db in
      elim (Bool-cases (was_delivered delivery_id existing)) [
        | inl again ↦ rw (again, upsert_pull_request) (linked, tt)
        | inr new ↦ elim (Bool-cases (is_opened action || not (is_some existing))) [
          | inl creates ↦
              rw (new, upsert_pull_request)
                (rw creates
                  (create_or_update-IsLinked repository_id pr delivery_id db there linked))
          | inr updates ↦
              rw (new, upsert_pull_request)
                (rw updates (update_existing-IsLinked pr delivery_id db linked))
        ]
      ]

  pub replace_pr_files-IsLinked :
      (pull_request_id : ℕ) (files : List GithubPrFile) (db : Db)
      → HasPullRequest pull_request_id db
      → IsLinked db
      → IsLinked (replace_pr_files now pull_request_id files db)
  unfolding replace_pr_files new_pr_file
  replace_pr_files-IsLinked pull_request_id files db there linked =
      let kept = p.delete_many (λ f. f.pull_request_id == pull_request_id) db.pr_files in
      with_files-IsLinked db (replace_pr_files now pull_request_id files db).pr_files
        (Linked-create_many (λ f. f.pull_request_id) (λ pr. pr.id) (λ f. f.id)
          (new_pr_file now pull_request_id) (map pr_file_data files) kept db.pull_requests
          (λ n d. there)
          (Linked-delete_many (λ f. f.pull_request_id) (λ pr. pr.id)
            (λ f. f.pull_request_id == pull_request_id) db.pr_files db.pull_requests linked.2))
        linked

  pub mark_failed-IsLinked :
      (id : ℕ) (message : String) (db : Db) → IsLinked db → IsLinked (mark_failed now id message db)
  unfolding mark_failed set_failed
  mark_failed-IsLinked id message db =
      updated-IsLinked (λ r. r.id == id) (set_failed now message) db (λ r. refl) (λ r. refl)
