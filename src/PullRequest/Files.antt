-- ===== src/PullRequest/Files.antt =====
-- `replacePrFiles` makes the stored files of a pull request those that GitHub reports.
use pr_sentinel_backend.Base.{
  ℕ, ◌≡◌, ◌∙◌, inl, inr, true, false, not, List, [], ◌∷◌, ◌++◌, map, arith, if◌then◌else◌, ◌==◌,
  Bool-cases, keep, keep-append, keep-keep_none, keep-keep_other,
}
use mathlib.Core.List.{append-nil, append_assoc, map-append}
use pr_sentinel_backend.Prisma.{Prisma, create_many, new_id}
use pr_sentinel_backend.Schema.{PrFile}
use pr_sentinel_backend.Database.{Db}
use pr_sentinel_backend.Payloads.{GithubPrFile}
use pr_sentinel_backend.PullRequest.{PrFileData, pr_file_data, new_pr_file, replace_pr_files}

-- The columns of a stored file that come from GitHub.
abbrev pub stored_data : PrFile → PrFileData
stored_data f = record {
  filename = f.filename;
  status = f.status;
  patch = f.patch;
  additions = f.additions;
  deletions = f.deletions;
  changes = f.changes;
}

module _ ⦃p : Prisma⦄ where
  -- The stored files of a pull request, in the order of their creation.
  abbrev pub files_of : ℕ → Db → List PrFileData
  files_of pull_request_id db =
      map stored_data (keep (λ f. f.pull_request_id == pull_request_id) (p.rows db.pr_files))

module _ ⦃p : Prisma⦄ (now : ℕ) where
  abbrev data_in : ℕ → List PrFile → List PrFileData
  data_in k rows = map stored_data (keep (λ f. f.pull_request_id == k) rows)

  data_in-create_many :
      (k pull_request_id : ℕ) (ds : List PrFileData) (t : p.Table PrFile)
      → data_in k (p.rows (create_many (λ f. f.id) (new_pr_file now pull_request_id) ds t))
        ≡ data_in k (p.rows t) ++ (if k == pull_request_id then ds else [])
  unfolding create_many new_pr_file
  data_in-create_many k pull_request_id [] t = elim (Bool-cases (k == pull_request_id)) [
    | inl same ↦ rw (same, append-nil)
    | inr other ↦ rw (other, append-nil)
  ]
  data_in-create_many k pull_request_id (d ∷ ds) t =
      data_in-create_many k pull_request_id ds t'
      ∙ rw
          (
            p.rows-create (new_pr_file now pull_request_id (new_id (λ f. f.id) t) d) t,
            keep-append (λ f. f.pull_request_id == k) (p.rows t),
          )
          (rw (map-append) (elim (Bool-cases (k == pull_request_id)) [
            | inl same ↦
                let k' : (pull_request_id == k) ≡ true = ground arith in
                rw (same, k') (append_assoc (data_in k (p.rows t)) (d ∷ []) ds)
            | inr other ↦
                let k' : (pull_request_id == k) ≡ false = ground arith in
                rw (other, k') (append_assoc (data_in k (p.rows t)) [] [])
          ]))
    where
      t' : p.Table PrFile
      t' = p.create (new_pr_file now pull_request_id (new_id (λ f. f.id) t) d) t

  -- After the replacement the pull request has exactly the files that GitHub reports, in that
  -- order, with their statuses mapped, and every other pull request has the files that it had.
  pub files_of-replace_pr_files :
      (k pull_request_id : ℕ) (files : List GithubPrFile) (db : Db)
      → files_of k (replace_pr_files now pull_request_id files db)
        ≡ (if k == pull_request_id then map pr_file_data files else files_of k db)
  unfolding replace_pr_files
  files_of-replace_pr_files k pull_request_id files db =
      data_in-create_many k pull_request_id (map pr_file_data files)
        (p.delete_many (λ f. f.pull_request_id == pull_request_id) db.pr_files)
      ∙ rw (p.rows-delete_many (λ f. f.pull_request_id == pull_request_id) db.pr_files)
          (elim (Bool-cases (k == pull_request_id)) [
            | inl same ↦ rw (
              same,
              keep-keep_none (λ f. f.pull_request_id == k)
                  (λ f. not (f.pull_request_id == pull_request_id)) (p.rows db.pr_files)
                  (λ f hit. ground arith),
            )
            | inr other ↦ rw (
              other,
              append-nil,
              keep-keep_other (λ f. f.pull_request_id == k)
                  (λ f. not (f.pull_request_id == pull_request_id)) (p.rows db.pr_files)
                  (λ f hit. ground arith),
            )
          ])
