-- ===== src/Jobs/Service.antt =====
-- src/modules/jobs/jobs.service.ts: the tracker of job applications.
pub mod Dates
pub mod Stats
use prismacv_backend.Shared.{
  map, take, is_one_of, ℕ, ◌+◌, String, Bool, true, false, not, ◌&&◌, Option, none, some, List, [],
  ◌∷◌, if◌then◌else◌, str_eq, or_default, is_some, truthy, leb, ltb, ◌==◌, Result, ok, err, M, pure,
  guard, or_throw, stored, stored_with, ◌>>=◌, ◌>>◌, not_found, forbidden,
}
use prismacv_backend.Shared.Text.{◌&◌}
use prismacv_backend.Pagination.{PaginationQuery, PaginatedResponse, skip, paginated}
use prismacv_backend.Jobs.Model.{
  JobStatus, Job, JobNote, CreateJobRequest, UpdateJobRequest, FullJob, JobStats, JobPrisma, JobDb,
  new_job, applied_now, patch_job, set_status, is_listed, applied_since, count_in,
}

module _ (p : JobPrisma) where
  abbrev pub with_notes : JobDb p → Job → FullJob
  with_notes db j = record {
    job = j;
    job_notes = p.notes.find_sorted db.notes (λ n. str_eq n.job_id j.id) "createdAt" true;
  }

  unfoldable pub find_job_or_throw : String → String → M (JobDb p) FullJob
  find_job_or_throw job_id user_id db =
      (do
        job ←
            or_throw (p.jobs.find db.jobs job_id)
              (not_found ("Job with id " & job_id & " not found"))
        guard (str_eq job.user_id user_id) (forbidden "You do not have access to this job")
        pure (with_notes db job))
        db

  -- `id` is drawn by generateUuidv7, `now` is the clock.
  unfoldable pub create : String → ℕ → String → CreateJobRequest → M (JobDb p) FullJob
  create id now user_id dto db =
      (do
        stored (p.jobs.create db.jobs (new_job id now user_id dto))
            (λ jobs. record db { jobs = jobs })
        λ db. (ok (with_notes db (new_job id now user_id dto)), db))
        db

  abbrev pub job_column : Option String → String
  job_column none = "updatedAt"
  job_column (some c) =
      if is_one_of c ("createdAt" ∷ "updatedAt" ∷ "title" ∷ "company" ∷ "status" ∷ [])
      then c
      else "updatedAt"

  -- A job with its newest note.
  abbrev pub with_newest : JobDb p → Job → FullJob
  with_newest db j = record (with_notes db j) { job_notes = take 1 (with_notes db j).job_notes }

  unfoldable pub find_all_by_user :
      String → PaginationQuery → Option JobStatus → M (JobDb p) (PaginatedResponse FullJob)
  unfolding paginated
  find_all_by_user user_id q status db =
      let jobs = map (with_newest db) (
        p.jobs.find_page db.jobs (is_listed user_id status) (job_column (truthy q.sort_by))
          q.descending (skip q) q.limit) in
      (ok (paginated jobs (p.jobs.count db.jobs (is_listed user_id status)) q.page q.limit), db)

  unfoldable pub find_one : String → String → M (JobDb p) FullJob
  unfolding find_job_or_throw
  find_one job_id user_id = find_job_or_throw job_id user_id

  abbrev pub change_job : String → (Job → Job) → M (JobDb p) FullJob
  change_job job_id f db =
      (do
        j ← stored_with (p.jobs.update db.jobs job_id f) (λ jobs. record db { jobs = jobs })
        λ db. (ok (with_notes db j), db))
        db

  unfoldable pub update : ℕ → String → String → UpdateJobRequest → M (JobDb p) FullJob
  unfolding find_job_or_throw
  update now job_id user_id dto = do
    existing ← find_job_or_throw job_id user_id
    change_job job_id (patch_job dto (applied_now now dto.status existing.job))

  unfoldable pub update_status : ℕ → String → String → JobStatus → M (JobDb p) FullJob
  unfolding find_job_or_throw
  update_status now job_id user_id status = do
    existing ← find_job_or_throw job_id user_id
    change_job job_id (set_status status (applied_now now (some status) existing.job))

  -- `job.delete`, with the notes, which the foreign key of the database deletes.
  abbrev pub delete_job : String → JobDb p → JobDb p
  delete_job job_id db = record {
    jobs = p.jobs.delete_many db.jobs (λ j. str_eq j.id job_id);
    notes = p.notes.delete_many db.notes (λ n. str_eq n.job_id job_id);
  }

  unfoldable pub remove : String → String → M (JobDb p) (Unit {0})
  unfolding find_job_or_throw
  remove job_id user_id = do
    job ← find_job_or_throw job_id user_id
    λ db. (ok tt, delete_job job_id db)

  abbrev pub write_note : JobNote → M (JobDb p) JobNote
  write_note n db =
      (do stored (p.notes.create db.notes n) (λ notes. record db { notes = notes }); pure n) db

  unfoldable pub add_note : String → String → String → String → M (JobDb p) JobNote
  unfolding find_job_or_throw
  add_note id job_id user_id content = do
    job ← find_job_or_throw job_id user_id
    write_note (record { id = id; job_id = job_id; content = content })

  abbrev pub is_note_of : String → Option JobNote → Bool
  is_note_of job_id none = false
  is_note_of job_id (some n) = str_eq n.job_id job_id

  abbrev pub drop_note : String → String → M (JobDb p) (Unit {0})
  drop_note job_id note_id db =
      (do
        guard (is_note_of job_id (p.notes.find db.notes note_id)) (not_found "Note not found")
        λ db.
            (ok tt, record db { notes = p.notes.delete_many db.notes (λ n. str_eq n.id note_id) }))
        db

  unfoldable pub delete_note : String → String → String → M (JobDb p) (Unit {0})
  unfolding find_job_or_throw
  delete_note job_id note_id user_id = do
    job ← find_job_or_throw job_id user_id
    drop_note job_id note_id

  -- `groupBy` with a count: the statuses that some job of the user has.
  abbrev pub group_counts : (JobStatus → ℕ) → List JobStatus → List (JobStatus × ℕ)
  group_counts f [] = []
  group_counts f (s ∷ ss) =
      let rest = group_counts f ss in if f s == 0 then rest else (s, f s) ∷ rest

  abbrev pub status_counts : JobDb p → String → List (JobStatus × ℕ)
  status_counts db user_id =
      group_counts (λ s. p.jobs.count db.jobs (is_listed user_id (some s)))
        (JobStatus.saved ∷ JobStatus.applied ∷ JobStatus.interview ∷ JobStatus.offer
          ∷ JobStatus.rejected ∷ [])

  -- `one_week_ago` is the time seven days back.
  unfoldable pub get_stats : ℕ → String → M (JobDb p) JobStats
  get_stats one_week_ago user_id db =
      let by_status = status_counts db user_id in
      (
        ok (record {
          total = p.jobs.count db.jobs (λ j. str_eq j.user_id user_id);
          by_status = by_status;
          applied_this_week =
              p.jobs.count db.jobs
                (λ j. str_eq j.user_id user_id && applied_since one_week_ago j.applied_at);
          pending_interviews = count_in JobStatus.interview by_status;
          active_offers = count_in JobStatus.offer by_status;
        }),
        db,
      )
