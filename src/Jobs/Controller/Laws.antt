-- ===== src/Jobs/Controller/Laws.antt =====
-- Requests that change jobs keep the dates of applications.
use prismacv_backend.Shared.{
  ℕ, ◌≡◌, refl, String, some, str_eq, ok, M, ◌>>=◌, inl, inr, Bool-cases, Option-cases,
  Result-cases,
}
use prismacv_backend.Jobs.Model.{
  Job, JobNote, JobPrisma, JobDb, FullJob, CreateJobRequest, new_job, applied_now, patch_job,
  set_status,
}
use prismacv_backend.Jobs.Service.{
  find_job_or_throw, with_notes, create, update, update_status, remove, add_note, delete_note,
  change_job, delete_job, is_note_of, write_note, drop_note,
}
use prismacv_backend.Jobs.Service.Dates.{
  IsDated, Keeps, Keeps-refl, create-Keeps, delete-Keeps, IsDating, update-Keeps, patch-IsDating,
  status-IsDating,
}
use prismacv_backend.Jobs.Controller.{JobRequest, serve, Steps, done}

module _ (p : JobPrisma) where
  module _ {A : Type 0} (job_id user_id : String) (f : FullJob → M (JobDb p) A) (db : JobDb p) where
    owned-Keeps :
        ((c : Job)
          → p.jobs.find db.jobs job_id ≡ some c
          → Keeps p db.jobs ((f (with_notes p db c) db).1).jobs)
        → Keeps p db.jobs (((find_job_or_throw p job_id user_id >>= f) db).1).jobs
    unfolding find_job_or_throw
    owned-Keeps h = elim (Option-cases (p.jobs.find db.jobs job_id)) [
      | inl e ↦ rw e (Keeps-refl p db.jobs)
      | inr (j, e) ↦ elim (Bool-cases (str_eq j.user_id user_id)) [
        | inl own ↦ rw (e, own) (h j e)
        | inr other ↦ rw (e, other) (Keeps-refl p db.jobs)
      ]
    ]

  change_job-Keeps :
      (job_id : String) (f : Job → Job) (db : JobDb p) (c : Job)
      → p.jobs.find db.jobs job_id ≡ some c
      → ((j : Job) → (f j).id ≡ j.id)
      → IsDating p c (f c)
      → Keeps p db.jobs ((change_job p job_id f db).1).jobs
  change_job-Keeps job_id f db c there same dating =
      elim (Result-cases (p.jobs.update db.jobs job_id f)) [
        | inl ((changed, jobs), e) ↦
            rw e (update-Keeps p db.jobs jobs job_id c changed f there same e dating)
        | inr (x, e) ↦ rw e (Keeps-refl p db.jobs)
      ]

  done-Keeps :
      {A : Type 0} (m : M (JobDb p) A) (db : JobDb p)
      → Keeps p db.jobs ((m db).1).jobs
      → Keeps p db.jobs ((done p m db).1).jobs
  done-Keeps m db h = elim (Result-cases (m db).0) [ inl (a, e) ↦ rw e h | inr (x, e) ↦ rw e h ]

  create_lem :
      (id : String) (now : ℕ) (user_id : String) (dto : CreateJobRequest) (db : JobDb p)
      → Keeps p db.jobs ((create p id now user_id dto db).1).jobs
  unfolding create
  create_lem id now user_id dto db =
      elim (Result-cases (p.jobs.create db.jobs (new_job id now user_id dto))) [
        | inl (jobs, e) ↦ rw e (create-Keeps p db.jobs jobs id now user_id dto e)
        | inr (x, e) ↦ rw e (Keeps-refl p db.jobs)
      ]

  write_note-Keeps : (n : JobNote) (db : JobDb p) → Keeps p db.jobs ((write_note p n db).1).jobs
  write_note-Keeps n db = elim (Result-cases (p.notes.create db.notes n)) [
    | inl (notes, e) ↦ rw e (Keeps-refl p db.jobs)
    | inr (x, e) ↦ rw e (Keeps-refl p db.jobs)
  ]

  drop_note-Keeps :
      (id note_id : String) (db : JobDb p) → Keeps p db.jobs ((drop_note p id note_id db).1).jobs
  drop_note-Keeps id note_id db =
      elim (Bool-cases (is_note_of p id (p.notes.find db.notes note_id))) [
        | inl e ↦ rw e (Keeps-refl p db.jobs)
        | inr e ↦ rw e (Keeps-refl p db.jobs)
      ]

  serve-Keeps :
      (user_id : String) (request : JobRequest) (db : JobDb p)
      → Keeps p db.jobs ((serve p user_id request db).1).jobs
  unfolding serve update update_status remove add_note delete_note
  serve-Keeps user_id (JobRequest.create_job id now dto) db =
      done-Keeps (create p id now user_id dto) db (create_lem id now user_id dto db)
  serve-Keeps user_id (JobRequest.update_job now id dto) db =
      done-Keeps (update p now id user_id dto) db (
        owned-Keeps id user_id
          (λ existing. change_job p id (patch_job dto (applied_now now dto.status existing.job))) db
          (λ c there.
            change_job-Keeps id (patch_job dto (applied_now now dto.status c)) db c there
              (λ j. refl) (patch-IsDating p now dto c)))
  serve-Keeps user_id (JobRequest.set_job_status now id status) db =
      done-Keeps (update_status p now id user_id status) db (
        owned-Keeps id user_id
          (λ existing.
            change_job p id (set_status status (applied_now now (some status) existing.job)))
          db
          (λ c there.
            change_job-Keeps id (set_status status (applied_now now (some status) c)) db c there
              (λ j. refl) (status-IsDating p now status c)))
  serve-Keeps user_id (JobRequest.remove_job id) db =
      owned-Keeps id user_id (λ job db. (ok tt, delete_job p id db)) db
        (λ c there. delete-Keeps p db.jobs id)
  serve-Keeps user_id (JobRequest.note_job note_id id content) db =
      done-Keeps (add_note p note_id id user_id content) db (
        owned-Keeps id user_id
          (λ job. write_note p (record { id = note_id; job_id = id; content = content })) db
          (λ c there.
            write_note-Keeps (record { id = note_id; job_id = id; content = content }) db))
  serve-Keeps user_id (JobRequest.unnote_job id note_id) db =
      owned-Keeps id user_id (λ job. drop_note p id note_id) db
        (λ c there. drop_note-Keeps id note_id db)

  -- A date of application that is set stays as it is, whatever is requested by whom, while the job is
  -- there.
  pub serve-IsDateKept :
      (user_id : String) (request : JobRequest) (db : JobDb p) (k : String) (j j' : Job) (at : ℕ)
      → p.jobs.find db.jobs k ≡ some j
      → j.applied_at ≡ some at
      → p.jobs.find ((serve p user_id request db).1).jobs k ≡ some j'
      → j'.applied_at ≡ some at
  serve-IsDateKept user_id request db = (serve-Keeps user_id request db).1

  -- However many requests of any users are served, where every job that is applied for had a date of
  -- application at the start, every such job has one at the end.
  pub Steps-IsDated : (db db' : JobDb p) → Steps p db db' → IsDated p db.jobs → IsDated p db'.jobs
  Steps-IsDated db db' (Steps.none_left _) h = h
  Steps-IsDated db db' (Steps.one_more _ mid user_id request before) h =
      (serve-Keeps user_id request mid).0 (Steps-IsDated db mid before h)
