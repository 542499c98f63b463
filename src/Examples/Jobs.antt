-- ===== src/Examples/Jobs.antt =====
-- Jobs in memory, and the theorems on them.
use prismacv_backend.Shared.{◌≡◌, refl, true, some, none, [], ◌∷◌, ok, arith}
use prismacv_backend.Shared.Table.InMemory.{in_memory}
use prismacv_backend.Jobs.Model.{
  Job, JobStatus, JobStats, JobPrisma, JobDb, job_key, note_key, count_in,
}
use prismacv_backend.Jobs.Service.{get_stats}
use prismacv_backend.Jobs.Service.Dates.{IsDated}
use prismacv_backend.Jobs.Service.Stats.{get_stats_total, sum_counts, jobs_in}
use prismacv_backend.Jobs.Controller.{JobRequest, serve, Steps}
use prismacv_backend.Jobs.Controller.Laws.{Steps-IsDated, serve-IsDateKept}

abbrev job_prisma : JobPrisma
job_prisma = record { jobs = in_memory job_key (λ j. []); notes = in_memory note_key (λ n. []) }

abbrev applied_job : Job
applied_job = record {
  id = "j1";
  user_id = "u1";
  title = "Engineer";
  company = "Acme";
  url = none;
  location = none;
  is_remote = true;
  salary_min = none;
  salary_max = none;
  salary_currency = none;
  status = JobStatus.applied;
  applied_at = some 50;
  notes = none;
}

abbrev job_db : JobDb job_prisma
job_db = record { jobs = applied_job ∷ []; notes = [] }

job_db-IsDated : IsDated job_prisma job_db.jobs
job_db-IsDated k j e s = ground (arith, e, s)

abbrev to_offer : JobRequest
to_offer = JobRequest.set_job_status 70 "j1" JobStatus.offer

abbrev back_to_applied : JobRequest
back_to_applied = JobRequest.set_job_status 90 "j1" JobStatus.applied

Steps-IsDated_example :
    IsDated job_prisma
      ((serve job_prisma "u1" back_to_applied (serve job_prisma "u1" to_offer job_db).1).1).jobs
Steps-IsDated_example =
    Steps-IsDated job_prisma job_db
      (serve job_prisma "u1" back_to_applied (serve job_prisma "u1" to_offer job_db).1).1
      (Steps.one_more job_db (serve job_prisma "u1" to_offer job_db).1 "u1" back_to_applied
        (Steps.one_more job_db job_db "u1" to_offer (Steps.none_left job_db)))
      job_db-IsDated

abbrev offered_job : Job
offered_job = record applied_job { status = JobStatus.offer }

offer_run :
    job_prisma.jobs.find ((serve job_prisma "u1" to_offer job_db).1).jobs "j1" ≡ some offered_job
unfolding serve
offer_run = refl

serve-IsDateKept_example : offered_job.applied_at ≡ some 50
serve-IsDateKept_example =
    serve-IsDateKept job_prisma "u1" to_offer job_db "j1" applied_job offered_job 50 refl refl
      offer_run

abbrev stats : JobStats
stats = record {
  total = 1;
  by_status = (JobStatus.applied, 1) ∷ [];
  applied_this_week = 1;
  pending_interviews = 0;
  active_offers = 0;
}

stats_run : get_stats job_prisma 40 "u1" job_db ≡ (ok stats, job_db)
unfolding get_stats
stats_run = refl

get_stats_total_example :
    (sum_counts stats.by_status ≡ 1)
    × ((s : JobStatus) → count_in s stats.by_status ≡ jobs_in job_prisma job_db "u1" s)
    × (0 ≡ jobs_in job_prisma job_db "u1" JobStatus.interview)
    × (0 ≡ jobs_in job_prisma job_db "u1" JobStatus.offer)
get_stats_total_example = get_stats_total job_prisma job_db "u1" 40 stats job_db stats_run
