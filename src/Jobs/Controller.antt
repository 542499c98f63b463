-- ===== src/Jobs/Controller.antt =====
-- src/modules/jobs/jobs.controller.ts: the routes that change jobs, each as a request and what it calls.
pub mod Laws
use prismacv_backend.Shared.{ℕ, String, M, pure, ◌>>=◌}
use prismacv_backend.Jobs.Model.{JobStatus, CreateJobRequest, UpdateJobRequest, JobPrisma, JobDb}
use prismacv_backend.Jobs.Service.{create, update, update_status, remove, add_note, delete_note}

-- The ids that the service draws and the time are part of a request.
pub data JobRequest : Type 0 where
  create_job : String → ℕ → CreateJobRequest → JobRequest
  update_job : ℕ → String → UpdateJobRequest → JobRequest
  set_job_status : ℕ → String → JobStatus → JobRequest
  remove_job : String → JobRequest
  note_job : String → String → String → JobRequest
  unnote_job : String → String → JobRequest

module _ (p : JobPrisma) where
  abbrev pub done : {A : Type 0} → M (JobDb p) A → M (JobDb p) (Unit {0})
  done m = m >>= λ _. pure tt

  unfoldable pub serve : String → JobRequest → M (JobDb p) (Unit {0})
  unfolding create update update_status remove add_note delete_note
  serve user_id (JobRequest.create_job id now dto) = done (create p id now user_id dto)
  serve user_id (JobRequest.update_job now id dto) = done (update p now id user_id dto)
  serve user_id (JobRequest.set_job_status now id status) =
      done (update_status p now id user_id status)
  serve user_id (JobRequest.remove_job id) = remove p id user_id
  serve user_id (JobRequest.note_job note_id id content) =
      done (add_note p note_id id user_id content)
  serve user_id (JobRequest.unnote_job id note_id) = delete_note p id note_id user_id

  -- Requests of any users, one after the other.
  pub data Steps : JobDb p → JobDb p → Type 0 where
    none_left : (db : JobDb p) → Steps db db
    one_more :
        (db mid : JobDb p) (user_id : String) (request : JobRequest)
        → Steps db mid
        → Steps db (serve user_id request mid).1
