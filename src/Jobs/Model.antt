-- ===== src/Jobs/Model.antt =====
-- The rows of jobs (prisma/schema.prisma), the requests (src/modules/jobs/dto), and what the service
-- writes of them. `createdAt` and `updatedAt`, which the database fills in, are left out.
use prismacv_backend.Shared.{
  ℕ, String, Bool, true, false, not, ◌&&◌, Option, none, some, List, [], ◌∷◌, if◌then◌else◌, str_eq,
  or_default, is_some, leb,
}
use prismacv_backend.Shared.Table.{Table}

pub data JobStatus : Type 0 where
  saved applied interview offer rejected : JobStatus

abbrev pub same_status : JobStatus → JobStatus → Bool
same_status JobStatus.saved JobStatus.saved = true
same_status JobStatus.applied JobStatus.applied = true
same_status JobStatus.interview JobStatus.interview = true
same_status JobStatus.offer JobStatus.offer = true
same_status JobStatus.rejected JobStatus.rejected = true
same_status _ _ = false

pub record Job : Type 0 where
  pub id : String
  pub user_id : String
  pub title : String
  pub company : String
  pub url : Option String
  pub location : Option String
  pub is_remote : Bool
  pub salary_min : Option ℕ
  pub salary_max : Option ℕ
  pub salary_currency : Option String
  pub status : JobStatus
  pub applied_at : Option ℕ
  pub notes : Option String

pub record JobNote : Type 0 where
  pub id : String
  pub job_id : String
  pub content : String

pub record CreateJobRequest : Type 0 where
  pub title : String
  pub company : String
  pub url : Option String
  pub location : Option String
  pub is_remote : Option Bool
  pub salary_min : Option ℕ
  pub salary_max : Option ℕ
  pub salary_currency : Option String
  pub status : Option JobStatus
  pub notes : Option String

-- A field that is none is undefined.
pub record UpdateJobRequest : Type 0 where
  pub title : Option String
  pub company : Option String
  pub url : Option String
  pub location : Option String
  pub is_remote : Option Bool
  pub salary_min : Option ℕ
  pub salary_max : Option ℕ
  pub salary_currency : Option String
  pub status : Option JobStatus
  pub notes : Option String

-- A job with its notes, newest first.
pub record FullJob : Type 0 where
  pub job : Job
  pub job_notes : List JobNote

pub record JobStats : Type 0 where
  pub total : ℕ
  pub by_status : List (JobStatus × ℕ)
  pub applied_this_week : ℕ
  pub pending_interviews : ℕ
  pub active_offers : ℕ

abbrev pub job_key : Job → String
job_key j = j.id

abbrev pub note_key : JobNote → String
note_key n = n.id

pub record JobPrisma : Type 1 where
  pub jobs : Table Job job_key (λ j. [])
  pub notes : Table JobNote note_key (λ n. [])

pub record JobDb (p : JobPrisma) : Type 0 where
  pub jobs : p.jobs.Rows
  pub notes : p.notes.Rows

abbrev pub is_applied : Option JobStatus → Bool
is_applied none = false
is_applied (some s) = same_status s JobStatus.applied

abbrev pub new_job : String → ℕ → String → CreateJobRequest → Job
new_job id now user_id dto = record {
  id = id;
  user_id = user_id;
  title = dto.title;
  company = dto.company;
  url = dto.url;
  location = dto.location;
  is_remote = or_default dto.is_remote false;
  salary_min = dto.salary_min;
  salary_max = dto.salary_max;
  salary_currency = dto.salary_currency;
  status = or_default dto.status JobStatus.saved;
  applied_at = if is_applied dto.status then some now else none;
  notes = dto.notes;
}

abbrev pub or_kept : {A : Type 0} → Option A → Option A → Option A
or_kept none kept = kept
or_kept (some a) kept = some a

-- `data.appliedAt`, by the status that is asked for and the job as it stands.
abbrev pub applied_now : ℕ → Option JobStatus → Job → Option ℕ
applied_now now status existing =
    if is_applied status && not (is_some existing.applied_at) then some now else none

abbrev pub patch_job : UpdateJobRequest → Option ℕ → Job → Job
patch_job dto applied_at j = record j {
  title = or_default dto.title j.title;
  company = or_default dto.company j.company;
  url = or_kept dto.url j.url;
  location = or_kept dto.location j.location;
  is_remote = or_default dto.is_remote j.is_remote;
  salary_min = or_kept dto.salary_min j.salary_min;
  salary_max = or_kept dto.salary_max j.salary_max;
  salary_currency = or_kept dto.salary_currency j.salary_currency;
  status = or_default dto.status j.status;
  notes = or_kept dto.notes j.notes;
  applied_at = or_kept applied_at j.applied_at;
}

abbrev pub set_status : JobStatus → Option ℕ → Job → Job
set_status status applied_at j = record j {
  status = status;
  applied_at = or_kept applied_at j.applied_at;
}

-- `where: { userId, status }`
abbrev pub is_listed : String → Option JobStatus → Job → Bool
is_listed user_id none j = str_eq j.user_id user_id
is_listed user_id (some s) j = str_eq j.user_id user_id && same_status j.status s

abbrev pub applied_since : ℕ → Option ℕ → Bool
applied_since at none = false
applied_since at (some t) = leb at t

abbrev pub count_in : JobStatus → List (JobStatus × ℕ) → ℕ
count_in s [] = 0
count_in s ((t, n) ∷ rows) = if same_status s t then n else count_in s rows
