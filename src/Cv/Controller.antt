-- ===== src/Cv/Controller.antt =====
-- src/modules/cv/cv.controller.ts: the routes that change a CV, each as a request and what it calls.
-- The ids that the services draw, the time and the answer of the route's guard are part of a request.
pub mod Parts
pub mod Laws
use prismacv_backend.Shared.{
  ℕ, String, Bool, Option, none, some, List, or_default, true, M, pure, lift, Result, ok, [], ◌∷◌,
  ◌>>=◌,
}
use prismacv_backend.Host.{Host}
use prismacv_backend.Auth.Model.{pro, team}
use prismacv_backend.Billing.Model.{BillingPrisma, Billing}
use prismacv_backend.Billing.PlanAccess.{RequiresPlanOptions, can_activate}
use prismacv_backend.Cv.Model.{CvPrisma, CvDb}
use prismacv_backend.Cv.Items.{
  ExperienceItem, EducationItem, SkillItem, CertificationItem, ProjectItem, LanguageItem,
  CustomSectionItem,
}
use prismacv_backend.Cv.Editor.{CreateCvRequest, UpdateCvRequest, create, update, remove}
use prismacv_backend.Cv.Duplicate.{duplicate}
use prismacv_backend.Cv.Upserts.{
  UpsertPersonalInfoRequest, upsert_personal_info, bulk_upsert_experiences, bulk_upsert_education,
  bulk_upsert_skills, bulk_upsert_certifications, bulk_upsert_projects, bulk_upsert_languages,
  bulk_upsert_custom_sections,
}
use prismacv_backend.Cv.Share.{share_cv, unshare_cv}

-- `@RequiresPlan` of the route that shares a CV, and what its guard answers to a user. The guard keeps
-- the plan that it has read in the state of the plans.
abbrev pub share_options : RequiresPlanOptions
share_options = record { plans = pro ∷ team ∷ []; feature = "cv_share"; message = none }

abbrev pub share_access : Host → (b : BillingPrisma) → ℕ → ℕ → String → Billing b → Result Bool
share_access host b now kept_now user_id billing =
    (can_activate host b now kept_now (some share_options) (some user_id) billing).0

-- What is requested of the CV of an id: the parts of a CV and its link. The first argument of share is
-- the answer of the guard, `share_access`.
pub data PartRequest : Type 0 where
  share : Result Bool → String → String → ℕ → Option Bool → PartRequest
  unshare : PartRequest
  personal_info : String → UpsertPersonalInfoRequest → PartRequest
  experiences : (ℕ → String) → List ExperienceItem → PartRequest
  education : (ℕ → String) → List EducationItem → PartRequest
  skills : (ℕ → String) → List SkillItem → PartRequest
  certifications : (ℕ → String) → List CertificationItem → PartRequest
  projects : (ℕ → String) → List ProjectItem → PartRequest
  languages : (ℕ → String) → List LanguageItem → PartRequest
  custom_sections : (ℕ → String) → List CustomSectionItem → PartRequest

pub data CvRequest : Type 0 where
  create_cv : String → ℕ → CreateCvRequest → CvRequest
  update_cv : ℕ → String → UpdateCvRequest → CvRequest
  remove_cv : String → CvRequest
  duplicate_cv : String → (ℕ → ℕ → String) → ℕ → String → CvRequest
  part_of : String → PartRequest → CvRequest

module _ (p : CvPrisma) where
  abbrev pub done : {A : Type 0} → M (CvDb p) A → M (CvDb p) (Unit {0})
  done m = m >>= λ _. pure tt

  unfoldable pub serve_part : String → String → PartRequest → M (CvDb p) (Unit {0})
  unfolding upsert_personal_info bulk_upsert_experiences bulk_upsert_education bulk_upsert_skills
      bulk_upsert_certifications bulk_upsert_projects bulk_upsert_languages
      bulk_upsert_custom_sections share_cv unshare_cv
  serve_part user_id id (PartRequest.share access drawn share_id now is_public) =
      lift access >>= λ _.
      done (share_cv p drawn share_id now id user_id (or_default is_public true))
  serve_part user_id id PartRequest.unshare = unshare_cv p id user_id
  serve_part user_id id (PartRequest.personal_info info_id dto) =
      done (upsert_personal_info p info_id id user_id dto)
  serve_part user_id id (PartRequest.experiences fresh items) =
      done (bulk_upsert_experiences p fresh id user_id items)
  serve_part user_id id (PartRequest.education fresh items) =
      done (bulk_upsert_education p fresh id user_id items)
  serve_part user_id id (PartRequest.skills fresh items) =
      done (bulk_upsert_skills p fresh id user_id items)
  serve_part user_id id (PartRequest.certifications fresh items) =
      done (bulk_upsert_certifications p fresh id user_id items)
  serve_part user_id id (PartRequest.projects fresh items) =
      done (bulk_upsert_projects p fresh id user_id items)
  serve_part user_id id (PartRequest.languages fresh items) =
      done (bulk_upsert_languages p fresh id user_id items)
  serve_part user_id id (PartRequest.custom_sections fresh items) =
      done (bulk_upsert_custom_sections p fresh id user_id items)

  unfoldable pub serve : String → CvRequest → M (CvDb p) (Unit {0})
  unfolding create update remove duplicate serve_part
  serve user_id (CvRequest.create_cv id now dto) = done (create p id now user_id dto)
  serve user_id (CvRequest.update_cv now id dto) = done (update p now id user_id dto)
  serve user_id (CvRequest.remove_cv id) = remove p id user_id
  serve user_id (CvRequest.duplicate_cv new_id fresh now id) =
      done (duplicate p new_id fresh now id user_id)
  serve user_id (CvRequest.part_of id request) = serve_part user_id id request

  -- Requests of any users, one after the other.
  pub data Steps : CvDb p → CvDb p → Type 0 where
    none_left : (db : CvDb p) → Steps db db
    one_more :
        (db mid : CvDb p) (user_id : String) (request : CvRequest)
        → Steps db mid
        → Steps db (serve user_id request mid).1
