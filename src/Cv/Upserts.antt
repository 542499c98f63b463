-- ===== src/Cv/Upserts.antt =====
-- src/modules/cv/cv.service.ts: writing the personal information and the sections of a CV.
pub mod Laws
use prismacv_backend.Shared.{
  ℕ, String, Option, none, some, List, Result, ok, err, M, pure, transaction, stored, stored_with,
  or_default, ◌>>=◌, ◌>>◌,
}
use prismacv_backend.Cv.Model.{
  PersonalInfo, CvPrisma, CvDb, Experience, Education, Skill, Certification, Project, Language,
  CustomSection,
}
use prismacv_backend.Cv.Items.{
  ExperienceItem, EducationItem, SkillItem, CertificationItem, ProjectItem, LanguageItem,
  CustomSectionItem,
}
use prismacv_backend.Cv.Section.{Section, replace_section, rows_of}
use prismacv_backend.Cv.Sections.{
  experience_section, education_section, skill_section, certification_section, project_section,
  language_section, custom_section_section,
}
use prismacv_backend.Cv.Place.{
  Place, experience_place, education_place, skill_place, certification_place, project_place,
  language_place, custom_section_place,
}
use prismacv_backend.Cv.Editor.{find_cv_or_throw}

-- A field that is none is undefined: it is left as it is, and null in a new row.
pub record UpsertPersonalInfoRequest : Type 0 where
  pub full_name : Option String
  pub email : Option String
  pub phone : Option String
  pub location : Option String
  pub website : Option String
  pub linkedin_url : Option String
  pub summary : Option String
  pub avatar_url : Option String

abbrev or_kept : Option String → Option String → Option String
or_kept none kept = kept
or_kept (some s) kept = some s

abbrev pub fill_info : UpsertPersonalInfoRequest → PersonalInfo → PersonalInfo
fill_info dto i = record i {
  full_name = or_kept dto.full_name i.full_name;
  email = or_kept dto.email i.email;
  phone = or_kept dto.phone i.phone;
  location = or_kept dto.location i.location;
  website = or_kept dto.website i.website;
  linkedin_url = or_kept dto.linkedin_url i.linkedin_url;
  summary = or_kept dto.summary i.summary;
  avatar_url = or_kept dto.avatar_url i.avatar_url;
}

abbrev pub empty_info : String → String → PersonalInfo
empty_info id cv_id = record {
  id = id;
  cv_id = cv_id;
  full_name = none;
  email = none;
  phone = none;
  location = none;
  website = none;
  linkedin_url = none;
  summary = none;
  avatar_url = none;
}

module _ (p : CvPrisma) where
  abbrev pub put_info :
      String → String → UpsertPersonalInfoRequest → Option PersonalInfo → M (CvDb p) PersonalInfo
  put_info id cv_id dto (some existing) db =
      stored_with (p.infos.update db.infos cv_id (fill_info dto))
        (λ infos. record db { infos = infos }) db
  put_info id cv_id dto none db =
      (do
        stored (p.infos.create db.infos (fill_info dto (empty_info id cv_id)))
            (λ infos. record db { infos = infos })
        pure (fill_info dto (empty_info id cv_id)))
        db

  unfoldable pub upsert_personal_info :
      String → String → String → UpsertPersonalInfoRequest → M (CvDb p) PersonalInfo
  unfolding find_cv_or_throw
  upsert_personal_info id cv_id user_id dto = do
    cv ← find_cv_or_throw p cv_id user_id
    λ db. put_info id cv_id dto (p.infos.find db.infos cv_id) db

  -- The transaction of a bulk upsert; the k-th item that has no id draws `fresh k`.
  abbrev pub write_section :
      (s : Section) → Place p s → (ℕ → String) → String → List s.Item → M (CvDb p) (List s.Row)
  write_section s place fresh cv_id items = transaction (do
    λ db.
        stored (replace_section s place.table cv_id fresh items (place.rows db))
          (λ rows. place.put rows db) db
    λ db. (ok (rows_of s place.table cv_id (place.rows db)), db))

  unfoldable pub bulk_upsert :
      (s : Section)
      → Place p s
      → (ℕ → String)
      → String
      → String
      → List s.Item
      → M (CvDb p) (List s.Row)
  unfolding find_cv_or_throw replace_section rows_of
  bulk_upsert s place fresh cv_id user_id items = do
    cv ← find_cv_or_throw p cv_id user_id
    write_section s place fresh cv_id items

  unfoldable pub bulk_upsert_experiences :
      (ℕ → String) → String → String → List ExperienceItem → M (CvDb p) (List Experience)
  unfolding bulk_upsert
  bulk_upsert_experiences = bulk_upsert experience_section (experience_place p)

  unfoldable pub bulk_upsert_education :
      (ℕ → String) → String → String → List EducationItem → M (CvDb p) (List Education)
  unfolding bulk_upsert
  bulk_upsert_education = bulk_upsert education_section (education_place p)

  unfoldable pub bulk_upsert_skills :
      (ℕ → String) → String → String → List SkillItem → M (CvDb p) (List Skill)
  unfolding bulk_upsert
  bulk_upsert_skills = bulk_upsert skill_section (skill_place p)

  unfoldable pub bulk_upsert_certifications :
      (ℕ → String) → String → String → List CertificationItem → M (CvDb p) (List Certification)
  unfolding bulk_upsert
  bulk_upsert_certifications = bulk_upsert certification_section (certification_place p)

  unfoldable pub bulk_upsert_projects :
      (ℕ → String) → String → String → List ProjectItem → M (CvDb p) (List Project)
  unfolding bulk_upsert
  bulk_upsert_projects = bulk_upsert project_section (project_place p)

  unfoldable pub bulk_upsert_languages :
      (ℕ → String) → String → String → List LanguageItem → M (CvDb p) (List Language)
  unfolding bulk_upsert
  bulk_upsert_languages = bulk_upsert language_section (language_place p)

  unfoldable pub bulk_upsert_custom_sections :
      (ℕ → String) → String → String → List CustomSectionItem → M (CvDb p) (List CustomSection)
  unfolding bulk_upsert
  bulk_upsert_custom_sections = bulk_upsert custom_section_section (custom_section_place p)
