-- ===== src/Cv/Duplicate.antt =====
-- src/modules/cv/cv.service.ts: the copy of a CV with its parts.
use prismacv_backend.Shared.{
  ℕ, suc, String, Option, none, some, List, [], ◌∷◌, Result, ok, M, pure, or_throw, transaction,
  stored, ◌>>=◌, ◌>>◌, internal,
}
use prismacv_backend.Shared.Text.{◌&◌}
use prismacv_backend.Cv.Model.{PersonalInfo, CvPrisma, CvDb, SectionTable}
use prismacv_backend.Cv.Section.{Section, then_rows}
use prismacv_backend.Cv.Sections.{
  experience_section, education_section, skill_section, certification_section, project_section,
  language_section, custom_section_section,
}
use prismacv_backend.Cv.Place.{
  Place, experience_place, education_place, skill_place, certification_place, project_place,
  language_place, custom_section_place,
}
use prismacv_backend.Cv.Editor.{
  FullCv, new_cv, find_cv_or_throw, unique_slug, insert_cv, include_all,
}

-- `map(e => ({ id, cvId, … }))` and `createMany`; the k-th copy gets the id `fresh k`.
module _ (s : Section) (t : SectionTable s.Row s.id) (copy : String → String → s.Row → s.Row)
    (cv : String) where
  unfoldable pub copy_rows : (ℕ → String) → ℕ → List s.Row → t.Rows → Result t.Rows
  copy_rows fresh k [] rows = ok rows
  copy_rows fresh k (r ∷ rs) rows =
      then_rows s t cv (t.create rows (copy (fresh k) cv r)) (copy_rows fresh (suc k) rs)

abbrev pub copied_title : String → String
copied_title title = title & " (Copy)"

module _ (p : CvPrisma) (cv : String) where
  abbrev pub copy_section :
      (s : Section) (place : Place p s)
      → (String → String → s.Row → s.Row)
      → (ℕ → String)
      → List s.Row
      → M (CvDb p) (Unit {0})
  copy_section s place copy fresh rs db =
      stored (copy_rows s place.table copy cv fresh 0 rs (place.rows db))
        (λ rows. place.put rows db) db

  abbrev pub insert_info : PersonalInfo → M (CvDb p) (Unit {0})
  insert_info i db = stored (p.infos.create db.infos i) (λ infos. record db { infos = infos }) db

  abbrev pub copy_info : String → Option PersonalInfo → M (CvDb p) (Unit {0})
  copy_info id none db = (ok tt, db)
  copy_info id (some i) db = insert_info (record i { id = id; cv_id = cv }) db

  -- The sections of the source; the k-th copy of the n-th section gets the id `fresh n k`.
  unfoldable pub copy_parts : (ℕ → ℕ → String) → FullCv → M (CvDb p) (Unit {0})
  unfolding copy_rows
  copy_parts fresh source = do
    copy_info (fresh 0 0) source.personal_info
    copy_section experience_section (experience_place p)
        (λ id cv r. record r { id = id; cv_id = cv }) (fresh 1) source.experiences
    copy_section education_section (education_place p) (λ id cv r. record r { id = id; cv_id = cv })
        (fresh 2) source.education
    copy_section skill_section (skill_place p) (λ id cv r. record r { id = id; cv_id = cv })
        (fresh 3) source.skills
    copy_section certification_section (certification_place p)
        (λ id cv r. record r { id = id; cv_id = cv }) (fresh 4) source.certifications
    copy_section project_section (project_place p) (λ id cv r. record r { id = id; cv_id = cv })
        (fresh 5) source.projects
    copy_section language_section (language_place p) (λ id cv r. record r { id = id; cv_id = cv })
        (fresh 6) source.languages
    copy_section custom_section_section (custom_section_place p)
        (λ id cv r. record r { id = id; cv_id = cv }) (fresh 7) source.custom_sections

module _ (p : CvPrisma) where
  abbrev pub find_full : String → M (CvDb p) FullCv
  find_full cv_id db =
      (do c ← or_throw (p.cvs.find db.cvs cv_id) (internal ""); pure (include_all p db c)) db

  -- `new_id` and `fresh` are drawn by generateUuidv7, `now` is Date.now().
  unfoldable pub duplicate : String → (ℕ → ℕ → String) → ℕ → String → String → M (CvDb p) FullCv
  unfolding find_cv_or_throw include_all copy_parts
  duplicate new_id fresh now cv_id user_id = do
    source ← find_cv_or_throw p cv_id user_id
    slug ← unique_slug p user_id (copied_title source.cv.title) none now
    transaction (do
      insert_cv p (new_cv new_id user_id (copied_title source.cv.title) slug source.cv.template_id)
      copy_parts p new_id fresh source
      find_full new_id)
