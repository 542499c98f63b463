-- ===== src/Cv/Editor.antt =====
-- src/modules/cv/cv.service.ts: reading, making, changing and removing CVs.
pub mod Rows
pub mod Laws
pub mod Listing
use prismacv_backend.Shared.{
  is_one_of, ℕ, zero, suc, String, Bool, true, false, not, ◌&&◌, Option, none, some, List, [], ◌∷◌,
  if◌then◌else◌, str_eq, or_default, truthy, length, Result, ok, err, M, pure, throw, guard, lift,
  or_throw, transaction, stored, stored_with, ◌>>=◌, ◌>>◌, not_found, forbidden,
}
use prismacv_backend.Shared.Text.{◌&◌}
use prismacv_backend.Pagination.{PaginationQuery, PaginatedResponse, skip, paginated}
use prismacv_backend.Cv.Model.{
  CvRow, CvStatus, PersonalInfo, Experience, Education, Skill, Certification, Project, Language,
  CustomSection, CvPrisma, CvDb,
}
use prismacv_backend.Cv.Slug.{generate_slug, ensure_unique_slug}
use prismacv_backend.Cv.Section.{Section, rows_of}
use prismacv_backend.Cv.Sections.{
  experience_section, education_section, skill_section, certification_section, project_section,
  language_section, custom_section_section,
}

pub record CreateCvRequest : Type 0 where
  pub title : String
  pub template_id : Option String

pub record UpdateCvRequest : Type 0 where
  pub title : Option String
  pub template_id : Option String
  pub status : Option CvStatus
  pub is_default : Option Bool

-- A CV with its parts (CV_INCLUDE_ALL).
pub record FullCv : Type 0 where
  pub cv : CvRow
  pub personal_info : Option PersonalInfo
  pub experiences : List Experience
  pub education : List Education
  pub skills : List Skill
  pub certifications : List Certification
  pub projects : List Project
  pub languages : List Language
  pub custom_sections : List CustomSection

-- `data` of an update; a field that is none is undefined.
pub record CvPatch : Type 0 where
  pub title : Option String
  pub slug : Option String
  pub template_id : Option String
  pub status : Option CvStatus
  pub is_default : Option Bool

abbrev pub apply_cv_patch : CvPatch → CvRow → CvRow
apply_cv_patch d c = record c {
  title = or_default d.title c.title;
  slug = or_default d.slug c.slug;
  template_id = elim d.template_id [ none ↦ c.template_id | some t ↦ some t ];
  status = or_default d.status c.status;
  is_default = or_default d.is_default c.is_default;
}

abbrev pub new_cv : String → String → String → String → Option String → CvRow
new_cv id user_id title slug template_id = record {
  id = id;
  user_id = user_id;
  title = title;
  slug = slug;
  status = CvStatus.draft;
  template_id = template_id;
  is_default = false;
}

-- The other default CVs of the user.
abbrev pub is_other_default : String → String → CvRow → Bool
is_other_default user_id cv_id c =
    str_eq c.user_id user_id && c.is_default && not (str_eq c.id cv_id)

abbrev pub not_default : CvRow → CvRow
not_default c = record c { is_default = false }

module _ (p : CvPrisma) where
  unfoldable pub include_all : CvDb p → CvRow → FullCv
  unfolding rows_of
  include_all db c = record {
    cv = c;
    personal_info = p.infos.find db.infos c.id;
    experiences = rows_of experience_section p.experiences c.id db.experiences;
    education = rows_of education_section p.education c.id db.education;
    skills = rows_of skill_section p.skills c.id db.skills;
    certifications = rows_of certification_section p.certifications c.id db.certifications;
    projects = rows_of project_section p.projects c.id db.projects;
    languages = rows_of language_section p.languages c.id db.languages;
    custom_sections = rows_of custom_section_section p.custom_sections c.id db.custom_sections;
  }

  unfoldable pub find_cv_or_throw : String → String → M (CvDb p) FullCv
  unfolding include_all
  find_cv_or_throw cv_id user_id db =
      (do
        cv ← or_throw (p.cvs.find db.cvs cv_id) (not_found ("CV with id " & cv_id & " not found"))
        guard (str_eq cv.user_id user_id) (forbidden "You do not have access to this CV")
        pure (include_all db cv))
        db

  abbrev pub unique_slug : String → String → Option String → ℕ → M (CvDb p) String
  unique_slug user_id title exclude now db =
      (ok (ensure_unique_slug p db.cvs user_id (generate_slug title) exclude now), db)

  abbrev pub insert_cv : CvRow → M (CvDb p) (Unit {0})
  insert_cv c db = stored (p.cvs.create db.cvs c) (λ cvs. record db { cvs = cvs }) db

  -- `id` is drawn by generateUuidv7, `now` is Date.now().
  unfoldable pub create : String → ℕ → String → CreateCvRequest → M (CvDb p) FullCv
  unfolding include_all
  create id now user_id dto = do
    slug ← unique_slug user_id dto.title none now
    insert_cv (new_cv id user_id dto.title slug dto.template_id)
    λ db. (ok (include_all db (new_cv id user_id dto.title slug dto.template_id)), db)

  abbrev pub sort_column : Option String → String
  sort_column none = "updatedAt"
  sort_column (some c) =
      if is_one_of c ("createdAt" ∷ "updatedAt" ∷ "title" ∷ "status" ∷ []) then c else "updatedAt"

  -- The page is a query of its own, in the order of a column of the table, `createdAt` and `updatedAt`
  -- among them, which the rows here leave out: the order of the CVs is the database's.
  unfoldable pub find_all_by_user : String → PaginationQuery → M (CvDb p) (PaginatedResponse CvRow)
  unfolding paginated
  find_all_by_user user_id q db =
      let is_own = λ (c : CvRow). str_eq c.user_id user_id in
      let cvs =
        p.cvs.find_page db.cvs is_own (sort_column (truthy q.sort_by)) q.descending (skip q)
          q.limit in
      (ok (paginated cvs (p.cvs.count db.cvs is_own) q.page q.limit), db)

  unfoldable pub find_one : String → String → M (CvDb p) FullCv
  unfolding find_cv_or_throw
  find_one cv_id user_id = find_cv_or_throw cv_id user_id

  abbrev pub slug_for : String → String → ℕ → Option String → M (CvDb p) (Option String)
  slug_for cv_id user_id now none = pure none
  slug_for cv_id user_id now (some title) = do
    slug ← unique_slug user_id title (some cv_id) now
    pure (some slug)

  abbrev pub patch_of : UpdateCvRequest → Option String → CvPatch
  patch_of dto slug = record {
    title = dto.title;
    slug = slug;
    template_id = dto.template_id;
    status = dto.status;
    is_default = dto.is_default;
  }

  abbrev pub unset_others : Bool → String → String → M (CvDb p) (Unit {0})
  unset_others false user_id cv_id db = (ok tt, db)
  unset_others true user_id cv_id db =
      (do
        n ←
            stored_with (p.cvs.update_many db.cvs (is_other_default user_id cv_id) not_default)
              (λ cvs. record db { cvs = cvs })
        pure tt)
        db

  abbrev pub update_cv : String → CvPatch → M (CvDb p) FullCv
  update_cv cv_id d db =
      (do
        c ←
            stored_with (p.cvs.update db.cvs cv_id (apply_cv_patch d))
              (λ cvs. record db { cvs = cvs })
        λ db. (ok (include_all db c), db))
        db

  unfoldable pub update : ℕ → String → String → UpdateCvRequest → M (CvDb p) FullCv
  unfolding find_cv_or_throw include_all
  update now cv_id user_id dto = do
    cv ← find_cv_or_throw cv_id user_id
    slug ← slug_for cv_id user_id now dto.title
    transaction (do
      unset_others (or_default dto.is_default false) user_id cv_id
      update_cv cv_id (patch_of dto slug))

  -- `cv.delete`, with the rows that the foreign keys of the database delete (`onDelete: Cascade`).
  unfoldable pub delete_cv : String → CvDb p → CvDb p
  delete_cv cv_id db = record {
    cvs = p.cvs.delete_many db.cvs (λ c. str_eq c.id cv_id);
    infos = p.infos.delete_many db.infos (λ r. str_eq r.cv_id cv_id);
    experiences = p.experiences.delete_many db.experiences (λ r. str_eq r.cv_id cv_id);
    education = p.education.delete_many db.education (λ r. str_eq r.cv_id cv_id);
    skills = p.skills.delete_many db.skills (λ r. str_eq r.cv_id cv_id);
    certifications = p.certifications.delete_many db.certifications (λ r. str_eq r.cv_id cv_id);
    projects = p.projects.delete_many db.projects (λ r. str_eq r.cv_id cv_id);
    languages = p.languages.delete_many db.languages (λ r. str_eq r.cv_id cv_id);
    custom_sections = p.custom_sections.delete_many db.custom_sections (λ r. str_eq r.cv_id cv_id);
    shares = p.shares.delete_many db.shares (λ r. str_eq r.cv_id cv_id);
  }

  unfoldable pub remove : String → String → M (CvDb p) (Unit {0})
  unfolding find_cv_or_throw delete_cv
  remove cv_id user_id = do cv ← find_cv_or_throw cv_id user_id; λ db. (ok tt, delete_cv cv_id db)
