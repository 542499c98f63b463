-- ===== src/Cv/Model.antt =====
-- The rows of a CV (prisma/schema.prisma), and the state of the CV editor. `createdAt` and
-- `updatedAt`, which the database fills in, are left out. A date is its ISO text.
use prismacv_backend.Shared.{ℕ, String, Bool, Option, some, List, [], ◌∷◌}
use prismacv_backend.Shared.Text.{◌&◌}
use prismacv_backend.Shared.Table.{Table}

pub data CvStatus : Type 0 where
  draft published : CvStatus

pub data SkillLevel : Type 0 where
  beginner intermediate advanced expert : SkillLevel

pub data LanguageProficiency : Type 0 where
  basic intermediate advanced fluent native_speaker : LanguageProficiency

pub record CvRow : Type 0 where
  pub id : String
  pub user_id : String
  pub title : String
  pub slug : String
  pub status : CvStatus
  pub template_id : Option String
  pub is_default : Bool

pub record PersonalInfo : Type 0 where
  pub id : String
  pub cv_id : String
  pub full_name : Option String
  pub email : Option String
  pub phone : Option String
  pub location : Option String
  pub website : Option String
  pub linkedin_url : Option String
  pub summary : Option String
  pub avatar_url : Option String

pub record Experience : Type 0 where
  pub id : String
  pub cv_id : String
  pub company : String
  pub title : String
  pub location : Option String
  pub start_date : String
  pub end_date : Option String
  pub current : Bool
  pub description : Option String
  pub sort_order : ℕ

pub record Education : Type 0 where
  pub id : String
  pub cv_id : String
  pub institution : String
  pub degree : String
  pub field : Option String
  pub start_date : String
  pub end_date : Option String
  pub gpa : Option String
  pub description : Option String
  pub sort_order : ℕ

pub record Skill : Type 0 where
  pub id : String
  pub cv_id : String
  pub name : String
  pub level : SkillLevel
  pub category : Option String
  pub sort_order : ℕ

pub record Certification : Type 0 where
  pub id : String
  pub cv_id : String
  pub name : String
  pub issuer : Option String
  pub issue_date : Option String
  pub expiry_date : Option String
  pub credential_url : Option String
  pub sort_order : ℕ

pub record Project : Type 0 where
  pub id : String
  pub cv_id : String
  pub name : String
  pub description : Option String
  pub url : Option String
  pub start_date : Option String
  pub end_date : Option String
  pub sort_order : ℕ

pub record Language : Type 0 where
  pub id : String
  pub cv_id : String
  pub name : String
  pub proficiency : LanguageProficiency
  pub sort_order : ℕ

-- The entries are JSON, kept as text.
pub record CustomSection : Type 0 where
  pub id : String
  pub cv_id : String
  pub title : String
  pub entries : String
  pub sort_order : ℕ

pub record CvShare : Type 0 where
  pub id : String
  pub cv_id : String
  pub share_slug : String
  pub is_public : Bool
  pub view_count : ℕ
  pub download_count : ℕ
  pub last_viewed_at : Option String

-- The primary key and the other unique columns; those of a pair are one text. The services reach
-- `personalInfo` and `cvShare` by `cvId`, which is unique.
abbrev pub cv_key : CvRow → String
cv_key x = x.id

abbrev pub cv_unique : CvRow → List (Option String)
cv_unique x = some (x.user_id & (" " & x.slug)) ∷ []

abbrev pub info_key : PersonalInfo → String
info_key x = x.cv_id

abbrev pub info_unique : PersonalInfo → List (Option String)
info_unique x = some x.id ∷ []

abbrev pub share_key : CvShare → String
share_key x = x.cv_id

abbrev pub share_unique : CvShare → List (Option String)
share_unique x = some x.id ∷ some x.share_slug ∷ []

-- The rows of a section have no unique column but their id.
abbrev pub SectionTable : (Row : Type 0) → (Row → String) → Type 1
SectionTable Row id = Table Row id (λ r. [])

pub record CvPrisma : Type 1 where
  pub cvs : Table CvRow cv_key cv_unique
  pub infos : Table PersonalInfo info_key info_unique
  pub experiences : SectionTable Experience (λ r. r.id)
  pub education : SectionTable Education (λ r. r.id)
  pub skills : SectionTable Skill (λ r. r.id)
  pub certifications : SectionTable Certification (λ r. r.id)
  pub projects : SectionTable Project (λ r. r.id)
  pub languages : SectionTable Language (λ r. r.id)
  pub custom_sections : SectionTable CustomSection (λ r. r.id)
  pub shares : Table CvShare share_key share_unique

pub record CvDb (p : CvPrisma) : Type 0 where
  pub cvs : p.cvs.Rows
  pub infos : p.infos.Rows
  pub experiences : p.experiences.Rows
  pub education : p.education.Rows
  pub skills : p.skills.Rows
  pub certifications : p.certifications.Rows
  pub projects : p.projects.Rows
  pub languages : p.languages.Rows
  pub custom_sections : p.custom_sections.Rows
  pub shares : p.shares.Rows
