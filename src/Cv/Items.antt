-- ===== src/Cv/Items.antt =====
-- The items of the requests (src/modules/cv/dto/request/upsert-sections.request.dto.ts). A date is
-- its ISO text, and the entries of a custom section are the text of their JSON.
use prismacv_backend.Shared.{ℕ, String, Bool, Option}
use prismacv_backend.Cv.Model.{SkillLevel, LanguageProficiency}

pub record ExperienceItem : Type 0 where
  pub id : Option String
  pub company : String
  pub title : String
  pub location : Option String
  pub start_date : String
  pub end_date : Option String
  pub current : Option Bool
  pub description : Option String
  pub sort_order : Option ℕ

pub record EducationItem : Type 0 where
  pub id : Option String
  pub institution : String
  pub degree : String
  pub field : Option String
  pub start_date : String
  pub end_date : Option String
  pub gpa : Option String
  pub description : Option String
  pub sort_order : Option ℕ

pub record SkillItem : Type 0 where
  pub id : Option String
  pub name : String
  pub level : Option SkillLevel
  pub category : Option String
  pub sort_order : Option ℕ

pub record CertificationItem : Type 0 where
  pub id : Option String
  pub name : String
  pub issuer : Option String
  pub issue_date : Option String
  pub expiry_date : Option String
  pub credential_url : Option String
  pub sort_order : Option ℕ

pub record ProjectItem : Type 0 where
  pub id : Option String
  pub name : String
  pub description : Option String
  pub url : Option String
  pub start_date : Option String
  pub end_date : Option String
  pub sort_order : Option ℕ

pub record LanguageItem : Type 0 where
  pub id : Option String
  pub name : String
  pub proficiency : Option LanguageProficiency
  pub sort_order : Option ℕ

pub record CustomSectionItem : Type 0 where
  pub id : Option String
  pub title : String
  pub entries : String
  pub sort_order : Option ℕ
