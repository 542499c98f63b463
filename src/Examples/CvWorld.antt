-- ===== src/Examples/CvWorld.antt =====
-- CVs of two users in memory, with skills and a public link.
use prismacv_backend.Shared.{ℕ, String, true, some, none, [], ◌∷◌}
use prismacv_backend.Shared.Table.InMemory.{in_memory}
use prismacv_backend.Cv.Model.{
  CvRow, CvStatus, SkillLevel, Skill, CvShare, CvPrisma, CvDb, cv_key, cv_unique, info_key,
  info_unique, share_key, share_unique,
}
use prismacv_backend.Cv.Items.{SkillItem}

abbrev pub cv_prisma : CvPrisma
cv_prisma = record {
  cvs = in_memory cv_key cv_unique;
  infos = in_memory info_key info_unique;
  experiences = in_memory (λ r. r.id) (λ r. []);
  education = in_memory (λ r. r.id) (λ r. []);
  skills = in_memory (λ r. r.id) (λ r. []);
  certifications = in_memory (λ r. r.id) (λ r. []);
  projects = in_memory (λ r. r.id) (λ r. []);
  languages = in_memory (λ r. r.id) (λ r. []);
  custom_sections = in_memory (λ r. r.id) (λ r. []);
  shares = in_memory share_key share_unique;
}

abbrev pub first_cv : CvRow
first_cv = record {
  id = "c1";
  user_id = "u1";
  title = "Engineer";
  slug = "engineer";
  status = CvStatus.draft;
  template_id = none;
  is_default = true;
}

abbrev pub other_cv : CvRow
other_cv = record {
  id = "c2";
  user_id = "u2";
  title = "Nurse";
  slug = "nurse";
  status = CvStatus.published;
  template_id = none;
  is_default = true;
}

abbrev pub skill_row : String → String → String → ℕ → Skill
skill_row id cv_id name n = record {
  id = id;
  cv_id = cv_id;
  name = name;
  level = SkillLevel.expert;
  category = none;
  sort_order = n;
}

abbrev pub first_share : CvShare
first_share = record {
  id = "h1";
  cv_id = "c1";
  share_slug = "abc";
  is_public = true;
  view_count = 3;
  download_count = 0;
  last_viewed_at = none;
}

abbrev pub second_share : CvShare
second_share = record {
  id = "h2";
  cv_id = "c2";
  share_slug = "xyz";
  is_public = true;
  view_count = 0;
  download_count = 0;
  last_viewed_at = none;
}

abbrev pub cv_db : CvDb cv_prisma
cv_db = record {
  cvs = first_cv ∷ other_cv ∷ [];
  infos = [];
  experiences = [];
  education = [];
  skills =
      skill_row "s1" "c1" "Rust" 0 ∷ skill_row "s2" "c1" "Go" 1 ∷ skill_row "s3" "c2" "Care" 0 ∷ [];
  certifications = [];
  projects = [];
  languages = [];
  custom_sections = [];
  shares = first_share ∷ second_share ∷ [];
}

-- A change of the first skill and a new one, which comes before it.
abbrev pub changed_skill : SkillItem
changed_skill = record {
  id = some "s1";
  name = "Rust";
  level = none;
  category = some "languages";
  sort_order = some 2;
}

abbrev pub added_skill : SkillItem
added_skill = record { id = none; name = "SQL"; level = none; category = none; sort_order = none }

abbrev pub fresh_id : ℕ → String
fresh_id n = "n1"
