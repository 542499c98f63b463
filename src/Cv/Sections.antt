-- ===== src/Cv/Sections.antt =====
-- src/modules/cv/cv.service.ts: the `data` that each bulk upsert writes of an item.
use prismacv_backend.Shared.{refl, false, or_default, String}
use prismacv_backend.Cv.Model.{
  SkillLevel, LanguageProficiency, Experience, Education, Skill, Certification, Project, Language,
  CustomSection,
}
use prismacv_backend.Cv.Items.{
  ExperienceItem, EducationItem, SkillItem, CertificationItem, ProjectItem, LanguageItem,
  CustomSectionItem,
}
use prismacv_backend.Cv.Section.{Section}

abbrev pub fill_experience : ExperienceItem → Experience → Experience
fill_experience i r = record r {
  company = i.company;
  title = i.title;
  location = i.location;
  start_date = i.start_date;
  end_date = i.end_date;
  current = or_default i.current false;
  description = i.description;
  sort_order = or_default i.sort_order 0;
}

abbrev pub make_experience : String → String → ExperienceItem → Experience
make_experience id cv_id i = record {
  id = id;
  cv_id = cv_id;
  company = i.company;
  title = i.title;
  location = i.location;
  start_date = i.start_date;
  end_date = i.end_date;
  current = or_default i.current false;
  description = i.description;
  sort_order = or_default i.sort_order 0;
}

abbrev pub experience_section : Section
experience_section = record {
  Row = Experience;
  Item = ExperienceItem;
  id = λ r. r.id;
  cv_id = λ r. r.cv_id;
  sort_order = λ r. r.sort_order;
  item_id = λ i. i.id;
  label = "Experience";
  fill = fill_experience;
  make = make_experience;
  id-fill = λ i r. refl;
  cv_id-fill = λ i r. refl;
  fill-fill = λ i r. refl;
  id-make = λ k cv i. refl;
  cv_id-make = λ k cv i. refl;
  fill-make = λ k cv i. refl;
}

abbrev pub fill_education : EducationItem → Education → Education
fill_education i r = record r {
  institution = i.institution;
  degree = i.degree;
  field = i.field;
  start_date = i.start_date;
  end_date = i.end_date;
  gpa = i.gpa;
  description = i.description;
  sort_order = or_default i.sort_order 0;
}

abbrev pub make_education : String → String → EducationItem → Education
make_education id cv_id i = record {
  id = id;
  cv_id = cv_id;
  institution = i.institution;
  degree = i.degree;
  field = i.field;
  start_date = i.start_date;
  end_date = i.end_date;
  gpa = i.gpa;
  description = i.description;
  sort_order = or_default i.sort_order 0;
}

abbrev pub education_section : Section
education_section = record {
  Row = Education;
  Item = EducationItem;
  id = λ r. r.id;
  cv_id = λ r. r.cv_id;
  sort_order = λ r. r.sort_order;
  item_id = λ i. i.id;
  label = "Education";
  fill = fill_education;
  make = make_education;
  id-fill = λ i r. refl;
  cv_id-fill = λ i r. refl;
  fill-fill = λ i r. refl;
  id-make = λ k cv i. refl;
  cv_id-make = λ k cv i. refl;
  fill-make = λ k cv i. refl;
}

abbrev pub fill_skill : SkillItem → Skill → Skill
fill_skill i r = record r {
  name = i.name;
  level = or_default i.level (SkillLevel.intermediate);
  category = i.category;
  sort_order = or_default i.sort_order 0;
}

abbrev pub make_skill : String → String → SkillItem → Skill
make_skill id cv_id i = record {
  id = id;
  cv_id = cv_id;
  name = i.name;
  level = or_default i.level (SkillLevel.intermediate);
  category = i.category;
  sort_order = or_default i.sort_order 0;
}

abbrev pub skill_section : Section
skill_section = record {
  Row = Skill;
  Item = SkillItem;
  id = λ r. r.id;
  cv_id = λ r. r.cv_id;
  sort_order = λ r. r.sort_order;
  item_id = λ i. i.id;
  label = "Skill";
  fill = fill_skill;
  make = make_skill;
  id-fill = λ i r. refl;
  cv_id-fill = λ i r. refl;
  fill-fill = λ i r. refl;
  id-make = λ k cv i. refl;
  cv_id-make = λ k cv i. refl;
  fill-make = λ k cv i. refl;
}

abbrev pub fill_certification : CertificationItem → Certification → Certification
fill_certification i r = record r {
  name = i.name;
  issuer = i.issuer;
  issue_date = i.issue_date;
  expiry_date = i.expiry_date;
  credential_url = i.credential_url;
  sort_order = or_default i.sort_order 0;
}

abbrev pub make_certification : String → String → CertificationItem → Certification
make_certification id cv_id i = record {
  id = id;
  cv_id = cv_id;
  name = i.name;
  issuer = i.issuer;
  issue_date = i.issue_date;
  expiry_date = i.expiry_date;
  credential_url = i.credential_url;
  sort_order = or_default i.sort_order 0;
}

abbrev pub certification_section : Section
certification_section = record {
  Row = Certification;
  Item = CertificationItem;
  id = λ r. r.id;
  cv_id = λ r. r.cv_id;
  sort_order = λ r. r.sort_order;
  item_id = λ i. i.id;
  label = "Certification";
  fill = fill_certification;
  make = make_certification;
  id-fill = λ i r. refl;
  cv_id-fill = λ i r. refl;
  fill-fill = λ i r. refl;
  id-make = λ k cv i. refl;
  cv_id-make = λ k cv i. refl;
  fill-make = λ k cv i. refl;
}

abbrev pub fill_project : ProjectItem → Project → Project
fill_project i r = record r {
  name = i.name;
  description = i.description;
  url = i.url;
  start_date = i.start_date;
  end_date = i.end_date;
  sort_order = or_default i.sort_order 0;
}

abbrev pub make_project : String → String → ProjectItem → Project
make_project id cv_id i = record {
  id = id;
  cv_id = cv_id;
  name = i.name;
  description = i.description;
  url = i.url;
  start_date = i.start_date;
  end_date = i.end_date;
  sort_order = or_default i.sort_order 0;
}

abbrev pub project_section : Section
project_section = record {
  Row = Project;
  Item = ProjectItem;
  id = λ r. r.id;
  cv_id = λ r. r.cv_id;
  sort_order = λ r. r.sort_order;
  item_id = λ i. i.id;
  label = "Project";
  fill = fill_project;
  make = make_project;
  id-fill = λ i r. refl;
  cv_id-fill = λ i r. refl;
  fill-fill = λ i r. refl;
  id-make = λ k cv i. refl;
  cv_id-make = λ k cv i. refl;
  fill-make = λ k cv i. refl;
}

abbrev pub fill_language : LanguageItem → Language → Language
fill_language i r = record r {
  name = i.name;
  proficiency = or_default i.proficiency (LanguageProficiency.intermediate);
  sort_order = or_default i.sort_order 0;
}

abbrev pub make_language : String → String → LanguageItem → Language
make_language id cv_id i = record {
  id = id;
  cv_id = cv_id;
  name = i.name;
  proficiency = or_default i.proficiency (LanguageProficiency.intermediate);
  sort_order = or_default i.sort_order 0;
}

abbrev pub language_section : Section
language_section = record {
  Row = Language;
  Item = LanguageItem;
  id = λ r. r.id;
  cv_id = λ r. r.cv_id;
  sort_order = λ r. r.sort_order;
  item_id = λ i. i.id;
  label = "Language";
  fill = fill_language;
  make = make_language;
  id-fill = λ i r. refl;
  cv_id-fill = λ i r. refl;
  fill-fill = λ i r. refl;
  id-make = λ k cv i. refl;
  cv_id-make = λ k cv i. refl;
  fill-make = λ k cv i. refl;
}

abbrev pub fill_custom_section : CustomSectionItem → CustomSection → CustomSection
fill_custom_section i r = record r {
  title = i.title;
  entries = i.entries;
  sort_order = or_default i.sort_order 0;
}

abbrev pub make_custom_section : String → String → CustomSectionItem → CustomSection
make_custom_section id cv_id i = record {
  id = id;
  cv_id = cv_id;
  title = i.title;
  entries = i.entries;
  sort_order = or_default i.sort_order 0;
}

abbrev pub custom_section_section : Section
custom_section_section = record {
  Row = CustomSection;
  Item = CustomSectionItem;
  id = λ r. r.id;
  cv_id = λ r. r.cv_id;
  sort_order = λ r. r.sort_order;
  item_id = λ i. i.id;
  label = "Custom section";
  fill = fill_custom_section;
  make = make_custom_section;
  id-fill = λ i r. refl;
  cv_id-fill = λ i r. refl;
  fill-fill = λ i r. refl;
  id-make = λ k cv i. refl;
  cv_id-make = λ k cv i. refl;
  fill-make = λ k cv i. refl;
}
