-- ===== src/Cv/Place.antt =====
-- Where the rows of a section stand in the state of the CV editor.
use prismacv_backend.Shared.{◌≡◌, refl}
use prismacv_backend.Cv.Model.{SectionTable, CvPrisma, CvDb}
use prismacv_backend.Cv.Section.{Section}
use prismacv_backend.Cv.Sections.{
  experience_section, education_section, skill_section, certification_section, project_section,
  language_section, custom_section_section,
}

pub record Place (p : CvPrisma) (s : Section) : Type 1 where
  pub table : SectionTable s.Row s.id
  pub rows : CvDb p → table.Rows
  pub put : table.Rows → CvDb p → CvDb p
  pub rows-put : (t : table.Rows) (db : CvDb p) → rows (put t db) ≡ t
  pub cvs-put : (t : table.Rows) (db : CvDb p) → (put t db).cvs ≡ db.cvs

module _ (p : CvPrisma) where
  abbrev pub experience_place : Place p experience_section
  experience_place = record {
    table = p.experiences;
    rows = λ db. db.experiences;
    put = λ t db. record db { experiences = t };
    rows-put = λ t db. refl;
    cvs-put = λ t db. refl;
  }

  abbrev pub education_place : Place p education_section
  education_place = record {
    table = p.education;
    rows = λ db. db.education;
    put = λ t db. record db { education = t };
    rows-put = λ t db. refl;
    cvs-put = λ t db. refl;
  }

  abbrev pub skill_place : Place p skill_section
  skill_place = record {
    table = p.skills;
    rows = λ db. db.skills;
    put = λ t db. record db { skills = t };
    rows-put = λ t db. refl;
    cvs-put = λ t db. refl;
  }

  abbrev pub certification_place : Place p certification_section
  certification_place = record {
    table = p.certifications;
    rows = λ db. db.certifications;
    put = λ t db. record db { certifications = t };
    rows-put = λ t db. refl;
    cvs-put = λ t db. refl;
  }

  abbrev pub project_place : Place p project_section
  project_place = record {
    table = p.projects;
    rows = λ db. db.projects;
    put = λ t db. record db { projects = t };
    rows-put = λ t db. refl;
    cvs-put = λ t db. refl;
  }

  abbrev pub language_place : Place p language_section
  language_place = record {
    table = p.languages;
    rows = λ db. db.languages;
    put = λ t db. record db { languages = t };
    rows-put = λ t db. refl;
    cvs-put = λ t db. refl;
  }

  abbrev pub custom_section_place : Place p custom_section_section
  custom_section_place = record {
    table = p.custom_sections;
    rows = λ db. db.custom_sections;
    put = λ t db. record db { custom_sections = t };
    rows-put = λ t db. refl;
    cvs-put = λ t db. refl;
  }
