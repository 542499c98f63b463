-- ===== src/Examples/Cv.antt =====
-- The theorems on CVs at concrete requests.
use prismacv_backend.Shared.{
  is_one_of, ◌≡◌, ◌≢◌, inl, refl, String, true, false, some, none, [], ◌∷◌, ok, err, Error,
  plan_required, str_eq, IsIn, length, arith, eq_iff,
}
use prismacv_backend.Shared.Text.{to_string}
use prismacv_backend.Shared.Sort.{IsAscending}
use prismacv_backend.Pagination.{PaginationQuery}
use prismacv_backend.Cv.Model.{CvRow, Skill, SkillLevel}
use prismacv_backend.Cv.Slug.{generate_slug, ensure_unique_slug}
use prismacv_backend.Cv.Slug.Laws.{is_tidy}
use prismacv_backend.Cv.Slug.Again.{generate_slug_lem}
use prismacv_backend.Cv.Section.{replace_section}
use prismacv_backend.Cv.Section.View.{named, on_cv, replace_view}
use prismacv_backend.Cv.Section.Laws.{seen, replace_section-seen}
use prismacv_backend.Cv.Section.Effect.{IsFilled}
use prismacv_backend.Cv.Sections.{skill_section}
use prismacv_backend.Cv.Place.{skill_place}
use prismacv_backend.Cv.Editor.{FullCv}
use prismacv_backend.Cv.Editor.Rows.{IsSingleDefault}
use prismacv_backend.Cv.Editor.Listing.{
  find_all_by_user_complete, listed, listed_count, is_theirs, says_pages, says_next, answer,
}
use prismacv_backend.Cv.Upserts.{bulk_upsert}
use prismacv_backend.Cv.Upserts.Laws.{bulk_upsert_sound}
use prismacv_backend.Cv.Share.{viewed, unshare_cv, get_public_cv}
use prismacv_backend.Cv.Share.Laws.{closed-get_public_cv}
use prismacv_backend.Cv.Controller.{CvRequest, PartRequest, serve, Steps}
use prismacv_backend.Cv.Controller.Laws.{serve-refused, Steps-IsSingleDefault, serve-IsForeignKept}
use prismacv_backend.Examples.CvWorld.{
  cv_prisma, cv_db, other_cv, first_share, second_share, changed_skill, added_skill, fresh_id,
  skill_row,
}

-- What the guard answers to a user without a plan, and a request to share that it refuses.
abbrev no_plan : Error
no_plan =
    plan_required "This feature requires a higher subscription plan." "cv_share" "FREE"
      ("PRO" ∷ "TEAM" ∷ [])

abbrev to_share : CvRequest
to_share = CvRequest.part_of "c1" (PartRequest.share (err no_plan) "xyz" "s9" 0 none)

serve-refused_example : serve cv_prisma "u2" to_share cv_db ≡ (err no_plan, cv_db)
serve-refused_example = serve-refused cv_prisma "u2" "c1" to_share cv_db refl refl

serve-IsForeignKept_example :
    cv_prisma.cvs.find ((serve cv_prisma "u1" (CvRequest.remove_cv "c1") cv_db).1).cvs "c2"
    ≡ some other_cv
serve-IsForeignKept_example =
    serve-IsForeignKept cv_prisma "u1" (CvRequest.remove_cv "c1") cv_db "c2" other_cv refl refl

u1≢u2 : ◌≢◌ {A = String} "u1" "u2"
u1≢u2 e = ground (arith, e, eq_iff "u1" "u2")

cv_db-IsSingleDefault : IsSingleDefault cv_prisma cv_db.cvs
cv_db-IsSingleDefault a b ea eb same da db = ground (arith, ea, eb, same, u1≢u2)

abbrev to_default : CvRequest
to_default = CvRequest.update_cv 0 "c1" (record {
  title = some "Lead Engineer";
  template_id = none;
  status = none;
  is_default = some true;
})

abbrev to_create : CvRequest
to_create = CvRequest.create_cv "c3" 0 (record { title = "Engineer"; template_id = none })

Steps-IsSingleDefault_example :
    IsSingleDefault cv_prisma
      ((serve cv_prisma "u1" to_default (serve cv_prisma "u1" to_create cv_db).1).1).cvs
Steps-IsSingleDefault_example =
    Steps-IsSingleDefault cv_prisma cv_db
      (serve cv_prisma "u1" to_default (serve cv_prisma "u1" to_create cv_db).1).1
      (Steps.one_more cv_db (serve cv_prisma "u1" to_create cv_db).1 "u1" to_default
        (Steps.one_more cv_db cv_db "u1" to_create (Steps.none_left cv_db)))
      cv_db-IsSingleDefault

replace_section-seen_example :
    seen skill_section cv_prisma.skills "c1" (
      replace_section skill_section cv_prisma.skills "c1" fresh_id
        (changed_skill ∷ added_skill ∷ [])
        cv_db.skills)
    ≡ replace_view skill_section "c1" fresh_id
        (changed_skill ∷ added_skill ∷ [])
        (cv_prisma.skills.find cv_db.skills)
replace_section-seen_example =
    replace_section-seen skill_section cv_prisma.skills "c1" fresh_id
      (changed_skill ∷ added_skill ∷ []) cv_db.skills

-- The skills after the upsert.
abbrev new_skill : Skill
new_skill = record {
  id = "n1";
  cv_id = "c1";
  name = "SQL";
  level = SkillLevel.intermediate;
  category = none;
  sort_order = 0;
}

abbrev set_skill : Skill
set_skill = record {
  id = "s1";
  cv_id = "c1";
  name = "Rust";
  level = SkillLevel.intermediate;
  category = some "languages";
  sort_order = 2;
}

bulk_upsert_run :
    bulk_upsert cv_prisma skill_section
      (skill_place cv_prisma)
      fresh_id
      "c1"
      "u1"
      (changed_skill ∷ added_skill ∷ [])
      cv_db
    ≡ (
      ok (new_skill ∷ set_skill ∷ []),
      record cv_db { skills = new_skill ∷ set_skill ∷ skill_row "s3" "c2" "Care" 0 ∷ [] },
    )
unfolding bulk_upsert
bulk_upsert_run = refl

bulk_upsert_sound_example :
    ((k : String) (r : Skill)
      → cv_prisma.skills.find cv_db.skills k ≡ some r
      → str_eq r.cv_id "c1" ≡ false
      → cv_prisma.skills.find (new_skill ∷ set_skill ∷ skill_row "s3" "c2" "Care" 0 ∷ []) k
        ≡ some r)
    × ((k : String)
        → is_one_of k (named skill_section "c1" (changed_skill ∷ added_skill ∷ [])) ≡ true
        → on_cv skill_section "c1"
            (cv_prisma.skills.find (new_skill ∷ set_skill ∷ skill_row "s3" "c2" "Care" 0 ∷ []) k)
          ≡ true)
    × ((r : Skill)
        → IsIn r (new_skill ∷ set_skill ∷ [])
        → IsFilled skill_section "c1" (changed_skill ∷ added_skill ∷ []) r)
    × IsAscending (λ (r : Skill). r.sort_order) (new_skill ∷ set_skill ∷ [])
bulk_upsert_sound_example =
    bulk_upsert_sound cv_prisma skill_section (skill_place cv_prisma) fresh_id "c1" "u1"
      (changed_skill ∷ added_skill ∷ []) cv_db (new_skill ∷ set_skill ∷ [])
      (record cv_db { skills = new_skill ∷ set_skill ∷ skill_row "s3" "c2" "Care" 0 ∷ [] })
      bulk_upsert_run

generate_slug_lem_example :
    (is_tidy true (generate_slug "C++ -- Dev_Ops!") ≡ true)
    × (generate_slug (generate_slug "C++ -- Dev_Ops!") ≡ generate_slug "C++ -- Dev_Ops!")
generate_slug_lem_example = generate_slug_lem "C++ -- Dev_Ops!"

-- A second CV of the same title gets the next slug.
second_slug : ensure_unique_slug cv_prisma cv_db.cvs "u1" "engineer" none 0 ≡ "engineer-1"
unfolding ensure_unique_slug to_string
second_slug = refl

abbrev one_per_page : PaginationQuery
one_per_page = record { page = 1; limit = 1; sort_by = some "title"; descending = false }

find_all_by_user_complete_example :
    ((c : CvRow)
      → IsIn c (listed (answer cv_prisma "u1" one_per_page cv_db 1))
      → (cv_prisma.cvs.find cv_db.cvs c.id ≡ some c)
        × (is_theirs cv_prisma "u1" one_per_page cv_db c ≡ true))
    × (length (listed (answer cv_prisma "u1" one_per_page cv_db 1)) ≡ 1)
    × (listed_count cv_prisma "u1" one_per_page cv_db
          (says_pages (answer cv_prisma "u1" one_per_page cv_db 1))
          1
        ≡ 1)
    × (says_next (answer cv_prisma "u1" one_per_page cv_db 1) true ≡ false)
find_all_by_user_complete_example =
    find_all_by_user_complete cv_prisma "u1" one_per_page cv_db 1 true (omega arith)

unshare_run :
    unshare_cv cv_prisma "c1" "u1" cv_db ≡ (ok tt, record cv_db { shares = second_share ∷ [] })
unfolding unshare_cv
unshare_run = refl

-- The other CV, which is still shown.
abbrev other_full : FullCv
other_full = record {
  cv = other_cv;
  personal_info = none;
  experiences = [];
  education = [];
  skills = skill_row "s3" "c2" "Care" 0 ∷ [];
  certifications = [];
  projects = [];
  languages = [];
  custom_sections = [];
}

view_run :
    get_public_cv cv_prisma "2026-01-01T00:00:00.000Z" "xyz"
      (record cv_db { shares = second_share ∷ [] })
    ≡ (ok other_full, record cv_db { shares = viewed "2026-01-01T00:00:00.000Z" second_share ∷ [] })
unfolding get_public_cv
view_run = refl

closed-get_public_cv_example : str_eq other_full.cv.id "c1" ≡ false
closed-get_public_cv_example =
    closed-get_public_cv cv_prisma "c1" "u1" cv_db (record cv_db { shares = second_share ∷ [] }) ""
      "" 0 first_share "2026-01-01T00:00:00.000Z" "xyz" other_full
      (record cv_db { shares = viewed "2026-01-01T00:00:00.000Z" second_share ∷ [] })
      (inl unshare_run) view_run
