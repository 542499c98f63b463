-- ===== src/Cv/Controller/Parts.antt =====
-- The requests for the parts of a CV are refused for the CV of another user, and leave the table of CVs alone.
use prismacv_backend.Shared.{
  ℕ, ◌≡◌, refl, String, Bool, true, false, Option, none, some, List, Result, Error, ok, err, M,
  pure, or_default, str_eq, ◌>>=◌, Result-cases, inl, inr,
}
use prismacv_backend.Cv.Model.{CvShare, PersonalInfo, CvPrisma, CvDb}
use prismacv_backend.Cv.Section.{Section, replace_section}
use prismacv_backend.Cv.Place.{
  Place, experience_place, education_place, skill_place, certification_place, project_place,
  language_place, custom_section_place,
}
use prismacv_backend.Cv.Sections.{
  experience_section, education_section, skill_section, certification_section, project_section,
  language_section, custom_section_section,
}
use prismacv_backend.Cv.Editor.{FullCv, find_cv_or_throw}
use prismacv_backend.Cv.Editor.Rows.{Keeps-refl}
use prismacv_backend.Cv.Editor.Laws.{
  refusal, is_own, owned-refused, owned-Keeps, IsKeeping, >>=-IsKeeping, same-IsKeeping,
}
use prismacv_backend.Cv.Upserts.{
  UpsertPersonalInfoRequest, fill_info, empty_info, upsert_personal_info, put_info, write_section,
  bulk_upsert, bulk_upsert_experiences, bulk_upsert_education, bulk_upsert_skills,
  bulk_upsert_certifications, bulk_upsert_projects, bulk_upsert_languages,
  bulk_upsert_custom_sections,
}
use prismacv_backend.Cv.Share.{
  share_cv, unshare_cv, set_public, new_share, share_slug_of, with_public,
}
use prismacv_backend.Cv.Controller.{PartRequest, done, serve_part}

module _ (p : CvPrisma) where
  pub done-refused :
      {A : Type 0} (cv_id user_id : String) (f : FullCv → M (CvDb p) A) (db : CvDb p)
      → is_own p user_id (p.cvs.find db.cvs cv_id) ≡ false
      → done p (find_cv_or_throw p cv_id user_id >>= f) db
        ≡ (err (refusal p cv_id (p.cvs.find db.cvs cv_id)), db)
  done-refused cv_id user_id f db h = rw (owned-refused p cv_id user_id f db h) refl

  module _ (s : Section) (place : Place p s) (fresh : ℕ → String) (cv_id user_id : String)
      (items : List s.Item) where
    bulk_upsert-refused :
        (db : CvDb p)
        → is_own p user_id (p.cvs.find db.cvs cv_id) ≡ false
        → done p (bulk_upsert p s place fresh cv_id user_id items) db
          ≡ (err (refusal p cv_id (p.cvs.find db.cvs cv_id)), db)
    unfolding bulk_upsert
    bulk_upsert-refused db h =
        done-refused cv_id user_id (λ cv. write_section p s place fresh cv_id items) db h

    write_section-cvs :
        (db : CvDb p) → ((write_section p s place fresh cv_id items db).1).cvs ≡ db.cvs
    write_section-cvs db =
        elim (Result-cases (replace_section s place.table cv_id fresh items (place.rows db))) [
          | inl (rows, e) ↦ rw e (place.cvs-put rows db)
          | inr (x, e) ↦ rw e refl
        ]

    bulk_upsert-IsKeeping :
        IsKeeping p user_id (done p (bulk_upsert p s place fresh cv_id user_id items))
    unfolding bulk_upsert
    bulk_upsert-IsKeeping =
        >>=-IsKeeping p user_id (bulk_upsert p s place fresh cv_id user_id items) (λ rows. pure tt)
          (λ db.
            owned-Keeps p cv_id user_id (λ cv. write_section p s place fresh cv_id items) db
              (λ c there own.
                same-IsKeeping p user_id (write_section p s place fresh cv_id items)
                  write_section-cvs db))
          (λ rows db. Keeps-refl p user_id db.cvs)

  put_info-cvs :
      (id cv_id : String) (dto : UpsertPersonalInfoRequest) (o : Option PersonalInfo) (db : CvDb p)
      → ((put_info p id cv_id dto o db).1).cvs ≡ db.cvs
  put_info-cvs id cv_id dto none db =
      elim (Result-cases (p.infos.create db.infos (fill_info dto (empty_info id cv_id)))) [
        | inl (infos, e) ↦ rw e refl
        | inr (x, e) ↦ rw e refl
      ]
  put_info-cvs id cv_id dto (some i) db =
      elim (Result-cases (p.infos.update db.infos cv_id (fill_info dto))) [
        | inl ((i', infos), e) ↦ rw e refl
        | inr (x, e) ↦ rw e refl
      ]

  set_public-cvs :
      (drawn id : String) (now : ℕ) (cv_id : String) (is_public : Bool) (o : Option CvShare)
      (db : CvDb p)
      → ((set_public p drawn id now cv_id is_public o db).1).cvs ≡ db.cvs
  set_public-cvs drawn id now cv_id is_public none db =
      elim (Result-cases
        (p.shares.create db.shares (new_share id cv_id (share_slug_of drawn now) is_public))) [
          | inl (shares, e) ↦ rw e refl
          | inr (x, e) ↦ rw e refl
        ]
  set_public-cvs drawn id now cv_id is_public (some s) db =
      elim (Result-cases (p.shares.update db.shares cv_id (with_public is_public))) [
        | inl ((s', shares), e) ↦ rw e refl
        | inr (x, e) ↦ rw e refl
      ]

  -- What the guard of a route answers.
  abbrev pub part_guard : PartRequest → Result Bool
  part_guard (PartRequest.share access drawn share_id now is_public) = access
  part_guard _ = ok true

  -- The exception of the guard, where it throws, or that of the service.
  abbrev pub thrown : Result Bool → Error → Error
  thrown (ok b) e = e
  thrown (err g) e = g

  pub serve_part-refused :
      (user_id id : String) (request : PartRequest) (db : CvDb p)
      → is_own p user_id (p.cvs.find db.cvs id) ≡ false
      → serve_part p user_id id request db
        ≡ (err (thrown (part_guard request) (refusal p id (p.cvs.find db.cvs id))), db)
  unfolding serve_part upsert_personal_info bulk_upsert_experiences bulk_upsert_education
      bulk_upsert_skills bulk_upsert_certifications bulk_upsert_projects bulk_upsert_languages
      bulk_upsert_custom_sections share_cv unshare_cv
  serve_part-refused user_id id (PartRequest.share (err g) drawn share_id now is_public) db h = refl
  serve_part-refused user_id id (PartRequest.share (ok b) drawn share_id now is_public) db h =
      done-refused id user_id
        (λ cv db.
          set_public p drawn share_id now id (or_default is_public true)
            (p.shares.find db.shares id) db)
        db h
  serve_part-refused user_id id PartRequest.unshare db h =
      owned-refused p id user_id
        (λ cv db.
          (ok tt, record db { shares = p.shares.delete_many db.shares (λ s. str_eq s.cv_id id) }))
        db h
  serve_part-refused user_id id (PartRequest.personal_info info_id dto) db h =
      done-refused id user_id (λ cv db. put_info p info_id id dto (p.infos.find db.infos id) db) db
        h
  serve_part-refused user_id id (PartRequest.experiences fresh items) db h =
      bulk_upsert-refused experience_section (experience_place p) fresh id user_id items db h
  serve_part-refused user_id id (PartRequest.education fresh items) db h =
      bulk_upsert-refused education_section (education_place p) fresh id user_id items db h
  serve_part-refused user_id id (PartRequest.skills fresh items) db h =
      bulk_upsert-refused skill_section (skill_place p) fresh id user_id items db h
  serve_part-refused user_id id (PartRequest.certifications fresh items) db h =
      bulk_upsert-refused certification_section (certification_place p) fresh id user_id items db h
  serve_part-refused user_id id (PartRequest.projects fresh items) db h =
      bulk_upsert-refused project_section (project_place p) fresh id user_id items db h
  serve_part-refused user_id id (PartRequest.languages fresh items) db h =
      bulk_upsert-refused language_section (language_place p) fresh id user_id items db h
  serve_part-refused user_id id (PartRequest.custom_sections fresh items) db h =
      bulk_upsert-refused custom_section_section (custom_section_place p) fresh id user_id items db
        h

  pub serve_part-IsKeeping :
      (user_id id : String) (request : PartRequest)
      → IsKeeping p user_id (serve_part p user_id id request)
  unfolding serve_part upsert_personal_info bulk_upsert_experiences bulk_upsert_education
      bulk_upsert_skills bulk_upsert_certifications bulk_upsert_projects bulk_upsert_languages
      bulk_upsert_custom_sections share_cv unshare_cv
  serve_part-IsKeeping user_id id (PartRequest.share (err g) drawn share_id now is_public) =
      λ db. Keeps-refl p user_id db.cvs
  serve_part-IsKeeping user_id id (PartRequest.share (ok b) drawn share_id now is_public) =
      >>=-IsKeeping p user_id (share_cv p drawn share_id now id user_id (or_default is_public true))
        (λ s. pure tt)
        (λ db.
          owned-Keeps p id user_id
            (λ cv db.
              set_public p drawn share_id now id (or_default is_public true)
                (p.shares.find db.shares id) db)
            db
            (λ c there own.
              same-IsKeeping p user_id
                (λ db.
                  set_public p drawn share_id now id (or_default is_public true)
                    (p.shares.find db.shares id) db)
                (λ db.
                  set_public-cvs drawn share_id now id (or_default is_public true)
                    (p.shares.find db.shares id) db)
                db))
        (λ s db. Keeps-refl p user_id db.cvs)
  serve_part-IsKeeping user_id id PartRequest.unshare = λ db.
      owned-Keeps p id user_id
        (λ cv db.
          (ok tt, record db { shares = p.shares.delete_many db.shares (λ s. str_eq s.cv_id id) }))
        db (λ c there own. Keeps-refl p user_id db.cvs)
  serve_part-IsKeeping user_id id (PartRequest.personal_info info_id dto) =
      >>=-IsKeeping p user_id (upsert_personal_info p info_id id user_id dto) (λ i. pure tt)
        (λ db.
          owned-Keeps p id user_id
            (λ cv db. put_info p info_id id dto (p.infos.find db.infos id) db) db
            (λ c there own.
              same-IsKeeping p user_id
                (λ db. put_info p info_id id dto (p.infos.find db.infos id) db)
                (λ db. put_info-cvs info_id id dto (p.infos.find db.infos id) db) db))
        (λ i db. Keeps-refl p user_id db.cvs)
  serve_part-IsKeeping user_id id (PartRequest.experiences fresh items) =
      bulk_upsert-IsKeeping experience_section (experience_place p) fresh id user_id items
  serve_part-IsKeeping user_id id (PartRequest.education fresh items) =
      bulk_upsert-IsKeeping education_section (education_place p) fresh id user_id items
  serve_part-IsKeeping user_id id (PartRequest.skills fresh items) =
      bulk_upsert-IsKeeping skill_section (skill_place p) fresh id user_id items
  serve_part-IsKeeping user_id id (PartRequest.certifications fresh items) =
      bulk_upsert-IsKeeping certification_section (certification_place p) fresh id user_id items
  serve_part-IsKeeping user_id id (PartRequest.projects fresh items) =
      bulk_upsert-IsKeeping project_section (project_place p) fresh id user_id items
  serve_part-IsKeeping user_id id (PartRequest.languages fresh items) =
      bulk_upsert-IsKeeping language_section (language_place p) fresh id user_id items
  serve_part-IsKeeping user_id id (PartRequest.custom_sections fresh items) =
      bulk_upsert-IsKeeping custom_section_section (custom_section_place p) fresh id user_id items
