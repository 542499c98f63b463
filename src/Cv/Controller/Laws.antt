-- ===== src/Cv/Controller/Laws.antt =====
-- Requests that change CVs are refused for the CV of another user, and keep one default CV for
-- each user.
use prismacv_backend.Shared.{
  ℕ, ◌≡◌, refl, subst, String, Bool, true, false, Option, none, some, List, ok, err, M, pure,
  transaction, str_eq, Result, ◌>>=◌, ◌>>◌, Result-cases, Option-cases, inl, inr,
}
use prismacv_backend.Cv.Model.{CvRow, PersonalInfo, CvPrisma, CvDb}
use prismacv_backend.Cv.Slug.{ensure_unique_slug, generate_slug}
use prismacv_backend.Cv.Section.{Section}
use prismacv_backend.Cv.Place.{
  Place, experience_place, education_place, skill_place, certification_place, project_place,
  language_place, custom_section_place,
}
use prismacv_backend.Cv.Sections.{
  experience_section, education_section, skill_section, certification_section, project_section,
  language_section, custom_section_section,
}
use prismacv_backend.Cv.Editor.{
  FullCv, create, update, remove, new_cv, insert_cv, include_all, unique_slug, slug_for, delete_cv,
}
use prismacv_backend.Cv.Editor.Rows.{IsSingleDefault, Keeps-refl}
use prismacv_backend.Cv.Editor.Laws.{
  refusal, is_own, change_cv, owned-refused, owned-Keeps, insert-Keeps, create_lem, remove_lem,
  update_lem, IsKeeping, >>=-IsKeeping, transaction-IsKeeping, same-IsKeeping,
}
use prismacv_backend.Cv.Duplicate.{
  duplicate, copy_section, copy_rows, copy_info, insert_info, copy_parts, find_full, copied_title,
}
use prismacv_backend.Cv.Controller.{CvRequest, done, serve, Steps}
use prismacv_backend.Cv.Controller.Parts.{
  done-refused, serve_part-refused, serve_part-IsKeeping, part_guard, thrown,
}

module _ (p : CvPrisma) where
  copy_section-IsKeeping :
      (user_id cv : String) (s : Section) (place : Place p s)
      (copy : String → String → s.Row → s.Row) (fresh : ℕ → String) (rs : List s.Row)
      → IsKeeping p user_id (copy_section p cv s place copy fresh rs)
  copy_section-IsKeeping user_id cv s place copy fresh rs =
      same-IsKeeping p user_id (copy_section p cv s place copy fresh rs) (λ db.
        elim (Result-cases (copy_rows s place.table copy cv fresh 0 rs (place.rows db))) [
          | inl (rows, e) ↦ rw e (place.cvs-put rows db)
          | inr (x, e) ↦ rw e refl
        ])

  copy_info-IsKeeping :
      (user_id cv id : String) (o : Option PersonalInfo) → IsKeeping p user_id (copy_info p cv id o)
  copy_info-IsKeeping user_id cv id none db = Keeps-refl p user_id db.cvs
  copy_info-IsKeeping user_id cv id (some i) db =
      same-IsKeeping p user_id (insert_info p cv (record i { id = id; cv_id = cv }))
        (λ db. elim (Result-cases (p.infos.create db.infos (record i { id = id; cv_id = cv }))) [
          | inl (infos, e) ↦ rw e refl
          | inr (x, e) ↦ rw e refl
        ])
        db

  -- An operation with the proof that it keeps them.
  abbrev Kept : String → Type 0 → Type 0
  Kept user_id A = (m : M (CvDb p) A) × IsKeeping p user_id m

  abbrev both :
      {A : Type 0} (user_id : String) → Kept user_id (Unit {0}) → Kept user_id A → Kept user_id A
  both user_id (m, h) (k, h') = (m >> k, >>=-IsKeeping p user_id m (λ _. k) h (λ u. h'))

  abbrev kept_info : (user_id cv id : String) → Option PersonalInfo → Kept user_id (Unit {0})
  kept_info user_id cv id o = (copy_info p cv id o, copy_info-IsKeeping user_id cv id o)

  abbrev kept_section :
      (user_id cv : String) (s : Section) (place : Place p s)
      → (String → String → s.Row → s.Row)
      → (ℕ → String)
      → List s.Row
      → Kept user_id (Unit {0})
  kept_section user_id cv s place copy fresh rs = (
    copy_section p cv s place copy fresh rs,
    copy_section-IsKeeping user_id cv s place copy fresh rs,
  )

  copy_parts-IsKeeping :
      (user_id cv : String) (fresh : ℕ → ℕ → String) (source : FullCv)
      → IsKeeping p user_id (copy_parts p cv fresh source)
  unfolding copy_parts
  copy_parts-IsKeeping user_id cv fresh source =
      (both user_id (kept_info user_id cv (fresh 0 0) source.personal_info) (
        both user_id
          (kept_section user_id cv experience_section (experience_place p)
            (λ id cv r. record r { id = id; cv_id = cv }) (fresh 1) source.experiences)
          (both user_id
            (kept_section user_id cv education_section (education_place p)
              (λ id cv r. record r { id = id; cv_id = cv }) (fresh 2) source.education)
            (both user_id
              (kept_section user_id cv skill_section (skill_place p)
                (λ id cv r. record r { id = id; cv_id = cv }) (fresh 3) source.skills)
              (both user_id
                (kept_section user_id cv certification_section (certification_place p)
                  (λ id cv r. record r { id = id; cv_id = cv }) (fresh 4) source.certifications)
                (both user_id
                  (kept_section user_id cv project_section (project_place p)
                    (λ id cv r. record r { id = id; cv_id = cv }) (fresh 5) source.projects)
                  (both user_id
                    (kept_section user_id cv language_section (language_place p)
                      (λ id cv r. record r { id = id; cv_id = cv }) (fresh 6) source.languages)
                    (kept_section user_id cv custom_section_section (custom_section_place p)
                      (λ id cv r. record r { id = id; cv_id = cv }) (fresh 7)
                      source.custom_sections)))))))).1

  find_full-IsKeeping : (user_id id : String) → IsKeeping p user_id (find_full p id)
  find_full-IsKeeping user_id id = same-IsKeeping p user_id (find_full p id) (λ db.
      elim (Option-cases (p.cvs.find db.cvs id)) [ inl e ↦ rw e refl | inr (c, e) ↦ rw e refl ])

  -- The transaction of a duplication.
  abbrev copy_cv : String → (ℕ → ℕ → String) → String → FullCv → String → M (CvDb p) FullCv
  copy_cv new_id fresh user_id source slug = transaction (do
    insert_cv p (new_cv new_id user_id (copied_title source.cv.title) slug source.cv.template_id)
    copy_parts p new_id fresh source
    find_full p new_id)

  copy_cv-IsKeeping :
      (new_id : String) (fresh : ℕ → ℕ → String) (user_id : String) (source : FullCv)
      (slug : String)
      → IsKeeping p user_id (copy_cv new_id fresh user_id source slug)
  copy_cv-IsKeeping new_id fresh user_id source slug =
      let c = new_cv new_id user_id (copied_title source.cv.title) slug source.cv.template_id in
      transaction-IsKeeping p user_id
        (insert_cv p c >> (copy_parts p new_id fresh source >> find_full p new_id))
        (both user_id (insert_cv p c, λ db. insert-Keeps p user_id c db refl)
          (both user_id
            (copy_parts p new_id fresh source, copy_parts-IsKeeping user_id new_id fresh source)
            (find_full p new_id, find_full-IsKeeping user_id new_id))).1

  abbrev copy_own : String → (ℕ → ℕ → String) → ℕ → String → FullCv → M (CvDb p) FullCv
  copy_own new_id fresh now user_id source =
      unique_slug p user_id (copied_title source.cv.title) none now
      >>= copy_cv new_id fresh user_id source

  duplicate-IsKeeping :
      (new_id : String) (fresh : ℕ → ℕ → String) (now : ℕ) (cv_id user_id : String)
      → IsKeeping p user_id (duplicate p new_id fresh now cv_id user_id)
  unfolding duplicate
  duplicate-IsKeeping new_id fresh now cv_id user_id db =
      owned-Keeps p cv_id user_id (copy_own new_id fresh now user_id) db (λ c there own.
        copy_cv-IsKeeping new_id fresh user_id (include_all p db c)
          (ensure_unique_slug p db.cvs user_id
            (generate_slug (copied_title (include_all p db c).cv.title)) none now)
          db)

  done-IsKeeping :
      {A : Type 0} (user_id : String) (m : M (CvDb p) A)
      → IsKeeping p user_id m
      → IsKeeping p user_id (done p m)
  done-IsKeeping user_id m h =
      >>=-IsKeeping p user_id m (λ a. pure tt) h (λ a db. Keeps-refl p user_id db.cvs)

  serve-IsKeeping :
      (user_id : String) (request : CvRequest) → IsKeeping p user_id (serve p user_id request)
  unfolding serve
  serve-IsKeeping user_id (CvRequest.create_cv id now dto) =
      done-IsKeeping user_id (create p id now user_id dto) (create_lem p id now user_id dto)
  serve-IsKeeping user_id (CvRequest.update_cv now id dto) =
      done-IsKeeping user_id (update p now id user_id dto) (update_lem p now id user_id dto)
  serve-IsKeeping user_id (CvRequest.remove_cv id) = remove_lem p id user_id
  serve-IsKeeping user_id (CvRequest.duplicate_cv new_id fresh now id) =
      done-IsKeeping user_id (duplicate p new_id fresh now id user_id)
        (duplicate-IsKeeping new_id fresh now id user_id)
  serve-IsKeeping user_id (CvRequest.part_of id request) = serve_part-IsKeeping p user_id id request

  -- A request leaves the row of every CV of another user as it is, whether it succeeds or fails.
  pub serve-IsForeignKept :
      (user_id : String) (request : CvRequest) (db : CvDb p) (k : String) (r : CvRow)
      → p.cvs.find db.cvs k ≡ some r
      → str_eq r.user_id user_id ≡ false
      → p.cvs.find ((serve p user_id request db).1).cvs k ≡ some r
  serve-IsForeignKept user_id request db k r = (serve-IsKeeping user_id request db).1 k r

  -- However many requests of any users are served, one after the other, a user that starts with
  -- at most one default CV ends with at most one.
  pub Steps-IsSingleDefault :
      (db db' : CvDb p) → Steps p db db' → IsSingleDefault p db.cvs → IsSingleDefault p db'.cvs
  Steps-IsSingleDefault db db' (Steps.none_left _) h = h
  Steps-IsSingleDefault db db' (Steps.one_more _ mid user_id request before) h =
      (serve-IsKeeping user_id request mid).0 (Steps-IsSingleDefault db mid before h)

  -- The CV that a request is about.
  abbrev pub target : CvRequest → Option String
  target (CvRequest.create_cv id now dto) = none
  target (CvRequest.update_cv now id dto) = some id
  target (CvRequest.remove_cv id) = some id
  target (CvRequest.duplicate_cv new_id fresh now id) = some id
  target (CvRequest.part_of id request) = some id

  -- What the guard of a route answers.
  abbrev pub guard_of : CvRequest → Result Bool
  guard_of (CvRequest.part_of id request) = part_guard p request
  guard_of _ = ok true

  abbrev IsRefused : String → CvRequest → CvDb p → Option String → Type 0
  IsRefused user_id request db none = Unit
  IsRefused user_id request db (some cv_id) =
      is_own p user_id (p.cvs.find db.cvs cv_id) ≡ false
      → serve p user_id request db
        ≡ (err (thrown p (guard_of request) (refusal p cv_id (p.cvs.find db.cvs cv_id))), db)

  target-IsRefused :
      (user_id : String) (request : CvRequest) (db : CvDb p)
      → IsRefused user_id request db (target request)
  unfolding serve update remove duplicate delete_cv
  target-IsRefused user_id (CvRequest.create_cv id now dto) db = tt
  target-IsRefused user_id (CvRequest.update_cv now id dto) db = λ h.
      done-refused p id user_id
        (λ cv. slug_for p id user_id now dto.title >>= change_cv p id user_id dto) db h
  target-IsRefused user_id (CvRequest.remove_cv id) db =
      λ h. owned-refused p id user_id (λ cv db. (ok tt, delete_cv p id db)) db h
  target-IsRefused user_id (CvRequest.duplicate_cv new_id fresh now id) db =
      λ h. done-refused p id user_id (copy_own new_id fresh now user_id) db h
  target-IsRefused user_id (CvRequest.part_of id request) db =
      λ h. serve_part-refused p user_id id request db h

  -- A request about a CV that is missing is answered with 404, and one about the CV of another
  -- user with 403, unless the guard of the plan, which sharing has, refuses it first with an answer of
  -- its own; nothing changes.
  pub serve-refused :
      (user_id cv_id : String) (request : CvRequest) (db : CvDb p)
      → target request ≡ some cv_id
      → is_own p user_id (p.cvs.find db.cvs cv_id) ≡ false
      → serve p user_id request db
        ≡ (err (thrown p (guard_of request) (refusal p cv_id (p.cvs.find db.cvs cv_id))), db)
  serve-refused user_id cv_id request db about h =
      subst (IsRefused user_id request db) about (target-IsRefused user_id request db) h
