-- ===== src/Cv/Editor/Laws.antt =====
-- What the operations on CVs keep, and what they refuse.
use prismacv_backend.Shared.{
  ℕ, ◌≡◌, refl, sym, ap, ◌∙◌, String, Bool, true, false, Option, none, some, str_eq, or_default, ok,
  err, Error, M, transaction, ◌>>=◌, ◌>>◌, not_found, forbidden, arith, inl, inr, Bool-cases,
  Option-cases, Result-cases,
}
use prismacv_backend.Shared.Text.{◌&◌}
use prismacv_backend.Cv.Model.{CvRow, CvPrisma, CvDb}
use prismacv_backend.Cv.Slug.{ensure_unique_slug, generate_slug}
use prismacv_backend.Cv.Editor.{
  FullCv, CreateCvRequest, UpdateCvRequest, CvPatch, patch_of, apply_cv_patch, find_cv_or_throw,
  include_all, create, update, remove, update_cv, unset_others, slug_for, is_other_default,
  not_default, insert_cv, new_cv, delete_cv,
}
use prismacv_backend.Cv.Editor.Rows.{
  Keeps, Keeps-refl, Keeps-trans, create-Keeps, delete-Keeps, keep-Keeps, unset-Keeps,
}

pub ok_err : {A : Type 0} {a : A} {x : Error} → ok a ≡ err x → ⊥
ok_err h = cc

module _ (p : CvPrisma) where
  -- The answer for a CV that is not the user's: that it is missing, or that it is another's.
  abbrev pub refusal : String → Option CvRow → Error
  refusal cv_id none = not_found ("CV with id " & cv_id & " not found")
  refusal cv_id (some c) = forbidden "You do not have access to this CV"

  abbrev pub is_own : String → Option CvRow → Bool
  is_own user_id none = false
  is_own user_id (some c) = str_eq c.user_id user_id

  pub find_cv_or_throw-refused :
      (cv_id user_id : String) (db : CvDb p)
      → is_own user_id (p.cvs.find db.cvs cv_id) ≡ false
      → find_cv_or_throw p cv_id user_id db ≡ (err (refusal cv_id (p.cvs.find db.cvs cv_id)), db)
  unfolding find_cv_or_throw
  find_cv_or_throw-refused cv_id user_id db h = elim (Option-cases (p.cvs.find db.cvs cv_id)) [
    | inl e ↦ rw e refl
    | inr (c, e) ↦ ground (arith, e, h)
  ]

  pub find_cv_or_throw-own :
      (cv_id user_id : String) (db : CvDb p) (c : CvRow)
      → p.cvs.find db.cvs cv_id ≡ some c
      → str_eq c.user_id user_id ≡ true
      → find_cv_or_throw p cv_id user_id db ≡ (ok (include_all p db c), db)
  unfolding find_cv_or_throw
  find_cv_or_throw-own cv_id user_id db c e own = rw (e, own) refl

  -- The rest of an operation that begins with find_cv_or_throw.
  module _ {A : Type 0} (cv_id user_id : String) (f : FullCv → M (CvDb p) A) (db : CvDb p) where
    pub owned-refused :
        is_own user_id (p.cvs.find db.cvs cv_id) ≡ false
        → (find_cv_or_throw p cv_id user_id >>= f) db
          ≡ (err (refusal cv_id (p.cvs.find db.cvs cv_id)), db)
    owned-refused h = rw (find_cv_or_throw-refused cv_id user_id db h) refl

    owned-done :
        (c : CvRow)
        → p.cvs.find db.cvs cv_id ≡ some c
        → str_eq c.user_id user_id ≡ true
        → (find_cv_or_throw p cv_id user_id >>= f) db ≡ f (include_all p db c) db
    owned-done c there own = rw (find_cv_or_throw-own cv_id user_id db c there own) refl

    pub owned-eq-ok :
        (a : A) (db' : CvDb p)
        → (find_cv_or_throw p cv_id user_id >>= f) db ≡ (ok a, db')
        → (c : CvRow) × (p.cvs.find db.cvs cv_id ≡ some c)
          × (str_eq c.user_id user_id ≡ true)
          × (f (include_all p db c) db ≡ (ok a, db'))
    owned-eq-ok a db' h = elim (Option-cases (p.cvs.find db.cvs cv_id)) [
      | inl gone ↦
          let no : is_own user_id (p.cvs.find db.cvs cv_id) ≡ false = ground (arith, gone) in
          absurd (ok_err (sym (ap (λ r. r.0) h) ∙ ap (λ r. r.0) (owned-refused no)))
      | inr (c, there) ↦ elim (Bool-cases (str_eq c.user_id user_id)) [
        | inr other ↦
            let no : is_own user_id (p.cvs.find db.cvs cv_id) ≡ false =
              ground (arith, there, other) in
            absurd (ok_err (sym (ap (λ r. r.0) h) ∙ ap (λ r. r.0) (owned-refused no)))
        | inl own ↦ (c, there, own, sym (owned-done c there own) ∙ h)
      ]
    ]

    pub owned-Keeps :
        ((c : CvRow)
          → p.cvs.find db.cvs cv_id ≡ some c
          → str_eq c.user_id user_id ≡ true
          → Keeps p user_id db.cvs ((f (include_all p db c) db).1).cvs)
        → Keeps p user_id db.cvs (((find_cv_or_throw p cv_id user_id >>= f) db).1).cvs
    owned-Keeps h = elim (Bool-cases (is_own user_id (p.cvs.find db.cvs cv_id))) [
      | inr e ↦ rw (owned-refused e) (Keeps-refl p user_id db.cvs)
      | inl e ↦ elim (Option-cases (p.cvs.find db.cvs cv_id)) [
        | inl gone ↦ ground (arith, e, gone)
        | inr (c, there) ↦
            let own : str_eq c.user_id user_id ≡ true = ground (arith, e, there) in
            rw (find_cv_or_throw-own cv_id user_id db c there own) (h c there own)
      ]
    ]

  pub insert-Keeps :
      (user_id : String) (c : CvRow) (db : CvDb p)
      → c.is_default ≡ false
      → Keeps p user_id db.cvs ((insert_cv p c db).1).cvs
  insert-Keeps user_id c db plain = elim (Result-cases (p.cvs.create db.cvs c)) [
    | inl (cvs, e) ↦ rw e (create-Keeps p user_id db.cvs cvs c plain e)
    | inr (x, e) ↦ rw e (Keeps-refl p user_id db.cvs)
  ]

  pub create_lem :
      (id : String) (now : ℕ) (user_id : String) (dto : CreateCvRequest) (db : CvDb p)
      → Keeps p user_id db.cvs ((create p id now user_id dto db).1).cvs
  unfolding create
  create_lem id now user_id dto db =
      let c =
        new_cv id user_id dto.title
          (ensure_unique_slug p db.cvs user_id (generate_slug dto.title) none now)
          dto.template_id in
      elim (Result-cases (p.cvs.create db.cvs c)) [
        | inl (cvs, e) ↦ rw e (create-Keeps p user_id db.cvs cvs c refl e)
        | inr (x, e) ↦ rw e (Keeps-refl p user_id db.cvs)
      ]

  pub remove_lem :
      (cv_id user_id : String) (db : CvDb p)
      → Keeps p user_id db.cvs ((remove p cv_id user_id db).1).cvs
  unfolding remove delete_cv
  remove_lem cv_id user_id db =
      owned-Keeps cv_id user_id (λ cv db. (ok tt, delete_cv p cv_id db)) db
        (λ c there own. delete-Keeps p user_id db.cvs cv_id c there own)

  -- An operation that keeps them in every state.
  abbrev pub IsKeeping : {A : Type 0} → String → M (CvDb p) A → Type 0
  IsKeeping user_id m = (db : CvDb p) → Keeps p user_id db.cvs ((m db).1).cvs

  pub >>=-IsKeeping :
      {A B : Type 0} (user_id : String) (m : M (CvDb p) A) (f : A → M (CvDb p) B)
      → IsKeeping user_id m
      → ((a : A) → IsKeeping user_id (f a))
      → IsKeeping user_id (m >>= f)
  >>=-IsKeeping user_id m f first rest db = elim (Result-cases (m db).0) [
    | inl (a, e) ↦ rw e (
        Keeps-trans p user_id db.cvs ((m db).1).cvs ((f a (m db).1).1).cvs (first db)
          (rest a (m db).1))
    | inr (x, e) ↦ rw e (first db)
  ]

  pub transaction-IsKeeping :
      {A : Type 0} (user_id : String) (m : M (CvDb p) A)
      → IsKeeping user_id m
      → IsKeeping user_id (transaction m)
  transaction-IsKeeping user_id m h db = elim (Result-cases (m db).0) [
    | inl (a, e) ↦ rw e (h db)
    | inr (x, e) ↦ rw e (Keeps-refl p user_id db.cvs)
  ]

  -- An operation that leaves the table of CVs alone.
  pub same-IsKeeping :
      {A : Type 0} (user_id : String) (m : M (CvDb p) A)
      → ((db : CvDb p) → ((m db).1).cvs ≡ db.cvs)
      → IsKeeping user_id m
  same-IsKeeping user_id m h db = rw (h db) (Keeps-refl p user_id db.cvs)

  transaction-Keeps :
      {A : Type 0} (user_id : String) (m : M (CvDb p) A) (db : CvDb p)
      → ((a : A) → (m db).0 ≡ ok a → Keeps p user_id db.cvs ((m db).1).cvs)
      → Keeps p user_id db.cvs ((transaction m db).1).cvs
  transaction-Keeps user_id m db h = elim (Result-cases (m db).0) [
    | inl (a, e) ↦ rw e (h a e)
    | inr (x, e) ↦ rw e (Keeps-refl p user_id db.cvs)
  ]

  module _ (cv_id user_id : String) (db : CvDb p) (c : CvRow) (d : CvPatch)
      (there : p.cvs.find db.cvs cv_id ≡ some c) (own : str_eq c.user_id user_id ≡ true) where
    change-Keeps :
        or_default d.is_default false ≡ false
        → Keeps p user_id db.cvs ((update_cv p cv_id d db).1).cvs
    change-Keeps plain = elim (Result-cases (p.cvs.update db.cvs cv_id (apply_cv_patch d))) [
      | inl ((changed, cvs), e) ↦
          rw e (keep-Keeps p user_id db.cvs db.cvs cvs cv_id c changed d there own e refl plain)
      | inr (x, e) ↦ rw e (Keeps-refl p user_id db.cvs)
    ]

    unset-change-Keeps :
        Keeps p user_id db.cvs
          ((transaction (unset_others p true user_id cv_id >> update_cv p cv_id d) db).1).cvs
    unset-change-Keeps =
        elim (Result-cases
          (p.cvs.update_many db.cvs (is_other_default user_id cv_id) not_default)) [
            | inr (x, e) ↦ rw e (Keeps-refl p user_id db.cvs)
            | inl ((n, cvs), e) ↦ elim (Result-cases (p.cvs.update cvs cv_id (apply_cv_patch d))) [
              | inr (x, f) ↦ rw (e, f) (Keeps-refl p user_id db.cvs)
              | inl ((changed, cvs'), f) ↦
                  rw (e, f)
                    (unset-Keeps p user_id db.cvs cvs cvs' cv_id c changed d there own f (λ k.
                      p.cvs.find-update_many db.cvs cvs (is_other_default user_id cv_id) not_default
                        n k (λ r. refl) e))
            ]
          ]

    set-Keeps :
        (b : Bool)
        → or_default d.is_default false ≡ b
        → Keeps p user_id db.cvs
            ((transaction (unset_others p b user_id cv_id >> update_cv p cv_id d) db).1).cvs
    set-Keeps false e =
        transaction-Keeps user_id (unset_others p false user_id cv_id >> update_cv p cv_id d) db
          (λ a done. change-Keeps e)
    set-Keeps true e = unset-change-Keeps

  abbrev pub change_cv : String → String → UpdateCvRequest → Option String → M (CvDb p) FullCv
  change_cv cv_id user_id dto slug = transaction (
      unset_others p (or_default dto.is_default false) user_id cv_id
      >> update_cv p cv_id (patch_of p dto slug))

  slug-Keeps :
      (now : ℕ) (cv_id user_id : String) (dto : UpdateCvRequest) (db : CvDb p) (c : CvRow)
      (title : Option String)
      → p.cvs.find db.cvs cv_id ≡ some c
      → str_eq c.user_id user_id ≡ true
      → Keeps p user_id db.cvs
          (((slug_for p cv_id user_id now title >>= change_cv cv_id user_id dto) db).1).cvs
  slug-Keeps now cv_id user_id dto db c none there own =
      set-Keeps cv_id user_id db c (patch_of p dto none) there own (or_default dto.is_default false)
        refl
  slug-Keeps now cv_id user_id dto db c (some title) there own =
      set-Keeps cv_id user_id db c
        (patch_of p dto
          (some (ensure_unique_slug p db.cvs user_id (generate_slug title) (some cv_id) now)))
        there own (or_default dto.is_default false) refl

  pub update_lem :
      (now : ℕ) (cv_id user_id : String) (dto : UpdateCvRequest)
      → IsKeeping user_id (update p now cv_id user_id dto)
  unfolding update
  update_lem now cv_id user_id dto db =
      owned-Keeps cv_id user_id
        (λ cv. slug_for p cv_id user_id now dto.title >>= change_cv cv_id user_id dto) db
        (λ c there own. slug-Keeps now cv_id user_id dto db c dto.title there own)
