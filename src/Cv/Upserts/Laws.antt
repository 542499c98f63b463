-- ===== src/Cv/Upserts/Laws.antt =====
-- What a bulk upsert of a section answers and leaves, and that one that fails changes nothing.
use prismacv_backend.Shared.{
  is_one_of, ℕ, ◌≡◌, refl, sym, ap, ◌∙◌, subst, String, true, false, some, List, Result, ok, err,
  Error, str_eq, IsIn, arith, inl, inr, Bool-cases, Option-cases, Result-cases,
}
use prismacv_backend.Shared.Sort.{IsAscending}
use prismacv_backend.Cv.Model.{CvRow, CvPrisma, CvDb}
use prismacv_backend.Cv.Section.{Section, replace_section, rows_of}
use prismacv_backend.Cv.Section.View.{named, on_cv}
use prismacv_backend.Cv.Section.Effect.{
  IsFilled, replace_section-foreign, replace_section-named, replace_section-IsFilled,
}
use prismacv_backend.Cv.Place.{Place}
use prismacv_backend.Cv.Editor.Laws.{is_own, refusal, owned-refused, find_cv_or_throw-own, ok_err}
use prismacv_backend.Cv.Upserts.{bulk_upsert, write_section}

abbrev value_or : {A : Type 0} → Result A → A → A
value_or (ok a) b = a
value_or (err e) b = b

ok_injective : {A : Type 0} {a b : A} → ok a ≡ ok b → a ≡ b
ok_injective {a = a} h = ap (λ r. value_or r a) h

module _ (p : CvPrisma) (s : Section) (place : Place p s) (fresh : ℕ → String)
    (cv_id user_id : String) (items : List s.Item) (db : CvDb p) where
  abbrev replaced : Result place.table.Rows
  replaced = replace_section s place.table cv_id fresh items (place.rows db)

  own_row :
      is_own p user_id (p.cvs.find db.cvs cv_id) ≡ true
      → (c : CvRow) × (p.cvs.find db.cvs cv_id ≡ some c) × (str_eq c.user_id user_id ≡ true)
  own_row own = elim (Option-cases (p.cvs.find db.cvs cv_id)) [
    | inl e ↦ ground (arith, e, own)
    | inr (c, e) ↦ (c, e, ground (arith, e, own))
  ]

  bulk_upsert-done :
      (rows : place.table.Rows)
      → is_own p user_id (p.cvs.find db.cvs cv_id) ≡ true
      → replaced ≡ ok rows
      → bulk_upsert p s place fresh cv_id user_id items db
        ≡ (ok (rows_of s place.table cv_id (place.rows (place.put rows db))), place.put rows db)
  unfolding bulk_upsert
  bulk_upsert-done rows own e =
      let (c, there, same) = own_row own in
      rw (find_cv_or_throw-own p cv_id user_id db c there same, e) refl

  bulk_upsert-failed :
      (x : Error)
      → is_own p user_id (p.cvs.find db.cvs cv_id) ≡ true
      → replaced ≡ err x
      → bulk_upsert p s place fresh cv_id user_id items db ≡ (err x, db)
  unfolding bulk_upsert
  bulk_upsert-failed x own e =
      let (c, there, same) = own_row own in
      rw (find_cv_or_throw-own p cv_id user_id db c there same, e) refl

  bulk_upsert-foreign :
      is_own p user_id (p.cvs.find db.cvs cv_id) ≡ false
      → bulk_upsert p s place fresh cv_id user_id items db
        ≡ (err (refusal p cv_id (p.cvs.find db.cvs cv_id)), db)
  unfolding bulk_upsert
  bulk_upsert-foreign other =
      owned-refused p cv_id user_id (λ cv. write_section p s place fresh cv_id items) db other

  -- The answer of an upsert that returns, and what it has written.
  bulk_upsert-eq-ok :
      (answer : List s.Row) (db' : CvDb p)
      → bulk_upsert p s place fresh cv_id user_id items db ≡ (ok answer, db')
      → (replaced ≡ ok (place.rows db')) × (answer ≡ rows_of s place.table cv_id (place.rows db'))
  bulk_upsert-eq-ok answer db' h = elim (Bool-cases (is_own p user_id (p.cvs.find db.cvs cv_id))) [
    | inr other ↦
        absurd (ok_err (sym (ap (λ r. r.0) h) ∙ ap (λ r. r.0) (bulk_upsert-foreign other)))
    | inl own ↦ elim (Result-cases replaced) [
      | inr (x, e) ↦
          absurd (ok_err (sym (ap (λ r. r.0) h) ∙ ap (λ r. r.0) (bulk_upsert-failed x own e)))
      | inl (rows, e) ↦
          let both = sym (bulk_upsert-done rows own e) ∙ h in
          let state = ap (λ r. r.1) both in
          let same = sym (place.rows-put rows db) ∙ ap place.rows state in
          (
            e ∙ ap ok same,
            ok_injective (ap (λ r. r.0) (sym both))
                ∙ ap (λ d. rows_of s place.table cv_id (place.rows d)) state,
          )
    ]
  ]

  pub bulk_upsert-err :
      (x : Error) (db' : CvDb p)
      → bulk_upsert p s place fresh cv_id user_id items db ≡ (err x, db')
      → db' ≡ db
  bulk_upsert-err x db' h = elim (Bool-cases (is_own p user_id (p.cvs.find db.cvs cv_id))) [
    | inr other ↦ ap (λ r. r.1) (sym h ∙ bulk_upsert-foreign other)
    | inl own ↦ elim (Result-cases replaced) [
      | inr (y, e) ↦ ap (λ r. r.1) (sym h ∙ bulk_upsert-failed y own e)
      | inl (rows, e) ↦
          absurd (ok_err (sym (ap (λ r. r.0) (bulk_upsert-done rows own e)) ∙ ap (λ r. r.0) h))
    ]
  ]

  rows_of-own :
      (rows : place.table.Rows) (r : s.Row)
      → IsIn r (rows_of s place.table cv_id rows)
      → (place.table.find rows (s.id r) ≡ some r) × (str_eq (s.cv_id r) cv_id ≡ true)
  unfolding rows_of
  rows_of-own rows r i =
      place.table.find_ordered_sound rows (λ r. str_eq (s.cv_id r) cv_id) s.sort_order r i

  rows_of-IsAscending :
      (rows : place.table.Rows) → IsAscending s.sort_order (rows_of s place.table cv_id rows)
  unfolding rows_of
  rows_of-IsAscending rows =
      place.table.find_ordered-IsAscending rows (λ r. str_eq (s.cv_id r) cv_id) s.sort_order

  -- An upsert of a section that returns leaves the rows of other CVs as they are; every row that
  -- an item names is there, on this CV; and the answer is in ascending order, each row of it with
  -- the columns of one of the items.
  pub bulk_upsert_sound :
      (answer : List s.Row) (db' : CvDb p)
      → bulk_upsert p s place fresh cv_id user_id items db ≡ (ok answer, db')
      → ((k : String) (r : s.Row)
          → place.table.find (place.rows db) k ≡ some r
          → str_eq (s.cv_id r) cv_id ≡ false
          → place.table.find (place.rows db') k ≡ some r)
        × ((k : String)
            → is_one_of k (named s cv_id items) ≡ true
            → on_cv s cv_id (place.table.find (place.rows db') k) ≡ true)
        × ((r : s.Row) → IsIn r answer → IsFilled s cv_id items r)
        × IsAscending s.sort_order answer
  bulk_upsert_sound answer db' h =
      let (e, same) = bulk_upsert-eq-ok answer db' h in
      (
        λ k r found other.
            replace_section-foreign s place.table cv_id fresh items (place.rows db) (place.rows db')
              k r e found other,
        λ k one.
            replace_section-named s place.table cv_id fresh items (place.rows db) (place.rows db') k
              e one,
        λ r i.
            let (found, own) = rows_of-own (place.rows db') r (subst (IsIn r) same i) in
            replace_section-IsFilled s place.table cv_id fresh items (place.rows db)
              (place.rows db') (s.id r) r e found own,
        subst (IsAscending s.sort_order) (sym same) (rows_of-IsAscending (place.rows db')),
      )
