-- ===== src/Cv/Section/Laws.antt =====
-- A bulk upsert does to the rows what its description does to their view.
use mathlib.Core.Path.{fun_ext}
use prismacv_backend.Shared.{
  ℕ, zero, suc, ◌≡◌, refl, ap, ◌∙◌, String, true, false, Option, none, some, List, [], ◌∷◌,
  if◌then◌else◌, str_eq, truthy, Result, ok, err, arith, inl, inr, Option-cases, eq_iff,
}
use prismacv_backend.Shared.Table.{change}
use prismacv_backend.Cv.Model.{SectionTable}
use prismacv_backend.Cv.Section.{
  Section, with_id, incoming_ids, is_dropped, is_item, upsert_item, then_rows, upsert_items,
  replace_section,
}
use prismacv_backend.Cv.Section.View.{
  View, named, on_cv, keep_named, put_item, put_items, then_view, replace_view,
}

module _ (s : Section) (t : SectionTable s.Row s.id) (cv : String) where
  -- What is seen of a result: the rows by their ids, or that there is none.
  abbrev pub seen : Result t.Rows → Option (View s cv)
  seen (ok rows) = some (t.find rows)
  seen (err e) = none

  create-seen :
      (rows : t.Rows) (fresh : String) (i : s.Item)
      → seen (upsert_item s t cv fresh i none rows) ≡ put_item s cv fresh i none (t.find rows)
  create-seen rows fresh i =
      let new = s.make fresh cv i in
      elim (Option-cases (t.find rows fresh)) [
        | inr (x, e) ↦ rw (t.create-taken rows new x (rw (s.id-make fresh cv i) e), e) refl
        | inl e ↦
            let (rows', made) = t.create_total rows new (rw (s.id-make fresh cv i) e) refl in
            rw (made, e)
              (ap some (
                fun_ext
                  λ k. ground (arith, t.find-create rows rows' new k made, s.id-make fresh cv i)))
      ]

  update-none :
      (rows rows' : t.Rows) (id : String) (i : s.Item)
      → t.update_many rows (is_item s t cv id) (s.fill i) ≡ ok (0, rows')
      → on_cv s cv (t.find rows id) ≡ false
  update-none rows rows' id i e = elim (Option-cases (t.find rows id)) [
    | inl missing ↦ rw missing refl
    | inr (r, found) ↦ ground (
      arith,
      found,
      eq_iff (s.id r) id,
      t.find-eq-some rows id r found,
      t.update_many-zero rows rows' (is_item s t cv id) (s.fill i) id r e found,
    )
  ]

  update-some :
      (rows rows' : t.Rows) (id : String) (i : s.Item) (n : ℕ)
      → t.update_many rows (is_item s t cv id) (s.fill i) ≡ ok (suc n, rows')
      → on_cv s cv (t.find rows id) ≡ true
  update-some rows rows' id i n e =
      let (r, found, fits) = t.update_many-suc rows rows' (is_item s t cv id) (s.fill i) n e in
      ground (arith, found, fits, eq_iff (s.id r) id)

  find-filled :
      (rows rows' : t.Rows) (id : String) (i : s.Item) (n : ℕ) (k : String)
      → t.update_many rows (is_item s t cv id) (s.fill i) ≡ ok (n, rows')
      → on_cv s cv (t.find rows id) ≡ true
      → t.find rows' k ≡ (if str_eq id k then change (s.fill i) (t.find rows k) else t.find rows k)
  find-filled rows rows' id i n k e on =
      t.find-update_many rows rows' (is_item s t cv id) (s.fill i) n k (s.id-fill i) e
      ∙ (elim (Option-cases (t.find rows k)) [
        | inl missing ↦ ground (arith, missing)
        | inr (r, found) ↦
            ground
              (arith, found, on, eq_iff (s.id r) id, eq_iff id k, t.find-eq-some rows k r found)
      ])

  update-seen :
      (rows : t.Rows) (fresh id : String) (i : s.Item)
      → seen (upsert_item s t cv fresh i (some id) rows)
        ≡ put_item s cv fresh i (some id) (t.find rows)
  update-seen rows fresh id i =
      let (n, rows', e) = t.update_many_total rows (is_item s t cv id) (s.fill i) (λ r. refl) in
      by_count n rows' e
    where
      by_count :
          (n : ℕ) (rows' : t.Rows)
          → t.update_many rows (is_item s t cv id) (s.fill i) ≡ ok (n, rows')
          → seen (upsert_item s t cv fresh i (some id) rows)
            ≡ put_item s cv fresh i (some id) (t.find rows)
      by_count zero rows' e = rw (e, update-none rows rows' id i e) refl
      by_count (suc n) rows' e =
          let on = update-some rows rows' id i n e in
          rw (e, on) (ap some (fun_ext λ k. find-filled rows rows' id i (suc n) k e on))

  item-seen :
      (rows : t.Rows) (fresh : String) (i : s.Item) (o : Option String)
      → seen (upsert_item s t cv fresh i o rows) ≡ put_item s cv fresh i o (t.find rows)
  item-seen rows fresh i none = create-seen rows fresh i
  item-seen rows fresh i (some id) = update-seen rows fresh id i

  then-seen :
      (r : Result t.Rows) (next : t.Rows → Result t.Rows) (v : View s cv → Option (View s cv))
      → ((rows : t.Rows) → seen (next rows) ≡ v (t.find rows))
      → seen (then_rows s t cv r next) ≡ then_view (seen r) v
  then-seen (ok rows) next v h = h rows
  then-seen (err e) next v h = refl

  items-seen :
      (fresh : ℕ → String) (is : List s.Item) (k : ℕ) (rows : t.Rows)
      → seen (upsert_items s t cv fresh k is rows) ≡ put_items s cv fresh k is (t.find rows)
  unfolding upsert_items put_items
  items-seen fresh [] k rows = refl
  items-seen fresh (i ∷ is) k rows =
      then-seen (upsert_item s t cv (fresh k) i (truthy (s.item_id i)) rows)
        (upsert_items s t cv fresh (suc k) is) (put_items s cv fresh (suc k) is)
        (items-seen fresh is (suc k))
      ∙ ap (λ o. then_view o (put_items s cv fresh (suc k) is))
          (item-seen rows (fresh k) i (truthy (s.item_id i)))

  incoming_ids_lem : (is : List s.Item) → incoming_ids s t cv is ≡ named s cv is
  unfolding incoming_ids named
  incoming_ids_lem [] = refl
  incoming_ids_lem (i ∷ is) = ap (with_id (truthy (s.item_id i))) (incoming_ids_lem is)

  kept-seen :
      (rows : t.Rows) (ids : List String)
      → t.find (t.delete_many rows (is_dropped s t cv ids)) ≡ keep_named s cv ids (t.find rows)
  kept-seen rows ids = fun_ext λ k.
      t.find-delete_many rows (is_dropped s t cv ids) k ∙ (elim (Option-cases (t.find rows k)) [
        | inl missing ↦ rw missing refl
        | inr (r, found) ↦ ground (arith, found, t.find-eq-some rows k r found)
      ])

  -- The upsert of a section implements its description on the rows by their ids: rows of the CV
  -- that no item names are dropped; an item with an id sets the columns of that row, if it is on
  -- the CV, else all fails; an item without an id adds a row. It succeeds where the description
  -- does, with the same row, or none, under every id.
  pub replace_section-seen :
      (fresh : ℕ → String) (is : List s.Item) (rows : t.Rows)
      → seen (replace_section s t cv fresh is rows) ≡ replace_view s cv fresh is (t.find rows)
  unfolding replace_section replace_view
  replace_section-seen fresh is rows =
      items-seen fresh is 0 (t.delete_many rows (is_dropped s t cv (incoming_ids s t cv is)))
      ∙ ap (put_items s cv fresh 0 is) (
          kept-seen rows (incoming_ids s t cv is)
          ∙ ap (λ ids. keep_named s cv ids (t.find rows)) (incoming_ids_lem is))
