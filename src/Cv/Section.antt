-- ===== src/Cv/Section.antt =====
-- src/modules/cv/cv.service.ts: what the seven bulk upserts have in common. They differ in the
-- columns of the rows, so a section is a record of the operations on them.
pub mod View
pub mod Effect
pub mod Laws
use prismacv_backend.Shared.{
  ℕ, suc, zero, ◌≡◌, String, Bool, true, false, ◌&&◌, ◌||◌, not, Option, none, some, List, [], ◌∷◌,
  if◌then◌else◌, str_eq, truthy, is_one_of, Result, ok, err, bad_request, ◌==◌,
}
use prismacv_backend.Shared.Text.{◌&◌}
use prismacv_backend.Cv.Model.{SectionTable}

-- The columns of a row and what an item of a request writes; the equations say that the columns of
-- the data are neither the id nor the CV.
pub record Section : Type 1 where
  pub Row : Type 0
  pub Item : Type 0
  pub id : Row → String
  pub cv_id : Row → String
  pub sort_order : Row → ℕ
  pub item_id : Item → Option String
  -- The name of the section in a message.
  pub label : String
  -- `data`, over a row; and the row that is created for an id and a CV.
  pub fill : Item → Row → Row
  pub make : String → String → Item → Row
  pub id-fill : (i : Item) (r : Row) → id (fill i r) ≡ id r
  pub cv_id-fill : (i : Item) (r : Row) → cv_id (fill i r) ≡ cv_id r
  pub fill-fill : (i : Item) (r : Row) → fill i (fill i r) ≡ fill i r
  pub id-make : (k cv : String) (i : Item) → id (make k cv i) ≡ k
  pub cv_id-make : (k cv : String) (i : Item) → cv_id (make k cv i) ≡ cv
  pub fill-make : (k cv : String) (i : Item) → fill i (make k cv i) ≡ make k cv i

abbrev pub with_id : Option String → List String → List String
with_id none ids = ids
with_id (some id) ids = id ∷ ids

module _ (s : Section) (t : SectionTable s.Row s.id) (cv : String) where
  -- `dto.items.filter(item => item.id).map(item => item.id!)`
  unfoldable pub incoming_ids : List s.Item → List String
  incoming_ids [] = []
  incoming_ids (i ∷ is) = with_id (truthy (s.item_id i)) (incoming_ids is)

  -- `{ cvId, id: { notIn: incomingIds } }`
  abbrev pub is_dropped : List String → s.Row → Bool
  is_dropped ids r = str_eq (s.cv_id r) cv && not (is_one_of (s.id r) ids)

  -- `{ id: item.id, cvId }`
  abbrev pub is_item : String → s.Row → Bool
  is_item id r = str_eq (s.id r) id && str_eq (s.cv_id r) cv

  abbrev pub if_found : String → Result (ℕ × t.Rows) → Result t.Rows
  if_found id (ok (zero, rows)) =
      err (bad_request (s.label & " item " & id & " not found on this CV"))
  if_found id (ok (suc n, rows)) = ok rows
  if_found id (err e) = err e

  -- One item; `fresh` is the id that generateUuidv7 would draw.
  abbrev pub upsert_item : String → s.Item → Option String → t.Rows → Result t.Rows
  upsert_item fresh i none rows = t.create rows (s.make fresh cv i)
  upsert_item fresh i (some id) rows = if_found id (t.update_many rows (is_item id) (s.fill i))

  abbrev pub then_rows : Result t.Rows → (t.Rows → Result t.Rows) → Result t.Rows
  then_rows (ok rows) next = next rows
  then_rows (err e) next = err e

  -- The loop over the items; the k-th item would draw `fresh k`.
  unfoldable pub upsert_items : (ℕ → String) → ℕ → List s.Item → t.Rows → Result t.Rows
  upsert_items fresh k [] rows = ok rows
  upsert_items fresh k (i ∷ is) rows =
      then_rows (upsert_item (fresh k) i (truthy (s.item_id i)) rows)
        (upsert_items fresh (suc k) is)

  -- The body of the transaction, up to its answer.
  unfoldable pub replace_section : (ℕ → String) → List s.Item → t.Rows → Result t.Rows
  unfolding incoming_ids upsert_items
  replace_section fresh is rows =
      upsert_items fresh 0 is (t.delete_many rows (is_dropped (incoming_ids is)))

  -- `findMany({ where: { cvId }, orderBy: { sortOrder: 'asc' } })`
  unfoldable pub rows_of : t.Rows → List s.Row
  rows_of rows = t.find_ordered rows (λ r. str_eq (s.cv_id r) cv) s.sort_order
