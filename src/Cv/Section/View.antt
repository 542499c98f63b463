-- ===== src/Cv/Section/View.antt =====
-- The rows of a section seen as a function from ids to rows, and what a bulk upsert makes of it.
use prismacv_backend.Shared.{
  is_one_of, ℕ, suc, String, Bool, false, Option, none, some, List, [], ◌∷◌, if◌then◌else◌, str_eq,
  is_some, truthy,
}
use prismacv_backend.Shared.Table.{change}
use prismacv_backend.Cv.Section.{Section, with_id}

abbrev pub then_view : {A B : Type 0} → Option A → (A → Option B) → Option B
then_view none next = none
then_view (some a) next = next a

module _ (s : Section) (cv : String) where
  abbrev pub View : Type 0
  View = String → Option s.Row

  -- The ids that the items name.
  unfoldable pub named : List s.Item → List String
  named [] = []
  named (i ∷ is) = with_id (truthy (s.item_id i)) (named is)

  abbrev pub on_cv : Option s.Row → Bool
  on_cv none = false
  on_cv (some r) = str_eq (s.cv_id r) cv

  -- The rows of the CV that no item names are gone.
  abbrev pub keep_named : List String → View → View
  keep_named ids v k = if on_cv (v k) then (if is_one_of k ids then v k else none) else v k

  -- An item with an id changes the row of the CV under it, and one without adds a row.
  abbrev pub put_item : String → s.Item → Option String → View → Option View
  put_item fresh i none v =
      if is_some (v fresh)
      then none
      else some (λ k. if str_eq fresh k then some (s.make fresh cv i) else v k)
  put_item fresh i (some id) v =
      if on_cv (v id)
      then some (λ k. if str_eq id k then change (s.fill i) (v k) else v k)
      else none

  unfoldable pub put_items : (ℕ → String) → ℕ → List s.Item → View → Option View
  put_items fresh k [] v = some v
  put_items fresh k (i ∷ is) v =
      then_view (put_item (fresh k) i (truthy (s.item_id i)) v) (put_items fresh (suc k) is)

  unfoldable pub replace_view : (ℕ → String) → List s.Item → View → Option View
  unfolding named put_items
  replace_view fresh is v = put_items fresh 0 is (keep_named (named is) v)
