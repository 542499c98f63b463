-- ===== src/AiUsage/Laws.antt =====
-- The count of a month, and what a call and its refund do to it.
use prismacv_backend.Shared.{
  ℕ, ◌≡◌, sym, ap, ◌∙◌, String, Bool, true, false, Option, none, some, if◌then◌else◌, str_eq, ok,
  arith, inl, inr, Bool-cases, Option-cases, eq_refl,
}
use prismacv_backend.Shared.Table.{change}
use prismacv_backend.AiUsage.{AiUsage, AiUsageFeature, UsageTable, is_usage_of}

module _ (t : UsageTable) (user_id : String) (feature : AiUsageFeature) (period : ℕ × ℕ) where
  abbrev pub is_it : AiUsage → Bool
  is_it = is_usage_of user_id feature period

  abbrev pub calls : Option AiUsage → ℕ
  calls none = 0
  calls (some u) = u.calls_used

  -- The calls of the period.
  unfoldable pub calls_used_now : t.Rows → ℕ
  calls_used_now rows = calls (t.find_first rows is_it)

  -- The compound key is unique.
  abbrev pub IsUnique : t.Rows → Type 0
  IsUnique rows =
      (j k : String) (u v : AiUsage)
      → t.find rows j ≡ some u
      → t.find rows k ≡ some v
      → is_it u ≡ true
      → is_it v ≡ true
      → j ≡ k

  pub first-IsUnique :
      (rows : t.Rows) (k : String) (u : AiUsage)
      → IsUnique rows
      → t.find rows k ≡ some u
      → is_it u ≡ true
      → t.find_first rows is_it ≡ some u
  first-IsUnique rows k u unique f i = elim (Option-cases (t.find_first rows is_it)) [
    | inl e ↦ ground (arith, i, t.find_first_complete rows is_it k u e f)
    | inr (v, e) ↦
        let (g, i') = t.find_first_sound rows is_it v e in
        let same = unique v.id k v u g f i' i in e ∙ sym g ∙ ap (t.find rows) same ∙ f
  ]

  pub first-none :
      (rows : t.Rows)
      → ((k : String) (u : AiUsage) → t.find rows k ≡ some u → is_it u ≡ false)
      → t.find_first rows is_it ≡ none
  first-none rows h = elim (Option-cases (t.find_first rows is_it)) [
    | inl e ↦ e
    | inr (v, e) ↦ let (g, i) = t.find_first_sound rows is_it v e in ground (arith, i, h v.id v g)
  ]

  module _ (rows rows' : t.Rows) (u u' : AiUsage) (f : AiUsage → AiUsage) (unique : IsUnique rows)
      (first : t.find_first rows is_it ≡ some u) (keeps_id : (x : AiUsage) → (f x).id ≡ x.id)
      (keeps : (x : AiUsage) → is_it (f x) ≡ is_it x)
      (done : t.update rows u.id f ≡ ok (u', rows')) where
    changed :
        (k : String)
        → t.find rows' k ≡ (if str_eq u.id k then change f (t.find rows k) else t.find rows k)
    changed k = t.find-update rows rows' u.id f u' k keeps_id done

    changed-it :
        (k : String) (x : AiUsage)
        → t.find rows' k ≡ some x
        → (y : AiUsage) × (t.find rows k ≡ some y) × (is_it y ≡ is_it x)
    changed-it k x g = elim (Option-cases (t.find rows k)) [
      | inl e ↦ ground (arith, g, changed k, e)
      | inr (y, e) ↦ (
        y,
        e,
        elim (Bool-cases (str_eq u.id k)) [
          | inl same ↦ ground (arith, g, changed k, e, same, keeps y)
          | inr other ↦ ground (arith, g, changed k, e, other)
        ],
      )
    ]

    pub changed-IsUnique : IsUnique rows'
    changed-IsUnique j k x y g h i i' =
        let (x0, g0, ix) = changed-it j x g in
        let (y0, h0, iy) = changed-it k y h in unique j k x0 y0 g0 h0 (ix ∙ i) (iy ∙ i')

    pub changed-first : t.find_first rows' is_it ≡ some (f u)
    changed-first =
        let (g, i) = t.find_first_sound rows is_it u first in
        first-IsUnique rows' u.id (f u) changed-IsUnique (changed u.id ∙ rw (eq_refl u.id, g))
          (keeps u ∙ i)
