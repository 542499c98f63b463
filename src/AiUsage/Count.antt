-- ===== src/AiUsage/Count.antt =====
-- The count of a period under the two transactions.
use prismacv_backend.Shared.{
  ℕ, suc, ◌-◌, ◌≤◌, ◌<◌, ◌==◌, ◌≡◌, refl, sym, ap, ◌∙◌, String, true, false, none, some,
  if◌then◌else◌, leb, str_eq, ok, err, arith, inl, inr, Bool-cases, Option-cases, Result-cases,
  eq_iff, eq_refl, str_eq-true,
}
use prismacv_backend.AiUsage.{
  AiUsage, AiUsageFeature, UsageTable, is_usage_of, first_use, one_more, one_less, quota_exceeded,
  consume, refund, feature_text,
}
use prismacv_backend.AiUsage.Laws.{
  calls, calls_used_now, IsUnique, first-IsUnique, first-none, changed-IsUnique, changed-first,
}

same_number : (n : ℕ) → (n == n) ≡ true
same_number n = ground arith

first_use-fits :
    (id user_id : String) (feature : AiUsageFeature) (period : ℕ × ℕ)
    → is_usage_of user_id feature period (first_use id user_id feature period) ≡ true
first_use-fits id user_id feature period =
    rw (eq_refl user_id, eq_refl (feature_text feature), same_number period.0, same_number period.1)

module _ (t : UsageTable) (user_id : String) (feature : AiUsageFeature) (period : ℕ × ℕ)
    (rows rows' : t.Rows) where
  -- The calls of the period, and the uniqueness of its row.
  abbrev used : t.Rows → ℕ
  used = calls_used_now t user_id feature period

  module _ (id : String) (unique : IsUnique t user_id feature period rows)
      (none_yet : t.find_first rows (is_usage_of user_id feature period) ≡ none)
      (done : t.create rows (first_use id user_id feature period) ≡ ok rows') where
    abbrev row : AiUsage
    row = first_use id user_id feature period

    inserted_at : (k : String) → t.find rows' k ≡ (if str_eq id k then some row else t.find rows k)
    inserted_at k = t.find-create rows rows' row k done

    -- The new row alone fits.
    only_new :
        (k : String) (x : AiUsage)
        → t.find rows' k ≡ some x
        → is_usage_of user_id feature period x ≡ true
        → id ≡ k
    only_new k x g i = elim (Bool-cases (str_eq id k)) [
      | inl same ↦ str_eq-true id k same
      | inr other ↦ ground (
        arith,
        i,
        t.find_first_complete rows (is_usage_of user_id feature period) k x none_yet
            (sym (inserted_at k ∙ rw other) ∙ g),
      )
    ]

    inserted-IsUnique : IsUnique t user_id feature period rows'
    inserted-IsUnique j k u v g h i i' = sym (only_new j u g i) ∙ only_new k v h i'

    inserted-used : used rows' ≡ 1
    unfolding calls_used_now
    inserted-used = ap (calls t user_id feature period) (
        first-IsUnique t user_id feature period rows' id row inserted-IsUnique
          (inserted_at id ∙ rw (eq_refl id)) (first_use-fits id user_id feature period))

  module _ (limit : ℕ) (id : String) (unique : IsUnique t user_id feature period rows)
      (some_calls : 0 < limit) where
    pub consume-ok :
        consume t limit user_id feature period id
            (t.find_first rows (is_usage_of user_id feature period))
            rows
          ≡ (ok tt, rows')
        → (used rows < limit)
          × (used rows' ≡ suc (used rows))
          × IsUnique t user_id feature period rows'
    unfolding calls_used_now
    consume-ok h = elim (Option-cases (t.find_first rows (is_usage_of user_id feature period))) [
      | inl e ↦ elim (Result-cases (t.create rows (first_use id user_id feature period))) [
        | inr (x, failed) ↦ ground (arith, h, e, failed)
        | inl (rows'', stored) ↦
            let same : rows'' ≡ rows' = ground (arith, h, e, stored) in
            let done = stored ∙ ap ok same in
            (
              rw e some_calls,
              rw e (inserted-used id unique e done),
              inserted-IsUnique id unique e done,
            )
      ]
      | inr (u, e) ↦ elim (Bool-cases (leb limit u.calls_used)) [
        | inl full ↦ ground (arith, h, e, full)
        | inr free ↦ elim (Result-cases (t.update rows u.id one_more)) [
          | inr (x, failed) ↦ ground (arith, h, e, free, failed)
          | inl ((u', rows''), stored) ↦
              let same : rows'' ≡ rows' = ground (arith, h, e, free, stored) in
              let done = stored ∙ ap (λ r. ok (u', r)) same in
              (
                rw e (ground (arith, free)),
                rw
                    (
                      e,
                      changed-first t user_id feature period rows rows' u u' one_more unique e
                          (λ x. refl) (λ x. refl) done,
                    )
                    (ground arith),
                changed-IsUnique t user_id feature period rows rows' u u' one_more unique e
                    (λ x. refl) (λ x. refl) done,
              )
        ]
      ]
    ]

    pub consume-full :
        limit ≤ used rows
        → consume t limit user_id feature period id
            (t.find_first rows (is_usage_of user_id feature period))
            rows
          ≡ (err (quota_exceeded feature), rows)
    unfolding calls_used_now
    consume-full l = elim (Option-cases (t.find_first rows (is_usage_of user_id feature period))) [
      | inl e ↦ ground (arith, l, some_calls, e)
      | inr (u, e) ↦ ground (arith, l, e)
    ]

module _ (t : UsageTable) (user_id : String) (feature : AiUsageFeature) (period : ℕ × ℕ)
    (rows : t.Rows) (unique : IsUnique t user_id feature period rows) where
  module _ (u : AiUsage)
      (first : t.find_first rows (is_usage_of user_id feature period) ≡ some u) where
    abbrev left_over : t.Rows
    left_over = t.delete_many rows (λ x. str_eq x.id u.id)

    kept :
        (k : String) (x : AiUsage)
        → t.find left_over k ≡ some x
        → (t.find rows k ≡ some x) × (str_eq x.id u.id ≡ false)
    kept k x g = elim (Option-cases (t.find rows k)) [
      | inl e ↦ ground (arith, g, e, t.find-delete_many rows (λ x. str_eq x.id u.id) k)
      | inr (y, e) ↦ ground (arith, g, e, t.find-delete_many rows (λ x. str_eq x.id u.id) k)
    ]

    left_over-IsUnique : IsUnique t user_id feature period left_over
    left_over-IsUnique j k x y g h i i' = unique j k x y (kept j x g).0 (kept k y h).0 i i'

    left_over-none : t.find_first left_over (is_usage_of user_id feature period) ≡ none
    left_over-none =
        let (f, fits) = t.find_first_sound rows (is_usage_of user_id feature period) u first in
        first-none t user_id feature period left_over (λ k x g.
          let (here, apart) = kept k x g in
          elim (Bool-cases (is_usage_of user_id feature period x)) [
            | inr e ↦ e
            | inl i ↦
                let same = unique k u.id x u here f i fits in
                ground (arith, apart, same, t.find-eq-some rows k x here, eq_iff x.id u.id)
          ])

  module _ (limit : ℕ) where
    -- A refund always succeeds.
    pub refund_total :
        (rows' : t.Rows) × (refund t limit user_id feature period
            (t.find_first rows (is_usage_of user_id feature period))
            rows
          ≡ (ok tt, rows'))
        × (calls_used_now t user_id feature period rows'
            ≡ calls_used_now t user_id feature period rows - 1)
        × IsUnique t user_id feature period rows'
    unfolding calls_used_now
    refund_total = elim (Option-cases (t.find_first rows (is_usage_of user_id feature period))) [
      | inl e ↦ (rows, rw e, rw e, unique)
      | inr (u, e) ↦ elim (Bool-cases (leb u.calls_used 0)) [
        | inl zero_left ↦ (rows, rw (e, zero_left), rw e (ground (arith, zero_left)), unique)
        | inr some_left ↦ elim (Bool-cases (u.calls_used == 1)) [
          | inl last ↦ (
            left_over u e,
            rw (e, some_left, last),
            rw (e, left_over-none u e) (ground (arith, last)),
            left_over-IsUnique u e,
          )
          | inr more ↦
              let (f, fits) = t.find_first_sound rows (is_usage_of user_id feature period) u e in
              let (rows', done) = t.update_total rows u.id one_less u f refl in
              (
                rows',
                rw (e, some_left, more, done),
                rw (
                  e,
                  changed-first t user_id feature period rows rows' u (one_less u) one_less unique e
                      (λ x. refl) (λ x. refl) done,
                ),
                changed-IsUnique t user_id feature period rows rows' u (one_less u) one_less unique
                    e (λ x. refl) (λ x. refl) done,
              )
        ]
      ]
    ]
