-- ===== src/Cv/Editor/Rows.antt =====
-- What the operations on the table of CVs keep: one default CV for a user, and the CVs of others.
use prismacv_backend.Shared.{
  ◌≡◌, refl, sym, ap, ◌∙◌, ◌⊎◌, subst, String, true, false, none, some, if◌then◌else◌, str_eq,
  or_default, ok, arith, inl, inr, Bool-cases, Option-cases, eq_iff,
}
use prismacv_backend.Shared.Table.{change, change_if}
use prismacv_backend.Cv.Model.{CvRow, CvPrisma}
use prismacv_backend.Cv.Editor.{CvPatch, apply_cv_patch, is_other_default, not_default}

module _ (p : CvPrisma) where
  -- A user has at most one default CV.
  abbrev pub IsSingleDefault : p.cvs.Rows → Type 0
  IsSingleDefault t =
      (a b : CvRow)
      → p.cvs.find t a.id ≡ some a
      → p.cvs.find t b.id ≡ some b
      → a.user_id ≡ b.user_id
      → a.is_default ≡ true
      → b.is_default ≡ true
      → a.id ≡ b.id

  -- The CVs of other users are as before.
  abbrev pub IsForeignKept : String → p.cvs.Rows → p.cvs.Rows → Type 0
  IsForeignKept user_id t t' =
      (k : String) (r : CvRow)
      → p.cvs.find t k ≡ some r
      → str_eq r.user_id user_id ≡ false
      → p.cvs.find t' k ≡ some r

  abbrev pub Keeps : String → p.cvs.Rows → p.cvs.Rows → Type 0
  Keeps user_id t t' = (IsSingleDefault t → IsSingleDefault t') × IsForeignKept user_id t t'

  pub Keeps-refl : (user_id : String) (t : p.cvs.Rows) → Keeps user_id t t
  Keeps-refl user_id t = (λ h. h, λ k r e other. e)

  pub Keeps-trans :
      (user_id : String) (t u v : p.cvs.Rows)
      → Keeps user_id t u
      → Keeps user_id u v
      → Keeps user_id t v
  Keeps-trans user_id t u v (single, kept) (single', kept') =
      (λ h. single' (single h), λ k r e other. kept' k r (kept k r e other) other)

  -- A default CV was one before, of the same user.
  abbrev IsLess : p.cvs.Rows → p.cvs.Rows → Type 0
  IsLess t t' =
      (a : CvRow)
      → p.cvs.find t' a.id ≡ some a
      → a.is_default ≡ true
      → (b : CvRow) × (p.cvs.find t a.id ≡ some b) × (b.user_id ≡ a.user_id) × (b.is_default ≡ true)

  IsLess-single : (t t' : p.cvs.Rows) → IsLess t t' → IsSingleDefault t → IsSingleDefault t'
  IsLess-single t t' less h a b ea eb same da db =
      let (a0, fa, ua, xa) = less a ea da in
      let (b0, fb, ub, xb) = less b eb db in
      let ia = p.cvs.find-eq-some t a.id a0 fa in
      let ib = p.cvs.find-eq-some t b.id b0 fb in
      sym ia
      ∙ h a0 b0 (subst (λ k. p.cvs.find t k ≡ some a0) (sym ia) fa)
          (subst (λ k. p.cvs.find t k ≡ some b0) (sym ib) fb) (ua ∙ same ∙ sym ub) xa xb
      ∙ ib

  create-free :
      (t t' : p.cvs.Rows) (c : CvRow) → p.cvs.create t c ≡ ok t' → p.cvs.find t c.id ≡ none
  create-free t t' c made = elim (Option-cases (p.cvs.find t c.id)) [
    | inl e ↦ e
    | inr (x, e) ↦ ground (arith, made, p.cvs.create-taken t c x e)
  ]

  create-IsLess :
      (t t' : p.cvs.Rows) (c : CvRow)
      → c.is_default ≡ false
      → p.cvs.create t c ≡ ok t'
      → IsLess t t'
  create-IsLess t t' c plain made a e d =
      (a, ground (arith, plain, d, e, p.cvs.find-create t t' c a.id made), refl, d)

  delete-found :
      (t : p.cvs.Rows) (cv_id k : String) (r : CvRow)
      → p.cvs.find (p.cvs.delete_many t (λ x. str_eq x.id cv_id)) k ≡ some r
      → p.cvs.find t k ≡ some r
  delete-found t cv_id k r e = elim (Option-cases (p.cvs.find t k)) [
    | inl gone ↦ ground (arith, e, gone, p.cvs.find-delete_many t (λ x. str_eq x.id cv_id) k)
    | inr (x, there) ↦ ground (arith, e, there, p.cvs.find-delete_many t (λ x. str_eq x.id cv_id) k)
  ]

  module _ (user_id : String) where
    pub create-Keeps :
        (t t' : p.cvs.Rows) (c : CvRow)
        → c.is_default ≡ false
        → p.cvs.create t c ≡ ok t'
        → Keeps user_id t t'
    create-Keeps t t' c plain made = (
      IsLess-single t t' (create-IsLess t t' c plain made),
      λ k r e other.
          ground
            (arith, e, create-free t t' c made, p.cvs.find-create t t' c k made, eq_iff c.id k),
    )

    pub delete-Keeps :
        (t : p.cvs.Rows) (cv_id : String) (c : CvRow)
        → p.cvs.find t cv_id ≡ some c
        → str_eq c.user_id user_id ≡ true
        → Keeps user_id t (p.cvs.delete_many t (λ x. str_eq x.id cv_id))
    delete-Keeps t cv_id c found own = (
      IsLess-single t (p.cvs.delete_many t (λ x. str_eq x.id cv_id))
          (λ a e d. (a, delete-found t cv_id a.id a e, refl, d)),
      λ k r e other. ground (
        arith,
        e,
        own,
        other,
        found,
        eq_iff r.id cv_id,
        p.cvs.find-eq-some t k r e,
        p.cvs.find-delete_many t (λ x. str_eq x.id cv_id) k,
      ),
    )

    module _ (t u v : p.cvs.Rows) (cv_id : String) (c changed : CvRow) (d : CvPatch)
        (found : p.cvs.find t cv_id ≡ some c) (own : str_eq c.user_id user_id ≡ true)
        (updated : p.cvs.update u cv_id (apply_cv_patch d) ≡ ok (changed, v)) where
      now :
          (k : String)
          → p.cvs.find v k ≡ (
              if str_eq cv_id k then change (apply_cv_patch d) (p.cvs.find u k) else p.cvs.find u k)
      now k = p.cvs.find-update u v cv_id (apply_cv_patch d) changed k (λ r. refl) updated

      -- A default CV after the update is the CV itself, or one that was a default before.
      kept-IsLess : u ≡ t → or_default d.is_default false ≡ false → IsLess t v
      kept-IsLess same plain a e default =
          let before =
            now a.id
            ∙ ap
                (λ w.
                  if str_eq cv_id a.id
                  then change (apply_cv_patch d) (p.cvs.find w a.id)
                  else p.cvs.find w a.id)
                same in
          elim (Option-cases (p.cvs.find t a.id)) [
            | inl gone ↦ ground (arith, e, before, gone)
            | inr (x, there) ↦ (
              x,
              there,
              ground (arith, e, before, there, default, plain),
              ground (arith, e, before, there, default, plain),
            )
          ]

      -- Where no other CV is unset, the patch does not make the CV the default.
      pub keep-Keeps : u ≡ t → or_default d.is_default false ≡ false → Keeps user_id t v
      keep-Keeps same plain = (
        IsLess-single t v (kept-IsLess same plain),
        λ k r e other.
            let before =
              now k
              ∙ ap
                  (λ w.
                    if str_eq cv_id k
                    then change (apply_cv_patch d) (p.cvs.find w k)
                    else p.cvs.find w k)
                  same in
            ground (arith, before, e, other, own, found, eq_iff cv_id k),
      )

      module _
          (unset : (k : String)
            → p.cvs.find u k
              ≡ change
                  (change_if (is_other_default user_id cv_id) not_default)
                  (p.cvs.find t k)) where
        unset-kept :
            (a : CvRow)
            → p.cvs.find v a.id ≡ some a
            → a.is_default ≡ true
            → ((str_eq cv_id a.id ≡ true) × (str_eq a.user_id user_id ≡ true))
              ⊎ ((p.cvs.find t a.id ≡ some a) × (str_eq a.user_id user_id ≡ false))
        unset-kept a e default = elim (Bool-cases (str_eq cv_id a.id)) [
          | inl same ↦
              inl
                (same, ground (arith, same, e, now a.id, unset a.id, found, own, eq_iff cv_id a.id))
          | inr other ↦ elim (Option-cases (p.cvs.find t a.id)) [
            | inl gone ↦ ground (arith, e, now a.id, unset a.id, gone, other)
            | inr (x, there) ↦ inr (
              ground (
                arith,
                e,
                now a.id,
                unset a.id,
                there,
                other,
                default,
                eq_iff x.id cv_id,
                p.cvs.find-eq-some t a.id x there,
              ),
              ground (
                arith,
                e,
                now a.id,
                unset a.id,
                there,
                other,
                default,
                eq_iff x.id cv_id,
                eq_iff cv_id a.id,
                p.cvs.find-eq-some t a.id x there,
              ),
            )
          ]
        ]

        -- Where the other defaults of the user are unset.
        pub unset-Keeps : Keeps user_id t v
        unset-Keeps = (
          λ single a b ea eb same da db. elim (unset-kept a ea da) [
            | inl (ca, ua) ↦ elim (unset-kept b eb db) [
              | inl (cb, ub) ↦ ground (arith, ca, cb, eq_iff cv_id a.id, eq_iff cv_id b.id)
              | inr (fb, ub) ↦ ground (arith, same, ua, ub)
            ]
            | inr (fa, ua) ↦ elim (unset-kept b eb db) [
              | inl (cb, ub) ↦ ground (arith, same, ua, ub)
              | inr (fb, ub) ↦ single a b fa fb same da db
            ]
          ],
          λ k r e other. ground (arith, now k, unset k, e, other, own, found, eq_iff cv_id k),
        )
