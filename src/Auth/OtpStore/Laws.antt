-- ===== src/Auth/OtpStore/Laws.antt =====
-- One code for each user and purpose: what the repository of codes keeps.
use prismacv_backend.Shared.{
  ℕ, ◌≡◌, refl, sym, String, true, some, if◌then◌else◌, str_eq, eq_iff, eq_refl, ok, arith, inl,
  inr, Bool-cases, Option-cases, Result-cases, ap, ◌∙◌,
}
use prismacv_backend.Shared.Table.{keep_unless, change}
use prismacv_backend.Auth.Model.{
  Prisma, Db, Otp, OtpPurpose, signup_email_verification, same_purpose,
}
use prismacv_backend.Auth.OtpStore.{belongs, is_valid_otp, new_otp, create_otp}

pub same_purpose_refl : (a : OtpPurpose) → same_purpose a a ≡ true
same_purpose_refl signup_email_verification = refl
same_purpose_refl _ = refl

module _ (p : Prisma) where
  -- All codes of the user and purpose stand under the key k.
  abbrev pub IsOnly : p.otps.Rows → String → OtpPurpose → String → Type 0
  IsOnly rows user_id purpose k =
      (j : String) (o : Otp)
      → p.otps.find rows j ≡ some o
      → belongs user_id purpose o ≡ true
      → j ≡ k

  pub find_first-IsOnly :
      (rows : p.otps.Rows) (user_id : String) (purpose : OtpPurpose) (now : ℕ) (k : String)
      (o : Otp)
      → IsOnly rows user_id purpose k
      → p.otps.find rows k ≡ some o
      → is_valid_otp user_id purpose now o ≡ true
      → p.otps.find_first rows (is_valid_otp user_id purpose now) ≡ some o
  find_first-IsOnly rows user_id purpose now k o only h v =
      elim (Option-cases (p.otps.find_first rows (is_valid_otp user_id purpose now))) [
        | inl e ↦ cc (v, p.otps.find_first_complete rows (is_valid_otp user_id purpose now) k o e h)
        | inr (r, e) ↦
            let (found, valid) =
              p.otps.find_first_sound rows (is_valid_otp user_id purpose now) r e in
            let same = only r.id r found (ground (arith, valid)) in
            e ∙ sym found ∙ ap (p.otps.find rows) same ∙ h
      ]

  module _ (id user_id : String) (purpose : OtpPurpose) (hash : String) (expires_at most : ℕ)
      (db : Db p) where
    abbrev pub fresh : Otp
    fresh = new_otp id user_id purpose hash expires_at most

    abbrev pub cleared : p.otps.Rows
    cleared = p.otps.delete_many db.otps (belongs user_id purpose)

    module _ (rows : p.otps.Rows) (created : p.otps.create cleared fresh ≡ ok rows) where
      pub find-created :
          (j : String)
          → p.otps.find rows j ≡ (
              if str_eq id j
              then some fresh
              else keep_unless (belongs user_id purpose) (p.otps.find db.otps j))
      find-created j =
          p.otps.find-create cleared rows fresh j created
          ∙ ap (λ o. if str_eq id j then some fresh else o)
              (p.otps.find-delete_many db.otps (belongs user_id purpose) j)

      pub created-IsOnly : IsOnly rows user_id purpose id
      created-IsOnly j o h b = elim (Bool-cases (str_eq id j)) [
        | inl same ↦ sym ((eq_iff id j).0 same)
        | inr other ↦ ground (arith, find-created j, other, h, b)
      ]

    -- `createOtp` returns the new code only if the database stored it.
    create_otp-eq-ok :
        (db' : Db p) (o : Otp)
        → create_otp p id user_id purpose hash expires_at most db ≡ (ok o, db')
        → (rows : p.otps.Rows) × (p.otps.create cleared fresh ≡ ok rows)
          × (o ≡ fresh)
          × (db' ≡ record db { otps = rows })
    unfolding create_otp
    create_otp-eq-ok db' o e = elim (Result-cases (p.otps.create cleared fresh)) [
      | inl (rows, stored) ↦ (rows, stored, ground (arith, e, stored), ground (arith, e, stored))
      | inr (x, failed) ↦ ground (arith, e, failed)
    ]

  -- An update under the key of a row, by a change that keeps the key and the owner of a row.
  module _ (rows rows' : p.otps.Rows) (f : Otp → Otp) (r' : Otp) (k : String) (o : Otp)
      (found : p.otps.find rows k ≡ some o) (updated : p.otps.update rows o.id f ≡ ok (r', rows'))
      (keeps : (x : Otp) → (f x).id ≡ x.id) where
    id-eq-key : o.id ≡ k
    id-eq-key = p.otps.find-eq-some rows k o found

    find-updated :
        (j : String)
        → p.otps.find rows' j
          ≡ (if str_eq k j then change f (p.otps.find rows j) else p.otps.find rows j)
    find-updated j =
        p.otps.find-update rows rows' o.id f r' j keeps updated
        ∙ ap (λ i. if str_eq i j then change f (p.otps.find rows j) else p.otps.find rows j)
            id-eq-key

    pub find-updated_self : p.otps.find rows' k ≡ some (f o)
    find-updated_self = find-updated k ∙ simp (eq_refl k, found)

    pub updated-IsOnly :
        (user_id : String) (purpose : OtpPurpose)
        → IsOnly rows user_id purpose k
        → IsOnly rows' user_id purpose k
    updated-IsOnly user_id purpose only j x h b = elim (Bool-cases (str_eq k j)) [
      | inl at_k ↦ sym ((eq_iff k j).0 at_k)
      | inr other ↦ only j x (ground (arith, find-updated j, other, h)) b
    ]

  pub find-own_key :
      (rows : p.otps.Rows) (k : String) (o : Otp)
      → p.otps.find rows k ≡ some o
      → p.otps.find rows o.id ≡ some o
  find-own_key rows k o h = ap (p.otps.find rows) (p.otps.find-eq-some rows k o h) ∙ h
