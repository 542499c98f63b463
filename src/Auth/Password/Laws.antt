-- ===== src/Auth/Password/Laws.antt =====
-- What a password reset requires and what it leaves.
use prismacv_backend.Shared.{
  ℕ, ◌≡◌, refl, sym, String, true, false, none, some, if◌then◌else◌, str_eq, str_eq-true, ltb,
  Result, ok, arith, inl, inr, Bool-cases, Option-cases, Result-cases, ap, ◌∙◌, eq_refl, List, [],
  ◌∷◌, IsIn,
}
use prismacv_backend.Shared.Table.{change}
use prismacv_backend.Shared.Text.{js_length}
use prismacv_backend.Host.{Host}
use prismacv_backend.Auth.Model.{Prisma, Db, PrismaUser, User, AuthToken}
use prismacv_backend.Auth.Patch.{Draw, secrets_patch, with_secrets}
use prismacv_backend.Auth.Users.{update}
use prismacv_backend.Auth.Users.Laws.{update_secrets-inv}
use prismacv_backend.Auth.Password.{reset_of, is_live, spent, find_matching, reset_password}

module _ (host : Host) where
  find_matching-eq-some :
      (token : String) (rs : List AuthToken) (r : AuthToken)
      → find_matching host token rs ≡ some r
      → IsIn r rs × (host.bcrypt_compare token r.token_hash ≡ true)
  unfolding find_matching
  find_matching-eq-some token [] r h = cc
  find_matching-eq-some token (x ∷ rs) r h =
      elim (Bool-cases (host.bcrypt_compare token x.token_hash)) [
        | inl fits ↦ ground (arith, h, fits)
        | inr not_it ↦ ground (arith, h, not_it, find_matching-eq-some token rs r)
      ]

  pub find_matching-eq-none :
      (token : String) (rs : List AuthToken)
      → ((r : AuthToken) → IsIn r rs → host.bcrypt_compare token r.token_hash ≡ false)
      → find_matching host token rs ≡ none
  unfolding find_matching
  find_matching-eq-none token [] h = refl
  find_matching-eq-none token (x ∷ rs) h =
      rw (h x (inl refl)) (find_matching-eq-none token rs (λ r i. h r (inr i)))

  module _ (p : Prisma) where
    -- What a reset that returns has checked and done, for the token record t and the row u of its user.
    pub record PasswordReset (salt : String) (now : ℕ)
        (token new_password confirm_password : String) (db db' : Db p) (t : AuthToken)
        (u : PrismaUser) : Type 0 where
      pub confirmed : new_password ≡ confirm_password
      pub long_enough : ltb (js_length new_password) 8 ≡ false
      pub token_found : p.tokens.find db.tokens t.id ≡ some t
      pub live : is_live now t ≡ true
      pub token_fits : host.bcrypt_compare token t.token_hash ≡ true
      pub user_found : p.users.find db.users t.user_id ≡ some u
      pub users_after :
          (j : String)
          → p.users.find db'.users j ≡ (
              if str_eq t.user_id j
              then change
                  (with_secrets (some (host.bcrypt_hash salt new_password)) none)
                  (p.users.find db.users j)
              else p.users.find db.users j)
      pub tokens_gone :
          (k : String) (r : AuthToken)
          → p.tokens.find db'.tokens k ≡ some r
          → (reset_of t.user_id r ≡ false) × (p.tokens.find db.tokens k ≡ some r)
      pub tokens_kept :
          (k : String) (r : AuthToken)
          → p.tokens.find db.tokens k ≡ some r
          → reset_of t.user_id r ≡ false
          → p.tokens.find db'.tokens k ≡ some r
      pub otps_kept : db'.otps ≡ db.otps

    module _ (seal : Draw) (salt : String) (now used_now : ℕ)
        (token new_password confirm_password : String) (db db' : Db p) (message : String)
        (done : reset_password host p seal salt now used_now token new_password confirm_password db
          ≡ (ok message, db')) where
      abbrev patched : AuthToken → Result User × Db p
      patched t =
          update host p seal seal t.user_id
            (secrets_patch (some (host.bcrypt_hash salt new_password)) none) db

      -- The steps of a reset that returns.
      reset_password-inv :
          (t : AuthToken) × (updated : User) × (rows : p.tokens.Rows) × (t' : AuthToken) × (str_eq
              new_password confirm_password
            ≡ true)
          × (ltb (js_length new_password) 8 ≡ false)
          × (find_matching host token (p.tokens.find_many db.tokens (is_live now)) ≡ some t)
          × ((patched t).0 ≡ ok updated)
          × (p.tokens.update (patched t).1.tokens t.id (spent used_now) ≡ ok (t', rows))
          × (db' ≡ record (patched t).1 { tokens = p.tokens.delete_many rows (reset_of t.user_id) })
      unfolding reset_password
      reset_password-inv =
          elim (Option-cases
            (find_matching host token (p.tokens.find_many db.tokens (is_live now)))) [
              | inl missing ↦ ground (arith, done, missing)
              | inr (t, found) ↦ elim (Result-cases (patched t).0) [
                | inr (x, failed) ↦ ground (arith, done, found, failed)
                | inl (updated, e) ↦
                    elim (Result-cases
                      (p.tokens.update (patched t).1.tokens t.id (spent used_now))) [
                        | inr (x, failed) ↦ ground (arith, done, found, e, failed)
                        | inl ((t', rows), e') ↦ (
                          t,
                          updated,
                          rows,
                          t',
                          ground (arith, done),
                          ground (arith, done),
                          found,
                          e,
                          e',
                          ground (arith, done, found, e, e'),
                        )
                      ]
              ]
            ]

      tokens_after :
          (t t' : AuthToken) (rows middle : p.tokens.Rows)
          → db'.tokens ≡ p.tokens.delete_many rows (reset_of t.user_id)
          → middle ≡ db.tokens
          → p.tokens.find db.tokens t.id ≡ some t
          → is_live now t ≡ true
          → p.tokens.update middle t.id (spent used_now) ≡ ok (t', rows)
          → (k : String) (r : AuthToken) → p.tokens.find db'.tokens k ≡ some r
          → (reset_of t.user_id r ≡ false) × (p.tokens.find db.tokens k ≡ some r)
      tokens_after t t' rows middle last same found live e k r h =
          let gone = p.tokens.find-delete_many rows (reset_of t.user_id) k in
          let moved = p.tokens.find-update middle rows t.id (spent used_now) t' k (λ x. refl) e in
          let here = ap (λ m. p.tokens.find m k) same in
          let there = ap (λ m. p.tokens.find m k) last in
          elim (Bool-cases (str_eq t.id k)) [
            | inl at_k ↦
                let found_k =
                  ap (p.tokens.find db.tokens) (sym (str_eq-true t.id k at_k)) ∙ found in
                ground (arith, h, gone, moved, here, there, at_k, found_k, live, eq_refl t.user_id)
            | inr other ↦ elim (Option-cases (p.tokens.find db.tokens k)) [
              | inl e0 ↦ ground (arith, h, gone, moved, here, there, other, e0)
              | inr (x, ex) ↦ ground (arith, h, gone, moved, here, there, other, ex)
            ]
          ]

      others_after :
          (t t' : AuthToken) (rows middle : p.tokens.Rows)
          → db'.tokens ≡ p.tokens.delete_many rows (reset_of t.user_id)
          → middle ≡ db.tokens
          → p.tokens.find db.tokens t.id ≡ some t
          → is_live now t ≡ true
          → p.tokens.update middle t.id (spent used_now) ≡ ok (t', rows)
          → (k : String) (r : AuthToken) → p.tokens.find db.tokens k ≡ some r
          → reset_of t.user_id r ≡ false
          → p.tokens.find db'.tokens k ≡ some r
      others_after t t' rows middle last same found live e k r h keep =
          let gone = p.tokens.find-delete_many rows (reset_of t.user_id) k in
          let moved = p.tokens.find-update middle rows t.id (spent used_now) t' k (λ x. refl) e in
          let here = ap (λ m. p.tokens.find m k) same in
          let there = ap (λ m. p.tokens.find m k) last in
          elim (Bool-cases (str_eq t.id k)) [
            | inl at_k ↦
                let found_k =
                  ap (p.tokens.find db.tokens) (sym (str_eq-true t.id k at_k)) ∙ found in
                ground (arith, h, found_k, keep, live, eq_refl t.user_id)
            | inr other ↦ ground (arith, h, gone, moved, here, there, other, keep)
          ]

      -- A reset that returns was confirmed and long enough; some reset token that is neither used nor
      -- expired fits; the password of its user becomes the hash of the new one and nothing else of the
      -- users changes; no reset token of the user is left, and the other tokens are as before.
      pub reset_password_sound :
          (t : AuthToken) × (u : PrismaUser) × PasswordReset salt now token new_password
            confirm_password db db' t u
      reset_password_sound =
          let (t, updated, rows, t', same, long, matched, e, e', last) = reset_password-inv in
          let (is_in, fits) =
            find_matching-eq-some token (p.tokens.find_many db.tokens (is_live now)) t matched in
          let (found, live) = p.tokens.find_many_sound db.tokens (is_live now) t is_in in
          let (u, users, user_found, after_update, at) =
            update_secrets-inv host p seal t.user_id (some (host.bcrypt_hash salt new_password))
              none db (patched t).1 updated (λ i. (e i, (patched t).1)) in
          (
            t,
            u,
            record {
              confirmed = str_eq-true new_password confirm_password same;
              long_enough = long;
              token_found = found;
              live = live;
              token_fits = fits;
              user_found = user_found;
              users_after = λ j.
                  ap (λ (d : Db p). p.users.find d.users j) last
                  ∙ ap (λ (d : Db p). p.users.find d.users j) after_update
                  ∙ at j;
              tokens_gone =
                  tokens_after t t' rows (patched t).1.tokens (ap (λ (d : Db p). d.tokens) last)
                    (ap (λ (d : Db p). d.tokens) after_update) found live e';
              tokens_kept =
                  others_after t t' rows (patched t).1.tokens (ap (λ (d : Db p). d.tokens) last)
                    (ap (λ (d : Db p). d.tokens) after_update) found live e';
              otps_kept = ap (λ (d : Db p). d.otps) last ∙ ap (λ (d : Db p). d.otps) after_update;
            },
          )
