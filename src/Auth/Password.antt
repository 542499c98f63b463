-- ===== src/Auth/Password.antt =====
-- src/modules/auth/auth.service.ts: forgotten, reset and changed passwords.
pub mod Laws
pub mod Sessions
use prismacv_backend.Shared.{
  ℕ, ◌+◌, ◌*◌, String, Bool, true, false, not, ◌&&◌, Option, none, some, if◌then◌else◌, ltb, str_eq,
  truthy, is_some, or_default, Result, ok, err, M, pure, throw, lift, guard, or_throw, ◌>>=◌, ◌>>◌,
  unauthorized, bad_request, Error, List, [], ◌∷◌,
}
use prismacv_backend.Shared.Text.{js_length}
use prismacv_backend.Host.{Host}
use prismacv_backend.Auth.Model.{
  Prisma, Db, User, AuthToken, reset_link, is_reset_link, password_reset,
}
use prismacv_backend.Auth.Patch.{Draw, empty_patch}
use prismacv_backend.Auth.Users.{find_by_email, find_by_id, update}
use prismacv_backend.Auth.Otp.{OtpDraw, generate_and_send_otp, verify_otp}

-- The reset tokens of a user.
abbrev pub reset_of : String → AuthToken → Bool
reset_of user_id t = str_eq t.user_id user_id && is_reset_link t.purpose

-- A reset token that is neither used nor expired.
abbrev pub is_live : ℕ → AuthToken → Bool
is_live now t = is_reset_link t.purpose && not (is_some t.used_at) && ltb now t.expires_at

abbrev pub spent : ℕ → AuthToken → AuthToken
spent now t = record t { used_at = some now }

abbrev pub new_token : String → String → String → ℕ → AuthToken
new_token id user_id hash expires_at = record {
  id = id;
  user_id = user_id;
  purpose = reset_link;
  token_hash = hash;
  expires_at = expires_at;
  used_at = none;
}

-- What a request for a reset token draws: the token (32 random bytes in hexadecimal), a salt and an
-- identifier.
pub record ResetDraw : Type 0 where
  pub token : String
  pub salt : String
  pub id : String

module _ (host : Host) where
  -- The first record whose hash fits the token.
  unfoldable pub find_matching : String → List AuthToken → Option AuthToken
  find_matching token [] = none
  find_matching token (r ∷ rs) =
      if host.bcrypt_compare token r.token_hash then some r else find_matching token rs

  module _ (p : Prisma) where
    abbrev pub delete_tokens : (AuthToken → Bool) → M (Db p) (Unit {0})
    delete_tokens which db = (ok tt, record db { tokens = p.tokens.delete_many db.tokens which })

    abbrev pub insert_token : AuthToken → M (Db p) (Unit {0})
    insert_token t db = elim (p.tokens.create db.tokens t) [
      | ok rows ↦ (ok tt, record db { tokens = rows })
      | err e ↦ (err e, db)
    ]

    abbrev pub update_token : String → (AuthToken → AuthToken) → M (Db p) (Unit {0})
    update_token id f db = elim (p.tokens.update db.tokens id f) [
      | ok (t, rows) ↦ (ok tt, record db { tokens = rows })
      | err e ↦ (err e, db)
    ]

    abbrev pub otp_sent_message : String
    otp_sent_message = "If the email exists, an OTP has been sent."

    -- The code is sent only to an account that exists.
    abbrev pub send_reset_otp : OtpDraw → ℕ → Option User → M (Db p) (Unit {0})
    send_reset_otp draw now none = pure tt
    send_reset_otp draw now (some user) = do
      expires_at ← generate_and_send_otp host p draw now user password_reset
      pure tt

    -- Whatever is thrown inside, the answer is the same.
    unfoldable forgot_password : OtpDraw → ℕ → String → M (Db p) String
    forgot_password draw now email db =
        let body : M (Db p) (Unit {0}) = (do
          user ← find_by_email host p email
          send_reset_otp draw now user) in
        (ok otp_sent_message, (body db).1)

    -- `otp_now` and `used_now` are the readings of the clock of the check of the code.
    unfoldable verify_reset_otp : ResetDraw → ℕ → ℕ → ℕ → String → String → M (Db p) String
    verify_reset_otp draw otp_now used_now now email otp = do
      user ← verify_otp host p otp_now used_now email otp password_reset
      let expires_at =
          now + or_default (host.config_number "RESET_TOKEN_EXPIRY_MINUTES") 15 * 60 * 1000
      delete_tokens (reset_of user.id)
      insert_token (new_token draw.id user.id (host.bcrypt_hash draw.salt draw.token) expires_at)
      pure draw.token

    unfoldable pub reset_password :
        Draw → String → ℕ → ℕ → String → String → String → M (Db p) String
    reset_password seal salt now used_now token new_password confirm_password = do
      guard (str_eq new_password confirm_password) (bad_request "Passwords do not match")
      guard (not (ltb (js_length new_password) 8))
          (bad_request "Password must be at least 8 characters long")
      records ← λ db. (ok (p.tokens.find_many db.tokens (is_live now)), db)
      found ← or_throw (find_matching token records) (unauthorized "Invalid or expired reset token")
      updated ← update host p seal seal found.user_id (record empty_patch {
        password = some (host.bcrypt_hash salt new_password);
        refresh_token = none;
      })
      update_token found.id (spent used_now)
      delete_tokens (reset_of found.user_id)
      pure "Password reset successfully"

    unfoldable change_password : Draw → String → String → String → String → String → M (Db p) String
    change_password seal salt user_id current_password new_password confirm_password = do
      guard (str_eq new_password confirm_password)
          (bad_request "New password and confirm password do not match")
      guard (not (ltb (js_length new_password) 8))
          (bad_request "New password must be at least 8 characters long")
      found ← find_by_id host p user_id
      user ← or_throw found (unauthorized "User not found")
      hash ← or_throw (truthy user.password) (bad_request "Cannot change password for OAuth users")
      guard (host.bcrypt_compare current_password hash)
          (unauthorized "Current password is incorrect")
      guard (not (host.bcrypt_compare new_password hash))
          (bad_request "New password must be different from current password")
      updated ← update host p seal seal user_id (record empty_patch {
        password = some (host.bcrypt_hash salt new_password);
        refresh_token = none;
      })
      pure "Password changed successfully"
