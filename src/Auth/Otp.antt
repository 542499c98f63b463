-- ===== src/Auth/Otp.antt =====
-- src/modules/auth/otp.service.ts: one-time codes, their generation and their verification.
pub mod Code
pub mod Verify
pub mod Lockout
pub mod RoundTrip
use prismacv_backend.Shared.{
  ℕ, suc, ◌+◌, ◌-◌, ◌*◌, String, Bool, true, false, not, ◌&&◌, ◌||◌, Option, none, some,
  if◌then◌else◌, ltb, leb, ◌==◌, or_default, Result, ok, err, M, pure, throw, lift, guard, or_throw,
  ◌>>=◌, ◌>>◌, bad_request, not_found, too_many_requests, still_running, Error, List, ◌∷◌, [],
}
use prismacv_backend.Shared.Text.{◌&◌, to_lower_case, to_string}
use prismacv_backend.Host.{Host}
use prismacv_backend.Auth.Model.{
  Prisma, Db, User, Otp, OtpPurpose, signup_email_verification, is_reset, Mail, otp_mail,
  password_reset_mail,
}
use prismacv_backend.Auth.Users.{find_by_email, mark_email_verified}
use prismacv_backend.Auth.OtpStore.{
  create_otp, find_valid_otp, increment_otp_attempts, mark_otp_as_used,
}
use Code.{generate_otp_code}

-- What one request draws: the random bytes, a salt and an identifier.
pub record OtpDraw : Type 0 where
  pub random : ℕ → ℕ
  pub rounds : ℕ
  pub salt : String
  pub id : String

abbrev pub code_or_run : Option ℕ → Result ℕ
code_or_run none = err still_running
code_or_run (some n) = ok n

abbrev pub plural : ℕ → String
plural n = if n == 1 then "" else "s"

abbrev pub too_many : OtpPurpose → Error
too_many purpose =
    if is_reset purpose
    then too_many_requests "Too many failed attempts. Please request a new password reset."
    else too_many_requests "Too many failed attempts. Please request a new verification code."

abbrev pub no_user : OtpPurpose → Error
no_user purpose = if is_reset purpose then bad_request "Invalid OTP" else not_found "User not found"

abbrev pub no_otp : OtpPurpose → Error
no_otp purpose =
    if is_reset purpose
    then bad_request "Invalid or expired OTP"
    else bad_request "No verification code found. Please request a new one."

abbrev pub mail_for : OtpPurpose → User → String → Mail
mail_for purpose user code =
    if is_reset purpose
    then password_reset_mail user.email code user.name
    else otp_mail user.email code user.name

module _ (host : Host) (p : Prisma) where
  unfoldable pub max_attempts_for : OtpPurpose → ℕ
  max_attempts_for purpose =
      if is_reset purpose
      then or_default (host.config_number "OTP_MAX_ATTEMPTS_PASSWORD_RESET") 3
      else or_default (host.config_number "OTP_MAX_ATTEMPTS_SIGNUP") 5

  -- `Date.now() + expiryMinutes * 60 * 1000`
  unfoldable pub expiry : ℕ → ℕ
  expiry now = now + or_default (host.config_number "OTP_EXPIRY_MINUTES") 10 * 60 * 1000

  abbrev pub send : Mail → M (Db p) (Unit {0})
  send mail db = (ok tt, record db { sent = mail ∷ db.sent })

  -- Returns `expiresAt`.
  unfoldable pub generate_and_send_otp : OtpDraw → ℕ → User → OtpPurpose → M (Db p) ℕ
  generate_and_send_otp draw now user purpose = do
    n ← lift (code_or_run (generate_otp_code draw.rounds draw.random))
    let code = to_string n
    let expires_at = expiry now
    created ←
        create_otp p draw.id user.id purpose (host.bcrypt_hash draw.salt code) expires_at
          (max_attempts_for purpose)
    send (mail_for purpose user code)
    pure expires_at

  -- What follows a wrong code, once the attempt is counted.
  abbrev pub refuse : OtpPurpose → Otp → Otp → M (Db p) User
  refuse purpose before after =
      if is_reset purpose
      then throw (bad_request "Invalid OTP")
      else if leb before.max_attempts after.attempts
      then throw
          (too_many_requests "Too many failed attempts. Please request a new verification code.")
      else let remaining = before.max_attempts - after.attempts in
        throw (
          bad_request (
            "Invalid verification code. "
            & to_string remaining
            & " attempt"
            & plural remaining
            & " remaining."))

  -- What follows the right code.
  abbrev pub accept : OtpPurpose → User → Otp → ℕ → M (Db p) User
  accept purpose user otp now = do
    marked ← mark_otp_as_used p otp.id now
    if is_reset purpose then pure user else mark_email_verified host p user.id

  abbrev pub check_code : OtpPurpose → User → Otp → String → ℕ → Bool → M (Db p) User
  check_code purpose user otp code now true = accept purpose user otp now
  check_code purpose user otp code now false = do
    updated ← increment_otp_attempts p otp.id
    refuse purpose otp updated

  -- `now` is read for the search, `used_now` for the mark.
  pub verify_otp : ℕ → ℕ → String → String → OtpPurpose → M (Db p) User
  verify_otp now used_now email code purpose = do
    found ← find_by_email host p (to_lower_case email)
    user ← or_throw found (no_user purpose)
    guard (is_reset purpose || not user.email_verified) (bad_request "Email is already verified")
    record_found ← find_valid_otp p user.id purpose now
    otp ← or_throw record_found (no_otp purpose)
    guard (ltb otp.attempts otp.max_attempts) (too_many purpose)
    check_code purpose user otp code used_now (host.bcrypt_compare code otp.otp_hash)

  unfoldable resend_otp : OtpDraw → ℕ → String → M (Db p) ℕ
  unfolding generate_and_send_otp
  resend_otp draw now email = do
    found ← find_by_email host p (to_lower_case email)
    user ← or_throw found (not_found "User not found")
    guard (not user.email_verified) (bad_request "Email is already verified")
    generate_and_send_otp draw now user signup_email_verification
