-- ===== src/Auth/OtpStore.antt =====
-- src/modules/auth/users.service.ts: the repository of one-time codes.
pub mod Laws
use prismacv_backend.Shared.{
  ℕ, suc, not, ◌+◌, String, Bool, true, false, ◌&&◌, ◌||◌, Option, none, some, if◌then◌else◌, ltb,
  str_eq, truthy, or_default, is_some, Result, ok, err, M, pure, throw, lift, guard, ◌>>=◌, ◌>>◌,
  internal, conflict, unique_violation, Error, List, ◌∷◌, [],
}
use prismacv_backend.Shared.Text.{js_length, to_lower_case, trim}
use prismacv_backend.Host.{Host}
use prismacv_backend.Encryption.{encrypt, decrypt, is_bad_key}
use prismacv_backend.Auth.Model.{
  Prisma, Db, PrismaUser, User, UserRole, regular, UserPlan, free, Otp, OtpPurpose, same_purpose,
}

-- The codes of a user and a purpose.
abbrev pub belongs : String → OtpPurpose → Otp → Bool
belongs user_id purpose o = str_eq o.user_id user_id && same_purpose o.purpose purpose

-- The condition of `findValidOtp` on a row, at the time `now`.
abbrev pub is_valid_otp : String → OtpPurpose → ℕ → Otp → Bool
is_valid_otp user_id purpose now o =
    belongs user_id purpose o && not (is_some o.used_at) && ltb now o.expires_at

abbrev pub one_more_attempt : Otp → Otp
one_more_attempt o = record o { attempts = o.attempts + 1 }

abbrev pub used : ℕ → Otp → Otp
used now o = record o { used_at = some now }

abbrev pub new_otp : String → String → OtpPurpose → String → ℕ → ℕ → Otp
new_otp id user_id purpose otp_hash expires_at max_attempts = record {
  id = id;
  user_id = user_id;
  purpose = purpose;
  otp_hash = otp_hash;
  attempts = 0;
  max_attempts = max_attempts;
  expires_at = expires_at;
  used_at = none;
}

module _ (p : Prisma) where
  abbrev pub stored_otp : Db p → Result (Otp × p.otps.Rows) → Result Otp × Db p
  stored_otp db (ok (o, rows)) = (ok o, record db { otps = rows })
  stored_otp db (err e) = (err e, db)

  -- The codes of the user and purpose are deleted first. Times are read from the clock by the caller.
  unfoldable pub create_otp : String → String → OtpPurpose → String → ℕ → ℕ → M (Db p) Otp
  create_otp id user_id purpose otp_hash expires_at max_attempts db =
      let cleared = p.otps.delete_many db.otps (belongs user_id purpose) in
      let row = new_otp id user_id purpose otp_hash expires_at max_attempts in
      elim (p.otps.create cleared row) [
        | ok rows ↦ (ok row, record db { otps = rows })
        | err e ↦ (err e, record db { otps = cleared })
      ]

  unfoldable pub find_valid_otp : String → OtpPurpose → ℕ → M (Db p) (Option Otp)
  find_valid_otp user_id purpose now db =
      (ok (p.otps.find_first db.otps (is_valid_otp user_id purpose now)), db)

  abbrev pub update_otp : String → (Otp → Otp) → M (Db p) Otp
  update_otp id f db = stored_otp db (p.otps.update db.otps id f)

  unfoldable pub increment_otp_attempts : String → M (Db p) Otp
  increment_otp_attempts otp_id = update_otp otp_id one_more_attempt

  unfoldable pub mark_otp_as_used : String → ℕ → M (Db p) Otp
  mark_otp_as_used otp_id now = update_otp otp_id (used now)
