-- ===== src/Auth/Otp/Verify.antt =====
-- What one call of `verifyOtp` does, branch by branch.
use prismacv_backend.Shared.{
  ℕ, ◌≤◌, ◌<◌, ◌≡◌, String, true, false, not, ◌||◌, none, some, str_eq, Result, ok, err,
  bad_request, lt→ltb, not_ltb,
}
use prismacv_backend.Shared.Text.{to_lower_case}
use prismacv_backend.Host.{Host}
use prismacv_backend.Auth.Model.{Prisma, Db, User, Otp, OtpPurpose, is_reset}
use prismacv_backend.Auth.Patch.{normalize_email}
use prismacv_backend.Auth.Users.{find_by_email, entity_or_null}
use prismacv_backend.Auth.OtpStore.{is_valid_otp, find_valid_otp}
use prismacv_backend.Auth.Otp.{verify_otp, too_many, check_code, no_user, no_otp}

module _ (host : Host) (p : Prisma) where
  -- The account of an e-mail address, as the entity that the service reads.
  abbrev pub Registered : p.users.Rows → String → User → Type 0
  Registered users email user =
      entity_or_null host
        (p.users.find_first users (λ u. str_eq u.email (normalize_email (to_lower_case email))))
      ≡ ok (some user)

  -- The purpose is a password reset, or the address is not verified yet.
  abbrev pub IsOpen : OtpPurpose → User → Type 0
  IsOpen purpose user = (is_reset purpose || not user.email_verified) ≡ true

  module _ (now used_now : ℕ) (email code : String) (purpose : OtpPurpose) (db : Db p) where
    abbrev run : Result User × Db p
    run = verify_otp host p now used_now email code purpose db

    verify_otp-unregistered :
        entity_or_null host (
            p.users.find_first db.users
              (λ u. str_eq u.email (normalize_email (to_lower_case email))))
          ≡ ok none
        → run ≡ (err (no_user purpose), db)
    unfolding verify_otp find_by_email
    verify_otp-unregistered h = rw h

    module _ (user : User) (known : Registered db.users email user) where
      verify_otp-closed :
          (is_reset purpose || not user.email_verified) ≡ false
          → run ≡ (err (bad_request "Email is already verified"), db)
      unfolding verify_otp find_by_email
      verify_otp-closed h = rw (known, h)

      module _ (is_open : IsOpen purpose user) where
        pub verify_otp-missing :
            p.otps.find_first db.otps (is_valid_otp user.id purpose now) ≡ none
            → run ≡ (err (no_otp purpose), db)
        unfolding verify_otp find_by_email find_valid_otp
        verify_otp-missing h = rw (known, is_open, h)

        module _ (o : Otp)
            (found : p.otps.find_first db.otps (is_valid_otp user.id purpose now) ≡ some o) where
          pub verify_otp-exhausted :
              o.max_attempts ≤ o.attempts → run ≡ (err (too_many purpose), db)
          unfolding verify_otp find_by_email find_valid_otp
          verify_otp-exhausted h = rw (known, is_open, found, not_ltb o.attempts o.max_attempts h)

          pub verify_otp-checked :
              o.attempts < o.max_attempts
              → run
                ≡ check_code host p purpose user o code used_now
                    (host.bcrypt_compare code o.otp_hash)
                    db
          unfolding verify_otp find_by_email find_valid_otp
          verify_otp-checked h = rw (known, is_open, found, lt→ltb o.attempts o.max_attempts h)
