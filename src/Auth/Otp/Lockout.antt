-- ===== src/Auth/Otp/Lockout.antt =====
-- Wrong codes are counted, and a code is locked once its attempts are used up.
use prismacv_backend.Shared.{ℕ, ◌+◌, ◌<◌, ◌≡◌, String, true, false, none, some, List, [], ◌∷◌, min}
use prismacv_backend.Host.{Host}
use prismacv_backend.Auth.Model.{Prisma, Db, User, Otp, OtpPurpose}
use prismacv_backend.Auth.OtpStore.{belongs}
use prismacv_backend.Auth.OtpStore.Laws.{IsOnly}
use prismacv_backend.Auth.Otp.{verify_otp}
use prismacv_backend.Auth.Otp.Verify.{Registered, IsOpen}

-- One call of `verifyOtp`: the two readings of the clock, and the code.
pub record Try : Type 0 where
  pub now : ℕ
  pub used_now : ℕ
  pub code : String

module _ (host : Host) (p : Prisma) (email : String) (purpose : OtpPurpose) where
  -- The database after the calls, whatever each of them answers.
  pub try_codes : List Try → Db p → Db p
  try_codes [] db = db
  try_codes (a ∷ more) db =
      try_codes more (verify_otp host p a.now a.used_now email a.code purpose db).1

  module _ (user : User) (is_open : IsOpen host p purpose user) where
    -- The account is known, and the code under k is the one that is pending for it.
    pub record Pending (k : String) (o : Otp) (db : Db p) : Type 0 where
      pub known : Registered host p db.users email user
      pub found : p.otps.find db.otps k ≡ some o
      pub only : IsOnly p db.otps user.id purpose k
      pub fits : belongs user.id purpose o ≡ true
      pub unused : o.used_at ≡ none

    abbrev pub IsWrong : Otp → Try → Type 0
    IsWrong o a = (host.bcrypt_compare a.code o.otp_hash ≡ false) × (a.now < o.expires_at)

    abbrev pub All {ℓ} : (Try → Type ℓ) → List Try → Type ℓ
    All P [] = Unit
    All P (a ∷ more) = P a × All P more

    after_tries : ℕ → Otp → Otp
    after_tries n o = record o { attempts = min o.max_attempts (o.attempts + n) }
