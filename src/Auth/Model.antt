-- ===== src/Auth/Model.antt =====
-- The rows that the account services keep (prisma/schema.prisma), the entity that they pass around
-- (src/modules/auth/entities/user.entity.ts), and the state of the database with the mails sent.
-- Times are milliseconds. `createdAt` and `updatedAt`, which the database client fills in and no
-- service reads, are left out.
use prismacv_backend.Shared.{ℕ, String, Bool, true, false, Option, none, some, List, [], ◌∷◌}
use prismacv_backend.Shared.Text.{◌&◌}
use prismacv_backend.Shared.Table.{Table}

pub data UserRole : Type 0 where
  regular platform_admin : UserRole

pub data UserPlan : Type 0 where
  free pro team : UserPlan

pub data OtpPurpose : Type 0 where
  signup_email_verification password_reset : OtpPurpose

pub data AuthTokenPurpose : Type 0 where
  reset_link email_verification_link account_activation : AuthTokenPurpose

abbrev pub is_regular : UserRole → Bool
is_regular regular = true
is_regular platform_admin = false

abbrev pub same_role : UserRole → UserRole → Bool
same_role regular regular = true
same_role platform_admin platform_admin = true
same_role _ _ = false

-- The text of the enum member.
abbrev pub role_text : UserRole → String
role_text regular = "REGULAR"
role_text platform_admin = "PLATFORM_ADMIN"

abbrev pub is_reset : OtpPurpose → Bool
is_reset password_reset = true
is_reset signup_email_verification = false

abbrev pub same_purpose : OtpPurpose → OtpPurpose → Bool
same_purpose signup_email_verification signup_email_verification = true
same_purpose password_reset password_reset = true
same_purpose _ _ = false

abbrev pub is_reset_link : AuthTokenPurpose → Bool
is_reset_link reset_link = true
is_reset_link email_verification_link = false
is_reset_link account_activation = false

-- A row of `users`.
pub record PrismaUser : Type 0 where
  pub id : String
  pub email : String
  pub password : Option String
  pub name : Option String
  pub role : UserRole
  pub is_master_admin : Bool
  pub refresh_token : Option String
  pub email_verified : Bool
  pub avatar_url : Option String
  pub provider : Option String
  pub provider_id : Option String
  pub oauth_access_token : Option String
  pub oauth_refresh_token : Option String
  pub oauth_token_expires_at : Option ℕ
  pub stripe_customer_id : Option String
  pub plan : UserPlan

-- The entity `User`.
pub record User : Type 0 where
  pub id : String
  pub email : String
  pub password : Option String
  pub name : Option String
  pub role : UserRole
  pub is_master_admin : Bool
  pub refresh_token : Option String
  pub email_verified : Bool
  pub avatar_url : Option String
  pub provider : Option String
  pub provider_id : Option String
  pub oauth_access_token : Option String
  pub oauth_refresh_token : Option String
  pub oauth_token_expires_at : Option ℕ

pub record Otp : Type 0 where
  pub id : String
  pub user_id : String
  pub purpose : OtpPurpose
  pub otp_hash : String
  pub attempts : ℕ
  pub max_attempts : ℕ
  pub expires_at : ℕ
  pub used_at : Option ℕ

pub record AuthToken : Type 0 where
  pub id : String
  pub user_id : String
  pub purpose : AuthTokenPurpose
  pub token_hash : String
  pub expires_at : ℕ
  pub used_at : Option ℕ

abbrev pub user_key : PrismaUser → String
user_key u = u.id

-- The unique columns `provider` and `providerId` are one compound key; a row without one of them is
-- not constrained. The names of the providers have no space.
abbrev pub provider_key : Option String → Option String → Option String
provider_key none id = none
provider_key (some name) none = none
provider_key (some name) (some id) = some (name & (" " & id))

abbrev pub user_unique : PrismaUser → List (Option String)
user_unique u = some u.email ∷ u.stripe_customer_id ∷ provider_key u.provider u.provider_id ∷ []

abbrev pub otp_key : Otp → String
otp_key o = o.id

abbrev pub otp_unique : Otp → List (Option String)
otp_unique o = []

abbrev pub token_key : AuthToken → String
token_key t = t.id

abbrev pub token_unique : AuthToken → List (Option String)
token_unique t = some t.token_hash ∷ []

-- The delegates of the database client that the account services use.
pub record Prisma : Type 1 where
  pub users : Table PrismaUser user_key user_unique
  pub otps : Table Otp otp_key otp_unique
  pub tokens : Table AuthToken token_key token_unique

-- A mail that was handed to the mail service: to whom, and the code that it carries.
pub data Mail : Type 0 where
  otp_mail password_reset_mail : String → String → Option String → Mail

pub record Db (p : Prisma) : Type 0 where
  pub users : p.users.Rows
  pub otps : p.otps.Rows
  pub tokens : p.tokens.Rows
  pub sent : List Mail
