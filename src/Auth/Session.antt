-- ===== src/Auth/Session.antt =====
-- src/modules/auth/auth.service.ts: login, sign-up and the refresh of tokens.
pub mod Laws
pub mod Refresh
use prismacv_backend.Shared.{
  ℕ, suc, ◌+◌, String, Bool, true, false, not, ◌&&◌, ◌||◌, Option, none, some, if◌then◌else◌, ltb,
  str_eq, truthy, or_default, Result, ok, err, M, pure, throw, lift, guard, or_throw, ◌>>=◌, ◌>>◌,
  unauthorized, internal, Error, List,
}
use prismacv_backend.Shared.Text.{js_length}
use prismacv_backend.Host.{Host, Claims}
use prismacv_backend.Auth.Model.{
  Prisma, Db, User, UserRole, regular, platform_admin, same_role, role_text,
  signup_email_verification,
}
use prismacv_backend.Auth.Patch.{Draw, empty_patch}
use prismacv_backend.Auth.Users.{find_by_email, find_by_id, update, create}
use prismacv_backend.Auth.Otp.{OtpDraw, generate_and_send_otp}

pub data Audience : Type 0 where
  admins users : Audience

abbrev pub audience_text : Audience → String
audience_text admins = "platform-admin"
audience_text users = "user"

abbrev pub role_of : Audience → UserRole
role_of admins = platform_admin
role_of users = regular

pub record TokenPair : Type 0 where
  pub access_token : String
  pub refresh_token : String

pub record Credentials : Type 0 where
  pub email : String
  pub password : String

-- What one issue of tokens draws: two identifiers, a salt, and the bytes that `update` would use.
pub record TokenDraw : Type 0 where
  pub access_jti : String
  pub refresh_jti : String
  pub salt : String
  pub seal : Draw

pub record SignupDraw : Type 0 where
  pub id : String
  pub salt : String
  pub otp : OtpDraw

abbrev pub session_invalid : Error
session_invalid = unauthorized "Invalid or expired refresh token"

abbrev pub is_short_secret : Option String → Bool
is_short_secret none = true
is_short_secret (some s) = str_eq s "" || ltb (js_length s) 32

module _ (host : Host) where
  -- The checks of `onModuleInit`.
  unfoldable on_module_init : Result (Unit {0})
  on_module_init =
      if is_short_secret (host.config_text "JWT_SECRET")
      then err (internal "JWT_SECRET is not set or too short (minimum 32 characters).")
      else if is_short_secret (host.config_text "JWT_REFRESH_SECRET")
      then err (internal "JWT_REFRESH_SECRET is not set or too short (minimum 32 characters).")
      else ok tt

  abbrev pub issuer : String
  issuer = or_default (host.config_text "app.name") "PrismaCV"

  abbrev pub claims_for : String → String → String → Bool → Audience → String → Claims
  claims_for user_id email role is_master_admin audience jti = record {
    sub = user_id;
    email = email;
    role = role;
    is_master_admin = is_master_admin;
    iss = issuer;
    aud = audience_text audience;
    jti = jti;
  }

  -- The end of `validateUser`: a user without a password (from OAuth) never passes.
  abbrev pub check_hash : String → User → Option String → Option User
  check_hash password user none = none
  check_hash password user (some hash) =
      if host.bcrypt_compare password hash then some user else none

  abbrev pub check_password : String → Option User → Option User
  check_password password none = none
  check_password password (some user) = check_hash password user (truthy user.password)

  module _ (p : Prisma) where
    unfoldable pub validate_user : Credentials → M (Db p) (Option User)
    validate_user credentials = do
      found ← find_by_email host p credentials.email
      pure (check_password credentials.password found)

    unfoldable pub get_tokens :
        TokenDraw → ℕ → String → String → String → Bool → Audience → M (Db p) TokenPair
    get_tokens draw now user_id email role is_master_admin audience = do
      access ← lift (
          host.jwt_sign (host.config_text "JWT_SECRET") "15m" now
            (claims_for user_id email role is_master_admin audience draw.access_jti))
      refresh ← lift (
          host.jwt_sign (host.config_text "JWT_REFRESH_SECRET") "7d" now
            (claims_for user_id email role is_master_admin audience draw.refresh_jti))
      pure (record { access_token = access; refresh_token = refresh })

    unfoldable pub update_refresh_token : TokenDraw → String → String → M (Db p) User
    update_refresh_token draw user_id refresh_token =
        update host p draw.seal draw.seal user_id
          (record empty_patch { refresh_token = some (host.bcrypt_hash draw.salt refresh_token) })

    -- The end of each login: new tokens, the hash of the refresh token, and the answer.
    unfoldable pub issue_tokens : TokenDraw → ℕ → User → Audience → M (Db p) (User × TokenPair)
    issue_tokens draw now user audience = do
      tokens ←
          get_tokens draw now user.id user.email (role_text user.role) user.is_master_admin audience
      updated ← update_refresh_token draw user.id tokens.refresh_token
      pure (user, tokens)

    unfoldable admin_login : TokenDraw → ℕ → Credentials → M (Db p) (User × TokenPair)
    admin_login draw now credentials = do
      found ← validate_user credentials
      user ← or_throw found (unauthorized "Invalid credentials")
      guard (same_role user.role platform_admin) (unauthorized "Invalid credentials")
      issue_tokens draw now user admins

    unfoldable pub user_login : TokenDraw → ℕ → Credentials → M (Db p) (User × TokenPair)
    user_login draw now credentials = do
      found ← validate_user credentials
      user ← or_throw found (unauthorized "Invalid credentials")
      guard (same_role user.role regular) (unauthorized "Invalid credentials")
      guard user.email_verified (
          unauthorized
            "Email address not verified. Please check your inbox for the verification OTP.")
      issue_tokens draw now user users

    abbrev pub new_account : String → Option String → String → UserRole → User
    new_account email name hash role = record {
      id = "";
      email = email;
      password = some hash;
      name = name;
      role = role;
      is_master_admin = false;
      refresh_token = none;
      email_verified = false;
      avatar_url = none;
      provider = none;
      provider_id = none;
      oauth_access_token = none;
      oauth_refresh_token = none;
      oauth_token_expires_at = none;
    }

    -- The common body of the two sign-ups; they differ in the role. An exception is logged and thrown
    -- again.
    unfoldable signup_as :
        UserRole → SignupDraw → ℕ → String → Option String → String → M (Db p) User
    signup_as role draw now email name password = do
      created ←
          create host p draw.id (new_account email name (host.bcrypt_hash draw.salt password) role)
      expires_at ← generate_and_send_otp host p draw.otp now created signup_email_verification
      refetched ← find_by_id host p created.id
      pure (or_default refetched created)

    unfoldable admin_signup : SignupDraw → ℕ → String → Option String → String → M (Db p) User
    unfolding signup_as
    admin_signup = signup_as platform_admin

    unfoldable user_signup : SignupDraw → ℕ → String → Option String → String → M (Db p) User
    unfolding signup_as
    user_signup = signup_as regular

    unfoldable pub decode_refresh_token : ℕ → String → Audience → M (Db p) Claims
    decode_refresh_token now token audience =
        or_throw
          (host.jwt_verify (host.config_text "JWT_REFRESH_SECRET") (audience_text audience) issuer
            now token)
          session_invalid

    abbrev pub with_session : Option User → Option (User × String)
    with_session none = none
    with_session (some user) = elim (truthy user.refresh_token) [
      | none ↦ none
      | some hash ↦ some (user, hash)
    ]

    unfoldable pub refresh_token : TokenDraw → ℕ → String → Audience → M (Db p) (User × TokenPair)
    refresh_token draw now token audience = do
      decoded ← decode_refresh_token now token audience
      found ← find_by_id host p decoded.sub
      session ← or_throw (with_session found) session_invalid
      guard (same_role session.0.role (role_of audience)) session_invalid
      guard (host.bcrypt_compare token session.1) session_invalid
      issue_tokens draw now session.0 audience
