-- ===== src/Auth/Patch.antt =====
-- src/modules/auth/users.service.ts: the data that an update of a user writes, and the conversions
-- around it.
use prismacv_backend.Shared.{
  ℕ, String, Bool, true, false, Option, none, some, str_eq, or_default, Result, ok, err, conflict,
  unique_violation, List,
}
use prismacv_backend.Shared.Text.{to_lower_case, trim}
use prismacv_backend.Auth.Model.{PrismaUser, UserRole}

-- The random bytes of one encryption.
pub record Draw : Type 0 where
  pub salt : List ℕ
  pub iv : List ℕ

-- `email.toLowerCase().trim()`
unfoldable pub normalize_email : String → String
unfolding to_lower_case trim
normalize_email email = trim (to_lower_case email)

abbrev pub unless_null {ℓ} : {A : Type ℓ} → Option A → Option A → Option A
unless_null none old = old
unless_null (some new) old = some new

-- The fields of a `Partial<User>`; one that is `undefined` is left as it is by the client.
pub record UserPatch : Type 0 where
  pub email : Option String
  pub password : Option String
  pub name : Option String
  pub role : Option UserRole
  pub is_master_admin : Option Bool
  pub refresh_token : Option String
  pub provider : Option String
  pub provider_id : Option String
  pub avatar_url : Option String
  pub oauth_access_token : Option String
  pub oauth_refresh_token : Option String
  pub oauth_token_expires_at : Option ℕ

abbrev pub empty_patch : UserPatch
empty_patch = record {
  email = none;
  password = none;
  name = none;
  role = none;
  is_master_admin = none;
  refresh_token = none;
  provider = none;
  provider_id = none;
  avatar_url = none;
  oauth_access_token = none;
  oauth_refresh_token = none;
  oauth_token_expires_at = none;
}

-- `prisma.user.update({ data })` with the fields of a patch.
abbrev pub apply_patch : UserPatch → PrismaUser → PrismaUser
apply_patch d u = record u {
  email = or_default d.email u.email;
  password = unless_null d.password u.password;
  name = unless_null d.name u.name;
  role = or_default d.role u.role;
  is_master_admin = or_default d.is_master_admin u.is_master_admin;
  refresh_token = unless_null d.refresh_token u.refresh_token;
  provider = unless_null d.provider u.provider;
  provider_id = unless_null d.provider_id u.provider_id;
  avatar_url = unless_null d.avatar_url u.avatar_url;
  oauth_access_token = unless_null d.oauth_access_token u.oauth_access_token;
  oauth_refresh_token = unless_null d.oauth_refresh_token u.oauth_refresh_token;
  oauth_token_expires_at = unless_null d.oauth_token_expires_at u.oauth_token_expires_at;
}

abbrev pub some_ok : Result String → Result (Option String)
some_ok (ok s) = ok (some s)
some_ok (err e) = err e

-- A unique constraint that the database reports is a conflict; other errors are thrown again.
abbrev pub on_duplicate {ℓ} : {A : Type ℓ} → String → Result A → Result A
on_duplicate message (ok a) = ok a
on_duplicate message (err unique_violation) = err (conflict message)
on_duplicate message (err e) = err e

-- `column = text` in a condition of the database.
abbrev pub is_value : Option String → String → Bool
is_value none s = false
is_value (some t) s = str_eq t s

-- `{ emailVerified: true }`
abbrev pub verified : PrismaUser → PrismaUser
verified u = record u { email_verified = true }

-- A patch of the password and the hash of the refresh token alone, and the row that it leaves.
abbrev pub secrets_patch : Option String → Option String → UserPatch
secrets_patch password refresh_token = record empty_patch {
  password = password;
  refresh_token = refresh_token;
}

abbrev pub with_secrets : Option String → Option String → PrismaUser → PrismaUser
with_secrets password refresh_token = apply_patch (secrets_patch password refresh_token)
