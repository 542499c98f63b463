-- ===== src/OAuth.antt =====
-- src/modules/oauth/services/oauth.service.ts, and the operations of
-- src/modules/auth/users.service.ts on accounts of a provider.
pub mod Laws
use prismacv_backend.Shared.{
  ℕ, String, Bool, true, false, Option, none, some, if◌then◌else◌, truthy, Result, ok, err, M, pure,
  throw, lift, guard, ◌>>=◌, ◌>>◌, unauthorized, conflict,
}
use prismacv_backend.Shared.Text.{◌&◌}
use prismacv_backend.Host.{Host}
use prismacv_backend.Auth.Model.{Prisma, Db, PrismaUser, User, regular, free, same_role, role_text}
use prismacv_backend.Auth.Patch.{Draw, UserPatch, empty_patch}
use prismacv_backend.Auth.Users.{
  seal_token, prisma_user_to_entity, insert_user, caught, update, find_by_provider, find_by_email,
}
use prismacv_backend.Auth.Session.{TokenPair, TokenDraw, users, get_tokens, update_refresh_token}

-- What a provider says of a user.
pub record OAuthProfile : Type 0 where
  pub provider : String
  pub provider_id : String
  pub email : String
  pub name : Option String
  pub picture : Option String

-- What a login leaves in the row: the picture, the tokens of the provider, and their end.
pub record OAuthMetadata : Type 0 where
  pub avatar_url : Option String
  pub oauth_access_token : Option String
  pub oauth_refresh_token : Option String
  pub oauth_token_expires_at : Option ℕ

pub record OAuthUserData : Type 0 where
  pub profile : OAuthProfile
  pub access_token : Option String
  pub refresh_token : Option String
  pub expires_at : Option ℕ

-- The identifier of a new user, and the bytes of the encryptions of the two tokens, for a link or a
-- new account and for the update after it.
pub record OAuthDraw : Type 0 where
  pub id : String
  pub first_access : Draw
  pub first_refresh : Draw
  pub access : Draw
  pub refresh : Draw
  pub tokens : TokenDraw

abbrev pub metadata_of : OAuthUserData → OAuthMetadata
metadata_of d = record {
  avatar_url = d.profile.picture;
  oauth_access_token = d.access_token;
  oauth_refresh_token = d.refresh_token;
  oauth_token_expires_at = d.expires_at;
}

abbrev pub metadata_patch : OAuthMetadata → UserPatch
metadata_patch m = record empty_patch {
  avatar_url = m.avatar_url;
  oauth_access_token = m.oauth_access_token;
  oauth_refresh_token = m.oauth_refresh_token;
  oauth_token_expires_at = m.oauth_token_expires_at;
}

abbrev pub link_patch : String → String → OAuthMetadata → UserPatch
link_patch provider provider_id m = record (metadata_patch m) {
  provider = some provider;
  provider_id = some provider_id;
}

-- The row of a new user; the defaults of the schema fill the rest.
abbrev pub oauth_row :
    String → OAuthProfile → OAuthMetadata → Option String → Option String → PrismaUser
oauth_row id profile m access refresh = record {
  id = id;
  email = profile.email;
  password = none;
  name = profile.name;
  role = regular;
  is_master_admin = false;
  refresh_token = none;
  email_verified = false;
  avatar_url = m.avatar_url;
  provider = some profile.provider;
  provider_id = some profile.provider_id;
  oauth_access_token = access;
  oauth_refresh_token = refresh;
  oauth_token_expires_at = m.oauth_token_expires_at;
  stripe_customer_id = none;
  plan = free;
}

-- A profile is passed without an `avatarUrl` and without tokens.
abbrev pub no_metadata : OAuthMetadata
no_metadata = record {
  avatar_url = none;
  oauth_access_token = none;
  oauth_refresh_token = none;
  oauth_token_expires_at = none;
}

module _ (host : Host) (p : Prisma) where
  unfoldable pub create_oauth_user :
      Draw → Draw → String → OAuthProfile → OAuthMetadata → M (Db p) User
  create_oauth_user d d' id profile m =
      caught host p "User with this email or OAuth account already exists" (do
        access ← lift (seal_token host d m.oauth_access_token)
        refresh ← lift (seal_token host d' m.oauth_refresh_token)
        created ← insert_user host p (oauth_row id profile m access refresh)
        lift (prisma_user_to_entity host created))

  unfoldable pub link_oauth_account :
      Draw → Draw → String → String → String → OAuthMetadata → M (Db p) User
  link_oauth_account d d' user_id provider provider_id m =
      caught host p "OAuth account is already linked to another user"
        (update host p d d' user_id (link_patch provider provider_id m))

  unfoldable update_oauth_metadata : Draw → Draw → String → OAuthMetadata → M (Db p) User
  update_oauth_metadata d d' user_id m = update host p d d' user_id (metadata_patch m)

  -- The account of the e-mail, where no account of the provider is there.
  abbrev pub link_or_refuse : OAuthDraw → OAuthUserData → User → Option String → M (Db p) User
  link_or_refuse draw d existing (some provider) =
      throw (
        conflict
          ("An account with this email already exists using " & provider & " authentication"))
  link_or_refuse draw d existing none =
      link_oauth_account draw.first_access draw.first_refresh existing.id d.profile.provider
        d.profile.provider_id (metadata_of d)

  abbrev pub link_or_create : OAuthDraw → OAuthUserData → Option User → M (Db p) User
  link_or_create draw d none =
      create_oauth_user draw.first_access draw.first_refresh draw.id d.profile no_metadata
  link_or_create draw d (some existing) =
      if same_role existing.role regular
      then link_or_refuse draw d existing (truthy existing.provider)
      else throw (unauthorized "OAuth authentication is only available for regular users")

  abbrev pub known_or_new : OAuthDraw → OAuthUserData → Option User → M (Db p) User
  known_or_new draw d (some user) = pure user
  known_or_new draw d none = do
    existing ← find_by_email host p d.profile.email
    link_or_create draw d existing

  pub authenticate : OAuthDraw → ℕ → OAuthUserData → M (Db p) (User × TokenPair)
  unfolding create_oauth_user link_oauth_account update_oauth_metadata
  authenticate draw now d = do
    found ← find_by_provider host p d.profile.provider d.profile.provider_id
    known ← known_or_new draw d found
    guard (same_role known.role regular)
        (unauthorized "OAuth authentication is only available for regular users")
    user ← update_oauth_metadata draw.access draw.refresh known.id (metadata_of d)
    tokens ←
        get_tokens host p draw.tokens now user.id user.email (role_text user.role)
          user.is_master_admin users
    updated ← update_refresh_token host p draw.tokens user.id tokens.refresh_token
    pure (user, tokens)
