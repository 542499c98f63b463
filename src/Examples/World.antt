-- ===== src/Examples/World.antt =====
-- A host whose hash is the cut text itself and whose tokens all carry the claims of one user, and a
-- database with that user.
use Prim.Native.String.{slice}
use prismacv_backend.Shared.{
  ◌≡◌, ◌≢◌, ap, String, Bool, true, false, ◌&&◌, not, Option, none, some, [], ◌∷◌, if◌then◌else◌,
  str_eq, Result, ok, err, internal, arith, eq_iff, eq_refl,
}
use prismacv_backend.Shared.Table.InMemory.{in_memory}
use prismacv_backend.Host.{Host, Claims}
use prismacv_backend.Auth.Model.{
  Prisma, Db, PrismaUser, User, regular, free, user_key, user_unique, otp_key, otp_unique,
  token_key, token_unique,
}
use prismacv_backend.Examples.Codec.{plain_crypto}

abbrev or_dash : String → String
or_dash s = if str_eq s "" then "-" else s

abbrev pub plain_hash : String → String
plain_hash text = or_dash (slice text 0 72)

pub or_dash-nonempty : (s : String) → or_dash s ≢ ""
or_dash-nonempty s e = ground (arith, e, eq_iff s "", eq_iff "-" "")

abbrev pub claims_of : String → Claims
claims_of jti = record {
  sub = "u1";
  email = "ann@x.io";
  role = "REGULAR";
  is_master_admin = false;
  iss = "PrismaCV";
  aud = "user";
  jti = jti;
}

abbrev is_ann : Claims → Bool
is_ann c =
    str_eq c.sub "u1"
    && (str_eq c.email "ann@x.io"
        && (str_eq c.role "REGULAR"
            && (not c.is_master_admin && (str_eq c.iss "PrismaCV" && str_eq c.aud "user"))))

is_ann-claims_of : (c : Claims) → is_ann c ≡ true → claims_of c.jti ≡ c
is_ann-claims_of c h = ground (
  arith,
  h,
  eq_iff c.sub "u1",
  eq_iff c.email "ann@x.io",
  eq_iff c.role "REGULAR",
  eq_iff c.iss "PrismaCV",
  eq_iff c.aud "user",
)

abbrev sign : Claims → Result String
sign c = if is_ann c then ok c.jti else err (internal "not a user of the example")

abbrev verify : String → String → String → Option Claims
verify aud iss token =
    if str_eq aud "user" && str_eq iss "PrismaCV" then some (claims_of token) else none

pub verify-sign :
    (c : Claims) (token : String) → sign c ≡ ok token → verify c.aud c.iss token ≡ some c
verify-sign c token h =
    let same : is_ann c ≡ true → claims_of c.jti ≡ c = is_ann-claims_of c in
    ground (arith, h, same, eq_iff c.aud "user", eq_iff c.iss "PrismaCV")

pub verify_sound :
    (aud iss token : String) (c : Claims)
    → verify aud iss token ≡ some c
    → (c.aud ≡ aud) × (c.iss ≡ iss)
verify_sound aud iss token c h = (
  ground (arith, h, eq_iff aud "user", eq_iff iss "PrismaCV"),
  ground (arith, h, eq_iff aud "user", eq_iff iss "PrismaCV"),
)

pub verify_payload :
    (aud iss aud' iss' token : String) (c c' : Claims)
    → verify aud iss token ≡ some c
    → verify aud' iss' token ≡ some c'
    → c ≡ c'
verify_payload aud iss aud' iss' token c c' h h' = ground (arith, h, h')

abbrev pub example_host : Host
example_host = record {
  config_number = λ key. none;
  config_text = λ key. none;
  bcrypt_hash = λ salt text. plain_hash text;
  bcrypt_compare = λ text hash. str_eq (plain_hash text) hash;
  bcrypt_compare-bcrypt_hash = λ salt text. eq_refl (plain_hash text);
  bcrypt_hash-nonempty = λ salt text. or_dash-nonempty (slice text 0 72);
  bcrypt_compare_prefix = λ s t hash e. ap (λ x. str_eq (or_dash x) hash) e;
  jwt_sign = λ secret expires_in now c. sign c;
  jwt_verify = λ secret aud iss now token. verify aud iss token;
  lifetime = λ expires_in. 1000;
  jwt_verify-jwt_sign = λ secret expires_in now later c token e early. verify-sign c token e;
  jwt_verify_sound = λ secret aud iss now token c. verify_sound aud iss token c;
  jwt_verify_payload =
      λ secret aud iss aud' iss' now now' token c c'. verify_payload aud iss aud' iss' token c c';
  crypto = plain_crypto;
}

abbrev pub example_prisma : Prisma
example_prisma = record {
  users = in_memory user_key user_unique;
  otps = in_memory otp_key otp_unique;
  tokens = in_memory token_key token_unique;
}

abbrev pub ann : PrismaUser
ann = record {
  id = "u1";
  email = "ann@x.io";
  password = some "correct horse";
  name = some "Ann";
  role = regular;
  is_master_admin = false;
  refresh_token = none;
  email_verified = true;
  avatar_url = none;
  provider = none;
  provider_id = none;
  oauth_access_token = none;
  oauth_refresh_token = none;
  oauth_token_expires_at = none;
  stripe_customer_id = none;
  plan = free;
}

abbrev pub db_with : PrismaUser → Db example_prisma
db_with u = record { users = u ∷ []; otps = []; tokens = []; sent = [] }

-- The entity of a row, as it is read.
abbrev pub ann_entity : PrismaUser → User
ann_entity u = record {
  id = u.id;
  email = u.email;
  password = u.password;
  name = u.name;
  role = u.role;
  is_master_admin = u.is_master_admin;
  refresh_token = u.refresh_token;
  email_verified = u.email_verified;
  avatar_url = u.avatar_url;
  provider = u.provider;
  provider_id = u.provider_id;
  oauth_access_token = none;
  oauth_refresh_token = none;
  oauth_token_expires_at = u.oauth_token_expires_at;
}
