-- ===== src/Auth/Users.antt =====
-- src/modules/auth/users.service.ts: users and one-time codes in the database.
pub mod Laws
use prismacv_backend.Shared.{
  ℕ, suc, not, ◌+◌, String, Bool, true, false, ◌&&◌, ◌||◌, Option, none, some, if◌then◌else◌, ltb,
  str_eq, truthy, or_default, is_some, Result, ok, err, M, pure, throw, lift, guard, ◌>>=◌, ◌>>◌,
  internal, conflict, unique_violation, Error, List, ◌∷◌, [],
}
use prismacv_backend.Shared.Text.{js_length, to_lower_case, trim}
use prismacv_backend.Host.{Host}
use prismacv_backend.Encryption.{encrypt, decrypt, is_bad_key}
use prismacv_backend.Auth.Patch.{
  Draw, normalize_email, UserPatch, apply_patch, some_ok, on_duplicate, is_value, verified,
}
use prismacv_backend.Auth.Model.{
  Prisma, Db, PrismaUser, User, UserRole, regular, UserPlan, free, Otp, OtpPurpose, same_purpose,
}

module _ (host : Host) where
  unfoldable get_encryption_key : Result String
  get_encryption_key = elim (host.config_text "security.encryptionKey") [
    | none ↦ err (
        internal
          "ENCRYPTION_KEY is not configured or is too short (must be at least 32 characters). Set the ENCRYPTION_KEY environment variable.")
    | some key ↦
        if is_bad_key key
        then err (
            internal
              "ENCRYPTION_KEY is not configured or is too short (must be at least 32 characters). Set the ENCRYPTION_KEY environment variable.")
        else ok key
  ]

  -- A stored token is decrypted, unless it is null or empty.
  unfoldable pub read_token : Option String → Result (Option String)
  unfolding get_encryption_key
  read_token stored = elim (truthy stored) [
    | none ↦ ok none
    | some sealed ↦ elim get_encryption_key [
      | ok key ↦ some_ok (decrypt host.crypto sealed key)
      | err e ↦ err e
    ]
  ]

  -- A token is encrypted before it is stored, unless it is undefined or empty.
  unfoldable pub seal_token : Draw → Option String → Result (Option String)
  unfolding get_encryption_key
  seal_token draw token = elim (truthy token) [
    | none ↦ ok none
    | some plain ↦ elim get_encryption_key [
      | ok key ↦ some_ok (encrypt host.crypto draw.salt draw.iv plain key)
      | err e ↦ err e
    ]
  ]

  unfoldable pub entity_with : PrismaUser → Option String → Option String → User
  entity_with u access refresh = record {
    id = u.id;
    email = u.email;
    password = truthy u.password;
    name = u.name;
    role = u.role;
    is_master_admin = u.is_master_admin;
    refresh_token = u.refresh_token;
    email_verified = u.email_verified;
    avatar_url = truthy u.avatar_url;
    provider = truthy u.provider;
    provider_id = truthy u.provider_id;
    oauth_access_token = access;
    oauth_refresh_token = refresh;
    oauth_token_expires_at = u.oauth_token_expires_at;
  }

  unfoldable pub prisma_user_to_entity : PrismaUser → Result User
  unfolding read_token entity_with
  prisma_user_to_entity u = elim (read_token u.oauth_access_token) [
    | err e ↦ err e
    | ok access ↦ elim (read_token u.oauth_refresh_token) [
      | err e ↦ err e
      | ok refresh ↦ ok (entity_with u access refresh)
    ]
  ]

  -- `prismaUser ? this.prismaUserToEntity(prismaUser) : null`
  abbrev pub entity_or_null : Option PrismaUser → Result (Option User)
  entity_or_null none = ok none
  entity_or_null (some u) = elim (prisma_user_to_entity u) [ ok e ↦ ok (some e) | err e ↦ err e ]

  module _ (p : Prisma) where
    abbrev pub stored_user : Db p → Result (PrismaUser × p.users.Rows) → Result PrismaUser × Db p
    stored_user db (ok (u, rows)) = (ok u, record db { users = rows })
    stored_user db (err e) = (err e, db)

    abbrev pub update_user : String → (PrismaUser → PrismaUser) → M (Db p) PrismaUser
    update_user id f db = stored_user db (p.users.update db.users id f)

    abbrev pub insert_user : PrismaUser → M (Db p) PrismaUser
    insert_user u db = elim (p.users.create db.users u) [
      | ok rows ↦ (ok u, record db { users = rows })
      | err e ↦ (err e, db)
    ]

    unfoldable pub find_by_email : String → M (Db p) (Option User)
    find_by_email email db = (
      entity_or_null (p.users.find_first db.users (λ u. str_eq u.email (normalize_email email))),
      db,
    )

    unfoldable pub find_by_id : String → M (Db p) (Option User)
    find_by_id id db = (entity_or_null (p.users.find db.users id), db)

    unfoldable pub update : Draw → Draw → String → UserPatch → M (Db p) User
    update d d' id patch = do
      access ← lift (seal_token d patch.oauth_access_token)
      refresh ← lift (seal_token d' patch.oauth_refresh_token)
      updated ← update_user id (
          apply_patch (record patch { oauth_access_token = access; oauth_refresh_token = refresh }))
      lift (prisma_user_to_entity updated)

    -- A row as `create` writes it, with the defaults of the schema.
    abbrev pub new_row : String → User → PrismaUser
    new_row id u = record {
      id = id;
      email = u.email;
      password = u.password;
      name = u.name;
      role = u.role;
      is_master_admin = u.is_master_admin;
      refresh_token = none;
      email_verified = false;
      avatar_url = none;
      provider = none;
      provider_id = none;
      oauth_access_token = none;
      oauth_refresh_token = none;
      oauth_token_expires_at = none;
      stripe_customer_id = none;
      plan = free;
    }

    abbrev pub create_unless : String → User → Option User → M (Db p) User
    create_unless id user (some existing) = throw (conflict "User with this email already exists")
    create_unless id user none = do
      created ← insert_user (new_row id user)
      lift (prisma_user_to_entity created)

    abbrev pub caught : {A : Type 0} → String → M (Db p) A → M (Db p) A
    caught message m db = (on_duplicate message (m db).0, (m db).1)

    unfoldable pub create : String → User → M (Db p) User
    unfolding find_by_email
    create id user =
        caught "User with this email already exists"
          (do existing ← find_by_email user.email; create_unless id user existing)

    unfoldable pub find_by_provider : String → String → M (Db p) (Option User)
    find_by_provider provider provider_id db = (
      entity_or_null (
          p.users.find_first db.users
            (λ u. is_value u.provider provider && is_value u.provider_id provider_id)),
      db,
    )

    pub mark_email_verified : String → M (Db p) User
    mark_email_verified user_id = do
      updated ← update_user user_id verified
      lift (prisma_user_to_entity updated)
