-- ===== src/Auth/Users/Laws.antt =====
-- The entity of a row, and how it follows a change of the row.
use prismacv_backend.Shared.{
  ◌≡◌, refl, String, Bool, Option, none, some, ok, arith, inl, inr, Result-cases, Option-cases, ap,
  ◌∙◌, sym, str_eq, eq_refl, if◌then◌else◌,
}
use prismacv_backend.Shared.Table.{change}
use prismacv_backend.Host.{Host}
use prismacv_backend.Auth.Model.{Prisma, Db, PrismaUser, User}
use prismacv_backend.Auth.Patch.{Draw, verified, secrets_patch, with_secrets}
use prismacv_backend.Auth.Users.{
  prisma_user_to_entity, read_token, entity_with, entity_or_null, update, seal_token,
  mark_email_verified,
}

module _ (host : Host) where
  pub prisma_user_to_entity-eq-ok :
      (u : PrismaUser) (e : User)
      → prisma_user_to_entity host u ≡ ok e
      → (access : Option String) × (refresh : Option String) × (read_token host u.oauth_access_token
          ≡ ok access)
        × (read_token host u.oauth_refresh_token ≡ ok refresh)
        × (e ≡ entity_with host u access refresh)
  unfolding prisma_user_to_entity
  prisma_user_to_entity-eq-ok u e h = elim (Result-cases (read_token host u.oauth_access_token)) [
    | inr (x, failed) ↦ ground (arith, h, failed)
    | inl (a, read_a) ↦ elim (Result-cases (read_token host u.oauth_refresh_token)) [
      | inr (x, failed) ↦ ground (arith, h, read_a, failed)
      | inl (r, read_r) ↦ (a, r, read_a, read_r, ground (arith, h, read_a, read_r))
    ]
  ]

  -- A change of the row that leaves its tokens alone.
  pub prisma_user_to_entity-changed :
      (u : PrismaUser) (e : User) (f : PrismaUser → PrismaUser)
      → (f u).oauth_access_token ≡ u.oauth_access_token
      → (f u).oauth_refresh_token ≡ u.oauth_refresh_token
      → prisma_user_to_entity host u ≡ ok e
      → prisma_user_to_entity host (f u)
        ≡ ok (entity_with host (f u) e.oauth_access_token e.oauth_refresh_token)
  unfolding prisma_user_to_entity entity_with
  prisma_user_to_entity-changed u e f same_a same_r h =
      let (a, r, read_a, read_r, built) = prisma_user_to_entity-eq-ok u e h in
      let read_a' = ap (read_token host) same_a ∙ read_a in
      let read_r' = ap (read_token host) same_r ∙ read_r in
      rw (read_a', read_r', prisma_user_to_entity)
        (ap (λ (x : User). ok (entity_with host (f u) x.oauth_access_token x.oauth_refresh_token))
          (sym built))

  pub entity-id : (u : PrismaUser) (e : User) → prisma_user_to_entity host u ≡ ok e → e.id ≡ u.id
  unfolding entity_with
  entity-id u e h =
      let (a, r, read_a, read_r, built) = prisma_user_to_entity-eq-ok u e h in
      ap (λ (x : User). x.id) built

  pub entity-role :
      (u : PrismaUser) (e : User) → prisma_user_to_entity host u ≡ ok e → e.role ≡ u.role
  unfolding entity_with
  entity-role u e h =
      let (a, r, read_a, read_r, built) = prisma_user_to_entity-eq-ok u e h in
      ap (λ (x : User). x.role) built

  -- The row behind an entity that was found.
  pub entity_or_null-eq-some :
      (o : Option PrismaUser) (e : User)
      → entity_or_null host o ≡ ok (some e)
      → (u : PrismaUser) × (o ≡ some u) × (prisma_user_to_entity host u ≡ ok e)
  entity_or_null-eq-some none e h = cc
  entity_or_null-eq-some (some u) e h = elim (Result-cases (prisma_user_to_entity host u)) [
    | inl (x, built) ↦ (u, refl, ground (arith, h, built))
    | inr (x, failed) ↦ ground (arith, h, failed)
  ]

  module _ (p : Prisma) (find : PrismaUser → Bool) (db : Db p) (user : User) where
    -- For an account that was found, `markEmailVerified` succeeds, and the row is verified.
    pub mark_email_verified_lem :
        entity_or_null host (p.users.find_first db.users find) ≡ ok (some user)
        → (u : PrismaUser) × (rows : p.users.Rows) × (p.users.find rows user.id ≡ some (verified u))
          × (mark_email_verified host p user.id db ≡ (
            ok (entity_with host (verified u) user.oauth_access_token user.oauth_refresh_token),
            record db { users = rows },
          ))
    unfolding mark_email_verified
    mark_email_verified_lem h =
        let (u, first, built) = entity_or_null-eq-some (p.users.find_first db.users find) user h in
        let (found, fits) = p.users.find_first_sound db.users find u first in
        let (rows, e) = p.users.update_total db.users u.id (verified) u found refl in
        let same = entity-id u user built in
        let moved =
          p.users.find-update db.users rows u.id (verified) (verified u) u.id (λ x. refl) e in
        (
          u,
          rows,
          ap (p.users.find rows) same ∙ moved ∙ simp (eq_refl u.id, found),
          rw (same, e, prisma_user_to_entity-changed u user (verified) refl refl built),
        )

  module _ (p : Prisma) (d : Draw) (id : String) (password refresh : Option String) (db : Db p)
      (u : PrismaUser) (e : User) where
    -- An update of the secrets of a user who is there succeeds, and changes the row of the user alone.
    pub update_secrets_lem :
        p.users.find db.users id ≡ some u
        → prisma_user_to_entity host u ≡ ok e
        → (rows : p.users.Rows) × (update host p d d id (secrets_patch password refresh) db ≡ (
          ok (
              entity_with host
                (with_secrets password refresh u)
                e.oauth_access_token
                e.oauth_refresh_token),
          record db { users = rows },
        ))
          × ((j : String)
              → p.users.find rows j ≡ (
                  if str_eq id j
                  then change (with_secrets password refresh) (p.users.find db.users j)
                  else p.users.find db.users j))
    unfolding update seal_token
    update_secrets_lem found built =
        let f = with_secrets password refresh in
        let (rows, stored) = p.users.update_total db.users id f u found refl in
        (
          rows,
          rw (stored, prisma_user_to_entity-changed u e f refl refl built),
          λ j. p.users.find-update db.users rows id f (f u) j (λ x. refl) stored,
        )

  module _ (p : Prisma) (d : Draw) (id : String) (password refresh : Option String)
      (db : Db p) where
    -- An update of the secrets that returns has found a row, and changes it alone.
    pub update_secrets-inv :
        (db' : Db p) (updated : User)
        → update host p d d id (secrets_patch password refresh) db ≡ (ok updated, db')
        → (v : PrismaUser) × (rows : p.users.Rows) × (p.users.find db.users id ≡ some v)
          × (db' ≡ record db { users = rows })
          × ((j : String)
              → p.users.find rows j ≡ (
                  if str_eq id j
                  then change (with_secrets password refresh) (p.users.find db.users j)
                  else p.users.find db.users j))
    unfolding update seal_token
    update_secrets-inv db' updated h =
        let f = with_secrets password refresh in
        elim (Option-cases (p.users.find db.users id)) [
          | inl missing ↦ ground (arith, h, p.users.update-missing db.users id f missing)
          | inr (v, found) ↦ elim (Result-cases (p.users.update db.users id f)) [
            | inr (x, failed) ↦ ground (arith, h, failed)
            | inl ((r, rows), stored) ↦ (
              v,
              rows,
              found,
              ground (arith, h, stored),
              λ j. p.users.find-update db.users rows id f r j (λ x. refl) stored,
            )
          ]
        ]
