-- ===== src/Auth/Session/Laws.antt =====
-- What a login requires and what it leaves.
use prismacv_backend.Shared.{
  ℕ, ◌≡◌, refl, sym, String, true, Option, none, some, str_eq, truthy, Result, ok, arith, inl, inr,
  Bool-cases, Option-cases, Result-cases, ap, ◌∙◌,
}
use prismacv_backend.Host.{Host}
use prismacv_backend.Auth.Model.{Prisma, Db, User, UserRole, regular, platform_admin, same_role}
use prismacv_backend.Auth.Patch.{normalize_email}
use prismacv_backend.Auth.Users.{find_by_email, entity_or_null}
use prismacv_backend.Auth.Session.{
  users, TokenPair, Credentials, TokenDraw, check_password, validate_user, issue_tokens, user_login,
}

pub same_role_refl : (a : UserRole) → same_role a a ≡ true
same_role_refl regular = refl
same_role_refl platform_admin = refl

same_role-eq : (a b : UserRole) → same_role a b ≡ true → a ≡ b
same_role-eq regular regular h = refl
same_role-eq platform_admin platform_admin h = refl
same_role-eq regular platform_admin h = cc
same_role-eq platform_admin regular h = cc

module _ (host : Host) (p : Prisma) where
  -- The account of an e-mail address.
  abbrev pub account : Db p → String → Result (Option User)
  account db email =
      entity_or_null host
        (p.users.find_first db.users (λ u. str_eq u.email (normalize_email email)))

  -- What `validateUser` has checked of the user that it returns.
  pub record Valid (db : Db p) (credentials : Credentials) (user : User) : Type 0 where
    pub known : account db credentials.email ≡ ok (some user)
    pub hash : String
    pub has_password : truthy user.password ≡ some hash
    pub fits : host.bcrypt_compare credentials.password hash ≡ true

  check_password-eq-some :
      (password : String) (o : Option User) (user : User)
      → check_password host password o ≡ some user
      → (o ≡ some user)
        × (hash : String) × (truthy user.password ≡ some hash)
        × (host.bcrypt_compare password hash ≡ true)
  check_password-eq-some password none user h = cc
  check_password-eq-some password (some x) user h = elim (Option-cases (truthy x.password)) [
    | inl missing ↦ ground (arith, h, missing)
    | inr (hash, e) ↦ elim (Bool-cases (host.bcrypt_compare password hash)) [
      | inl fits ↦
          let same : x ≡ user = ground (arith, h, e, fits) in
          (ap some same, hash, ap (λ (u : User). truthy u.password) (sym same) ∙ e, fits)
      | inr differs ↦ ground (arith, h, e, differs)
    ]
  ]

  module _ (db : Db p) (credentials : Credentials) where
    validate_user-Valid :
        (user : User)
        → (validate_user host p credentials db).0 ≡ ok (some user)
        → Valid db credentials user
    unfolding validate_user find_by_email
    validate_user-Valid user h = elim (Result-cases (account db credentials.email)) [
      | inr (x, failed) ↦ ground (arith, h, failed)
      | inl (o, e) ↦
          let (found, hash, has, fits) =
            check_password-eq-some credentials.password o user (ground (arith, h, e)) in
          record { known = e ∙ ap ok found; hash = hash; has_password = has; fits = fits }
    ]

    -- A user who passes the check is returned.
    validate_user-eq-some :
        (user : User)
        → Valid db credentials user
        → validate_user host p credentials db ≡ (ok (some user), db)
    unfolding validate_user find_by_email
    validate_user-eq-some user v = rw (v.known, v.has_password, v.fits)

    validate_user-state : (validate_user host p credentials db).1 ≡ db
    unfolding validate_user find_by_email
    validate_user-state = ground arith

    -- A login succeeds only for a user whose password fits, with the role and the verified address
    -- that it asks for.
    pub user_login-inv :
        (draw : TokenDraw) (now : ℕ) (answer : User × TokenPair) (db' : Db p)
        → user_login host p draw now credentials db ≡ (ok answer, db')
        → (user : User) × Valid db credentials user
          × (user.role ≡ regular)
          × (user.email_verified ≡ true)
          × (issue_tokens host p draw now user users db ≡ (ok answer, db'))
    unfolding user_login
    user_login-inv draw now answer db' h =
        let state = validate_user-state in
        elim (Result-cases (validate_user host p credentials db).0) [
          | inr (x, failed) ↦ ground (arith, h, failed)
          | inl (o, e) ↦ elim (Option-cases o) [
            | inl missing ↦ ground (arith, h, e, missing)
            | inr (user, found) ↦ (
              user,
              validate_user-Valid user (e ∙ ap ok found),
              same_role-eq user.role regular (ground (arith, h, e, found, state)),
              ground (arith, h, e, found, state),
              ground (arith, h, e, found, state),
            )
          ]
        ]
