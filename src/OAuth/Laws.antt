-- ===== src/OAuth/Laws.antt =====
-- Whose account an OAuth login can take.
use prismacv_backend.Shared.{
  ℕ, ◌≡◌, true, none, some, truthy, Error, ok, err, ◌⊎◌, inl, inr, Bool-cases, Option-cases,
  conflict, unauthorized,
}
use prismacv_backend.Shared.Text.{◌&◌}
use prismacv_backend.Host.{Host}
use prismacv_backend.Auth.Model.{Prisma, Db, User, regular, same_role}
use prismacv_backend.Auth.Users.{find_by_provider, find_by_email}
use prismacv_backend.OAuth.{OAuthDraw, OAuthUserData, authenticate}

module _ (host : Host) (p : Prisma) (draw : OAuthDraw) (now : ℕ) (d : OAuthUserData) (db : Db p)
    (e : User) where
  -- Where no account is linked to the provider and an account has the e-mail, the login reaches that
  -- account only if it is of a regular user and of no provider yet; else it is refused, and nothing
  -- changes.
  pub authenticate_taken :
      find_by_provider host p d.profile.provider d.profile.provider_id db ≡ (ok none, db)
      → find_by_email host p d.profile.email db ≡ (ok (some e), db)
      → ((same_role e.role regular ≡ true) × (truthy e.provider ≡ none))
        ⊎ ((x : Error) × (authenticate host p draw now d db ≡ (err x, db)))
  unfolding authenticate
  authenticate_taken f g = elim (Bool-cases (same_role e.role regular)) [
    | inr admin ↦
        inr (
          unauthorized "OAuth authentication is only available for regular users",
          rw (f, g, admin),
        )
    | inl is_regular ↦ elim (Option-cases (truthy e.provider)) [
      | inl free_one ↦ inl (is_regular, free_one)
      | inr (q, taken) ↦ inr (
        conflict ("An account with this email already exists using " & q & " authentication"),
        rw (f, g, is_regular, taken),
      )
    ]
  ]
