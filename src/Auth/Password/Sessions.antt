-- ===== src/Auth/Password/Sessions.antt =====
-- A password reset, the reset token that it spends, and the sessions that it leaves.
use prismacv_backend.Shared.{
  ℕ, ◌≡◌, refl, sym, String, true, false, none, some, str_eq, truthy, ok, err, arith, inl, inr,
  Bool-cases, ap, ◌∙◌, IsIn, unauthorized, ltb, eq_iff, eq_refl,
}
use prismacv_backend.Shared.Text.{js_length}
use prismacv_backend.Host.{Host, Claims}
use prismacv_backend.Auth.Model.{Prisma, Db, PrismaUser, User, AuthToken, same_role}
use prismacv_backend.Auth.Patch.{Draw, with_secrets}
use prismacv_backend.Auth.Users.{prisma_user_to_entity, entity_with}
use prismacv_backend.Auth.Users.Laws.{
  prisma_user_to_entity-changed, prisma_user_to_entity-eq-ok, entity-role, entity-id,
}
use prismacv_backend.Auth.Session.{
  Audience, TokenDraw, audience_text, role_of, issuer, issue_tokens, refresh_token,
}
use prismacv_backend.Auth.Session.Refresh.{refresh_token-accepted}
use prismacv_backend.Auth.Password.{reset_password, is_live}
use prismacv_backend.Auth.Password.Laws.{reset_password_sound, find_matching-eq-none}

entity-refresh :
    (host : Host) (u : PrismaUser) (e : User)
    → prisma_user_to_entity host u ≡ ok e
    → e.refresh_token ≡ u.refresh_token
unfolding entity_with
entity-refresh host u e h =
    let (a, r, read_a, read_r, built) = prisma_user_to_entity-eq-ok host u e h in
    ap (λ (x : User). x.refresh_token) built

module _ (host : Host) (p : Prisma) (seal : Draw) (salt : String) (now used_now : ℕ)
    (token new_password confirm_password : String) (db db' : Db p) (message : String)
    (done : reset_password host p seal salt now used_now token new_password confirm_password db
      ≡ (ok message, db')) where
  -- A reset does not end sessions: a refresh token that was exchangeable before it is exchanged after
  -- it too, for any user, the one whose password was reset included.
  pub reset_password-sessions :
      (draw : TokenDraw) (later : ℕ) (old : String) (audience : Audience) (c : Claims)
      (u : PrismaUser) (user : User) (hash : String)
      → host.jwt_verify
          (host.config_text "JWT_REFRESH_SECRET")
          (audience_text audience)
          (issuer host)
          later
          old
        ≡ some c
      → p.users.find db.users c.sub ≡ some u
      → prisma_user_to_entity host u ≡ ok user
      → truthy user.refresh_token ≡ some hash
      → same_role user.role (role_of audience) ≡ true
      → host.bcrypt_compare old hash ≡ true
      → (user' : User) × (user'.id ≡ user.id)
        × (refresh_token host p draw later old audience db'
            ≡ issue_tokens host p draw later user' audience db')
  unfolding entity_with
  reset_password-sessions draw later old audience c u user hash v f b t r m =
      let (tok, owner, reset) =
        reset_password_sound host p seal salt now used_now token new_password confirm_password db
          db' message done in
      elim (Bool-cases (str_eq tok.user_id c.sub)) [
        | inr other ↦ (
          user,
          refl,
          refresh_token-accepted host p draw later old audience db' c u user hash v
              (reset.users_after c.sub ∙ rw (other, f)) b t r m,
        )
        | inl owned ↦
            let f' = with_secrets (some (host.bcrypt_hash salt new_password)) none in
            (
              entity_with host (f' u) user.oauth_access_token user.oauth_refresh_token,
              sym (entity-id host u user b),
              refresh_token-accepted host p draw later old audience db' c (f' u)
                  (entity_with host (f' u) user.oauth_access_token user.oauth_refresh_token) hash v
                  (reset.users_after c.sub ∙ rw (owned, f))
                  (prisma_user_to_entity-changed host u user f' refl refl b)
                  (ap truthy (sym (entity-refresh host u user b)) ∙ t)
                  (ap (λ x. same_role x (role_of audience)) (sym (entity-role host u user b)) ∙ r)
                  m,
            )
      ]

  -- A reset token is good for one reset: where it fits the reset tokens of one user alone, a second
  -- reset with it is refused with 401 and changes nothing, whatever the time and the new password, where
  -- that is confirmed and at least 8 long.
  pub reset_password_once :
      ((r r' : AuthToken) (k k' : String)
        → p.tokens.find db.tokens k ≡ some r
        → p.tokens.find db.tokens k' ≡ some r'
        → host.bcrypt_compare token r.token_hash ≡ true
        → host.bcrypt_compare token r'.token_hash ≡ true
        → r.user_id ≡ r'.user_id)
      → (seal' : Draw) (salt' : String) (later used_later : ℕ) (password : String)
      → ltb (js_length password) 8 ≡ false
      → reset_password host p seal' salt' later used_later token password password db'
        ≡ (err (unauthorized "Invalid or expired reset token"), db')
  unfolding reset_password
  reset_password_once one_user seal' salt' later used_later password long =
      let (t, owner, reset) =
        reset_password_sound host p seal salt now used_now token new_password confirm_password db
          db' message done in
      let refused : (r : AuthToken)
          → IsIn r (p.tokens.find_many db'.tokens (is_live later))
          → host.bcrypt_compare token r.token_hash ≡ false =
        λ r i.
          let (found, live) = p.tokens.find_many_sound db'.tokens (is_live later) r i in
          let (kept, before) = reset.tokens_gone r.id r found in
          elim (Bool-cases (host.bcrypt_compare token r.token_hash)) [
            | inr e ↦ e
            | inl fits ↦
                let same = one_user r t r.id t.id before reset.token_found fits reset.token_fits in
                ground (arith, kept, live, same, eq_iff r.user_id t.user_id)
          ] in
      rw (
        eq_refl password,
        long,
        find_matching-eq-none host token (p.tokens.find_many db'.tokens (is_live later)) refused,
      )
