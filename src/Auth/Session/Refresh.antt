-- ===== src/Auth/Session/Refresh.antt =====
-- The tokens of a login, and the refresh that they allow.
use Prim.Native.String.{slice}
use prismacv_backend.Shared.{
  ℕ, ◌+◌, ◌<◌, ◌≡◌, ◌≢◌, refl, sym, String, true, none, some, str_eq-false, truthy, ok, err, arith,
  inl, inr, Option-cases, Result-cases, eq_iff, ap, subst, ◌∙◌, eq_refl,
}
use prismacv_backend.Host.{Host, Claims}
use prismacv_backend.Auth.Model.{Prisma, Db, PrismaUser, User, regular, role_text, same_role}
use prismacv_backend.Auth.Patch.{with_secrets}
use prismacv_backend.Auth.Users.{find_by_id, entity_or_null, prisma_user_to_entity, entity_with}
use prismacv_backend.Auth.Users.Laws.{
  update_secrets_lem, entity_or_null-eq-some, entity-id, entity-role, prisma_user_to_entity-changed,
}
use prismacv_backend.Auth.Session.{
  with_session, Audience, admins, users, audience_text, TokenPair, Credentials, TokenDraw, issuer,
  claims_for, get_tokens, update_refresh_token, issue_tokens, user_login, refresh_token,
  decode_refresh_token, role_of, session_invalid,
}
use prismacv_backend.Auth.Session.Laws.{Valid, user_login-inv}

module _ (host : Host) (p : Prisma) where
  -- The claims of the refresh token of a user.
  abbrev pub refresh_claims : TokenDraw → User → Audience → Claims
  refresh_claims draw user audience =
      claims_for host user.id user.email (role_text user.role) user.is_master_admin audience
        draw.refresh_jti

  -- What an issue of tokens leaves: the signed refresh token, and its hash in the row of the user.
  pub record Issued (draw : TokenDraw) (now : ℕ) (user : User) (u : PrismaUser)
      (audience : Audience) (answer : User × TokenPair) (db db' : Db p) : Type 0 where
    pub same_user : answer.0 ≡ user
    pub signed :
        host.jwt_sign
          (host.config_text "JWT_REFRESH_SECRET")
          "7d"
          now
          (refresh_claims draw user audience)
        ≡ ok (answer.1).refresh_token
    pub stored :
        p.users.find db'.users user.id
        ≡ some (with_secrets none (some (host.bcrypt_hash draw.salt (answer.1).refresh_token)) u)
    pub others : (j : String) → user.id ≢ j → p.users.find db'.users j ≡ p.users.find db.users j

  module _ (draw : TokenDraw) (now : ℕ) (user : User) (audience : Audience) (db : Db p)
      (u : PrismaUser) (found : p.users.find db.users user.id ≡ some u)
      (built : prisma_user_to_entity host u ≡ ok user) where
    issue_tokens-Issued :
        (answer : User × TokenPair) (db' : Db p)
        → issue_tokens host p draw now user audience db ≡ (ok answer, db')
        → Issued draw now user u audience answer db db'
    unfolding issue_tokens get_tokens update_refresh_token
    issue_tokens-Issued answer db' h =
        elim (Result-cases (
          host.jwt_sign (host.config_text "JWT_SECRET") "15m" now (
            claims_for host user.id user.email (role_text user.role) user.is_master_admin audience
              draw.access_jti))) [
                | inr (x, failed) ↦ ground (arith, h, failed)
                | inl (access, e) ↦
                    elim (Result-cases (
                      host.jwt_sign (host.config_text "JWT_REFRESH_SECRET") "7d" now
                        (refresh_claims draw user audience))) [
                          | inr (x, failed) ↦ ground (arith, h, e, failed)
                          | inl (refresh, e') ↦
                              let (rows, updated, at) =
                                update_secrets_lem host p draw.seal user.id none
                                  (some (host.bcrypt_hash draw.salt refresh)) db u user found
                                  built in
                              let token : refresh ≡ (answer.1).refresh_token =
                                ground (arith, h, e, e', updated) in
                              let same : db' ≡ record db { users = rows } =
                                ground (arith, h, e, e', updated) in
                              record {
                                same_user = ground (arith, h, e, e', updated);
                                signed = e' ∙ ap ok token;
                                stored =
                                    ap (λ (d : Db p). p.users.find d.users user.id) same
                                    ∙ at user.id
                                    ∙ simp (eq_refl user.id, found, token);
                                others = λ j other.
                                    ap (λ (d : Db p). p.users.find d.users j) same
                                    ∙ at j
                                    ∙ rw (str_eq-false user.id j other);
                              }
                        ]
              ]

  -- A refresh token is exchanged where it verifies for the audience, and its user has the role of the
  -- audience and a stored hash that fits.
  pub refresh_token-accepted :
      (draw : TokenDraw) (now : ℕ) (token : String) (audience : Audience) (db : Db p) (c : Claims)
      (u : PrismaUser) (user : User) (hash : String)
      → host.jwt_verify
          (host.config_text "JWT_REFRESH_SECRET")
          (audience_text audience)
          (issuer host)
          now
          token
        ≡ some c
      → p.users.find db.users c.sub ≡ some u
      → prisma_user_to_entity host u ≡ ok user
      → truthy user.refresh_token ≡ some hash
      → same_role user.role (role_of audience) ≡ true
      → host.bcrypt_compare token hash ≡ true
      → refresh_token host p draw now token audience db
        ≡ issue_tokens host p draw now user audience db
  unfolding refresh_token decode_refresh_token find_by_id
  refresh_token-accepted draw now token audience db c u user hash v f b t r m =
      rw (v, f, b, entity_or_null, t, with_session, r, m)

  refresh_token-refused :
      (draw : TokenDraw) (now : ℕ) (token : String) (audience : Audience) (db : Db p)
      → host.jwt_verify
          (host.config_text "JWT_REFRESH_SECRET")
          (audience_text audience)
          (issuer host)
          now
          token
        ≡ none
      → refresh_token host p draw now token audience db ≡ (err session_invalid, db)
  unfolding refresh_token decode_refresh_token
  refresh_token-refused draw now token audience db v = rw v

  -- A token that verifies for users does not verify for administrators.
  users_not_admins :
      (now : ℕ) (token : String) (c : Claims)
      → host.jwt_verify (host.config_text "JWT_REFRESH_SECRET") "user" (issuer host) now token
        ≡ some c
      → host.jwt_verify
          (host.config_text "JWT_REFRESH_SECRET")
          "platform-admin"
          (issuer host)
          now
          token
        ≡ none
  users_not_admins now token c v =
      let secret = host.config_text "JWT_REFRESH_SECRET" in
      elim (Option-cases (host.jwt_verify secret "platform-admin" (issuer host) now token)) [
        | inl e ↦ e
        | inr (x, e) ↦
            let same =
              host.jwt_verify_payload secret "platform-admin" (issuer host) "user" (issuer host) now
                now token x c e v in
            let as_admin =
              (host.jwt_verify_sound secret "platform-admin" (issuer host) now token x e).0 in
            let as_user = (host.jwt_verify_sound secret "user" (issuer host) now token c v).0 in
            let clash : ◌≡◌ {A = String} "platform-admin" "user" =
              sym as_admin ∙ ap (λ (d : Claims). d.aud) same ∙ as_user in
            ground (arith, clash, eq_iff "platform-admin" "user")
      ]

  truthy_hash :
      (salt text : String)
      → truthy (some (host.bcrypt_hash salt text)) ≡ some (host.bcrypt_hash salt text)
  truthy_hash salt text =
      rw (str_eq-false (host.bcrypt_hash salt text) "" (host.bcrypt_hash-nonempty salt text))

  module _ (draw : TokenDraw) (now : ℕ) (credentials : Credentials) (db db' : Db p)
      (answer : User × TokenPair)
      (done : user_login host p draw now credentials db ≡ (ok answer, db')) where
    -- A login that returns had a fitting password, the regular role and a verified address; it answers
    -- the user, stores the hash of the refresh token that it signed, and changes no other user.
    pub user_login_sound :
        (u : PrismaUser) × Valid host p db credentials answer.0
        × ((answer.0).role ≡ regular)
        × ((answer.0).email_verified ≡ true)
        × Issued draw now answer.0 u users answer db db'
        × (prisma_user_to_entity host u ≡ ok answer.0)
        × (p.users.find db.users (answer.0).id ≡ some u)
    user_login_sound =
        let (user, valid, is_regular, is_verified, issued) =
          user_login-inv host p db credentials draw now answer db' done in
        let (u, first, built) = entity_or_null-eq-some host _ user valid.known in
        let (found, fits) = p.users.find_first_sound db.users _ u first in
        let at = ap (p.users.find db.users) (entity-id host u user built) ∙ found in
        let i = issue_tokens-Issued draw now user users db u at built answer db' issued in
        subst
          (λ (x : User).
            (u : PrismaUser) × Valid host p db credentials x
            × (x.role ≡ regular)
            × (x.email_verified ≡ true)
            × Issued draw now x u users answer db db'
            × (prisma_user_to_entity host u ≡ ok x)
            × (p.users.find db.users x.id ≡ some u))
          (sym i.same_user) (u, valid, is_regular, is_verified, i, built, at)

    -- While it lives, the refresh token of a login is exchanged for new tokens of the same user; sent
    -- to the administrators' endpoint it is refused, and nothing changes.
    pub login_then_refresh :
        (later : ℕ)
        → later < now + host.lifetime "7d"
        → (user : User) × (user.id ≡ (answer.0).id)
          × ((draw' : TokenDraw)
              → refresh_token host p draw' later (answer.1).refresh_token users db'
                ≡ issue_tokens host p draw' later user users db')
          × ((draw' : TokenDraw)
              → refresh_token host p draw' later (answer.1).refresh_token admins db'
                ≡ (err session_invalid, db'))
    unfolding entity_with
    login_then_refresh later alive =
        let (u, valid, is_regular, is_verified, i, built, at) = user_login_sound in
        let token = (answer.1).refresh_token in
        let hash = host.bcrypt_hash draw.salt token in
        let u' = with_secrets none (some hash) u in
        let user' =
          entity_with host u' (answer.0).oauth_access_token (answer.0).oauth_refresh_token in
        let verified_token =
          host.jwt_verify-jwt_sign (host.config_text "JWT_REFRESH_SECRET") "7d" now later
            (refresh_claims draw answer.0 users) token i.signed alive in
        (
          user',
          sym (entity-id host u answer.0 built),
          λ draw'.
              refresh_token-accepted draw' later token users db'
                (refresh_claims draw answer.0 users) u' user' hash verified_token i.stored
                (prisma_user_to_entity-changed host u answer.0 (with_secrets none (some hash)) refl
                  refl built)
                (truthy_hash draw.salt token)
                (ap (λ r. same_role r regular)
                  (sym (entity-role host u answer.0 built) ∙ is_regular))
                (host.bcrypt_compare-bcrypt_hash draw.salt token),
          λ draw'.
              refresh_token-refused draw' later token admins db'
                (users_not_admins later token (refresh_claims draw answer.0 users) verified_token),
        )

    -- After a login and one exchange of its refresh token for a new one, the first token, which the
    -- exchange was to replace, is exchanged once more while it lives, for tokens of the same user, if it
    -- agrees with the new one in its first 72 bytes: the hash that is stored does not tell the two apart.
    pub refresh_token-replaced :
        (later again : ℕ)
        → later < now + host.lifetime "7d"
        → again < now + host.lifetime "7d"
        → (draw' : TokenDraw) (renewed : User × TokenPair) (db'' : Db p)
        → refresh_token host p draw' later (answer.1).refresh_token users db' ≡ (ok renewed, db'')
        → slice (answer.1).refresh_token 0 72 ≡ slice (renewed.1).refresh_token 0 72
        → (user : User) × (user.id ≡ (answer.0).id)
          × ((draw'' : TokenDraw)
              → refresh_token host p draw'' again (answer.1).refresh_token users db''
                ≡ issue_tokens host p draw'' again user users db'')
    unfolding entity_with
    refresh_token-replaced later again alive still draw' renewed db'' exchanged agree =
        let (u, valid, is_regular, is_verified, i, built, at) = user_login_sound in
        let token = (answer.1).refresh_token in
        let hash = host.bcrypt_hash draw.salt token in
        let u' = with_secrets none (some hash) u in
        let user' =
          entity_with host u' (answer.0).oauth_access_token (answer.0).oauth_refresh_token in
        let built' =
          prisma_user_to_entity-changed host u answer.0 (with_secrets none (some hash)) refl refl
            built in
        let same_id = entity-id host u answer.0 built in
        let is_user =
          ap (λ r. same_role r regular) (sym (entity-role host u answer.0 built) ∙ is_regular) in
        let verifies : (t : ℕ)
            → t < now + host.lifetime "7d"
            → host.jwt_verify (host.config_text "JWT_REFRESH_SECRET") "user" (issuer host) t token
              ≡ some (refresh_claims draw answer.0 users) =
          λ t h.
            host.jwt_verify-jwt_sign (host.config_text "JWT_REFRESH_SECRET") "7d" now t
              (refresh_claims draw answer.0 users) token i.signed h in
        let first =
          refresh_token-accepted draw' later token users db' (refresh_claims draw answer.0 users) u'
            user' hash (verifies later alive) i.stored built' (truthy_hash draw.salt token) is_user
            (host.bcrypt_compare-bcrypt_hash draw.salt token) in
        let found' = ap (p.users.find db'.users) (sym same_id) ∙ i.stored in
        let i' =
          issue_tokens-Issued draw' later user' users db' u' found' built' renewed db''
            (sym first ∙ exchanged) in
        let hash' = host.bcrypt_hash draw'.salt (renewed.1).refresh_token in
        (
          entity_with host (with_secrets none (some hash') u') user'.oauth_access_token
              user'.oauth_refresh_token,
          sym same_id,
          λ draw''.
              refresh_token-accepted draw'' again token users db''
                (refresh_claims draw answer.0 users) (with_secrets none (some hash') u')
                (entity_with host (with_secrets none (some hash') u') user'.oauth_access_token
                  user'.oauth_refresh_token)
                hash' (verifies again still) (ap (p.users.find db''.users) same_id ∙ i'.stored)
                (prisma_user_to_entity-changed host u' user' (with_secrets none (some hash')) refl
                  refl built')
                (truthy_hash draw'.salt (renewed.1).refresh_token) is_user
                (host.bcrypt_compare_prefix token (renewed.1).refresh_token hash' agree
                  ∙ host.bcrypt_compare-bcrypt_hash draw'.salt (renewed.1).refresh_token),
        )
