-- ===== src/Examples/Session.antt =====
-- Runs of the theorems on logins, refresh tokens and password resets.
use prismacv_backend.Shared.{
  ◌≡◌, refl, String, true, none, some, [], ◌∷◌, ok, err, arith, unauthorized,
}
use prismacv_backend.Shared.Text.{to_lower_case, trim}
use prismacv_backend.Auth.Model.{Db, PrismaUser, User, AuthToken, reset_link, regular}
use prismacv_backend.Auth.Patch.{normalize_email, Draw}
use prismacv_backend.Auth.Users.{
  entity_with, find_by_id, prisma_user_to_entity, read_token, find_by_email, update, seal_token,
}
use prismacv_backend.Auth.Session.{
  admins, users, TokenPair, Credentials, TokenDraw, validate_user, get_tokens, update_refresh_token,
  issue_tokens, user_login, refresh_token, decode_refresh_token, session_invalid,
}
use prismacv_backend.Auth.Session.Laws.{Valid}
use prismacv_backend.Auth.Session.Refresh.{
  Issued, user_login_sound, login_then_refresh, refresh_token-replaced,
}
use prismacv_backend.Auth.Password.{reset_password, find_matching}
use prismacv_backend.Auth.Password.Laws.{PasswordReset, reset_password_sound}
use prismacv_backend.Auth.Password.Sessions.{reset_password-sessions, reset_password_once}
use prismacv_backend.Examples.World.{
  example_host, example_prisma, ann, db_with, ann_entity, claims_of,
}

abbrev no_bytes : Draw
no_bytes = record { salt = []; iv = [] }

abbrev draw : TokenDraw
draw = record { access_jti = "a1"; refresh_jti = "r1"; salt = "s"; seal = no_bytes }

abbrev login : Credentials
login = record { email = "Ann@x.io"; password = "correct horse" }

abbrev answer : User × TokenPair
answer = (ann_entity ann, record { access_token = "a1"; refresh_token = "r1" })

abbrev logged_in : PrismaUser
logged_in = record ann { refresh_token = some "r1" }

login_done :
    user_login example_host example_prisma draw 0 login (db_with ann)
    ≡ (ok answer, db_with logged_in)
unfolding user_login validate_user find_by_email normalize_email to_lower_case trim
    prisma_user_to_entity entity_with read_token issue_tokens get_tokens update_refresh_token update
    seal_token
login_done = ground arith

user_login_sound_example :
    (u : PrismaUser) × Valid example_host example_prisma (db_with ann) login (ann_entity ann)
    × (regular ≡ regular)
    × (true ≡ true)
    × Issued example_host example_prisma draw 0
        (ann_entity ann)
        u
        users
        answer
        (db_with ann)
        (db_with logged_in)
    × (prisma_user_to_entity example_host u ≡ ok (ann_entity ann))
    × (example_prisma.users.find (db_with ann).users "u1" ≡ some u)
user_login_sound_example =
    user_login_sound example_host example_prisma draw 0 login (db_with ann) (db_with logged_in)
      answer login_done

login_then_refresh_example :
    (user : User) × (user.id ≡ "u1")
    × ((draw' : TokenDraw)
        → refresh_token example_host example_prisma draw' 500 "r1" users (db_with logged_in)
          ≡ issue_tokens example_host example_prisma draw' 500 user users (db_with logged_in))
    × ((draw' : TokenDraw)
        → refresh_token example_host example_prisma draw' 500 "r1" admins (db_with logged_in)
          ≡ (err session_invalid, db_with logged_in))
login_then_refresh_example =
    login_then_refresh example_host example_prisma draw 0 login (db_with ann) (db_with logged_in)
      answer login_done 500 (omega arith)

-- Two tokens that differ after their first 72 bytes.
abbrev first_token : String
first_token = "aaaaaaaaaaaaaaaaaaaaaaaaaaaaaaaaaaaaaaaaaaaaaaaaaaaaaaaaaaaaaaaaaaaaaaaa.1"

abbrev second_token : String
second_token = "aaaaaaaaaaaaaaaaaaaaaaaaaaaaaaaaaaaaaaaaaaaaaaaaaaaaaaaaaaaaaaaaaaaaaaaa.2"

abbrev kept_part : String
kept_part = "aaaaaaaaaaaaaaaaaaaaaaaaaaaaaaaaaaaaaaaaaaaaaaaaaaaaaaaaaaaaaaaaaaaaaaaa"

abbrev first_draw : TokenDraw
first_draw = record draw { refresh_jti = first_token }

abbrev second_draw : TokenDraw
second_draw = record { access_jti = "a2"; refresh_jti = second_token; salt = "s2"; seal = no_bytes }

abbrev with_kept : PrismaUser
with_kept = record ann { refresh_token = some kept_part }

abbrev first_answer : User × TokenPair
first_answer = (ann_entity ann, record { access_token = "a1"; refresh_token = first_token })

abbrev second_answer : User × TokenPair
second_answer = (ann_entity with_kept, record { access_token = "a2"; refresh_token = second_token })

first_login :
    user_login example_host example_prisma first_draw 0 login (db_with ann)
    ≡ (ok first_answer, db_with with_kept)
unfolding user_login validate_user find_by_email normalize_email to_lower_case trim
    prisma_user_to_entity entity_with read_token issue_tokens get_tokens update_refresh_token update
    seal_token
first_login = ground arith

first_exchange :
    refresh_token example_host example_prisma second_draw 500 first_token users (db_with with_kept)
    ≡ (ok second_answer, db_with with_kept)
unfolding refresh_token prisma_user_to_entity entity_with read_token issue_tokens get_tokens
    update_refresh_token update seal_token find_by_id decode_refresh_token
first_exchange = ground arith

refresh_token-replaced_example :
    (user : User) × (user.id ≡ "u1")
    × ((draw' : TokenDraw)
        → refresh_token example_host example_prisma draw' 600 first_token users (db_with with_kept)
          ≡ issue_tokens example_host example_prisma draw' 600 user users (db_with with_kept))
refresh_token-replaced_example =
    refresh_token-replaced example_host example_prisma first_draw 0 login (db_with ann)
      (db_with with_kept) first_answer first_login 500 600 (omega arith) (omega arith) second_draw
      second_answer (db_with with_kept) first_exchange refl

abbrev link : AuthToken
link = record {
  id = "t1";
  user_id = "u1";
  purpose = reset_link;
  token_hash = "reset me";
  expires_at = 900000;
  used_at = none;
}

abbrev before_reset : Db example_prisma
before_reset = record (db_with logged_in) { tokens = link ∷ [] }

abbrev after_reset : Db example_prisma
after_reset = db_with (record logged_in { password = some "battery staple" })

reset_done :
    reset_password example_host example_prisma no_bytes "s" 700 701 "reset me" "battery staple"
      "battery staple" before_reset
    ≡ (ok "Password reset successfully", after_reset)
unfolding reset_password find_matching prisma_user_to_entity entity_with read_token update
    seal_token
reset_done = ground arith

reset_password_sound_example :
    (t : AuthToken) × (u : PrismaUser) × PasswordReset example_host example_prisma "s" 700
      "reset me" "battery staple" "battery staple" before_reset after_reset t u
reset_password_sound_example =
    reset_password_sound example_host example_prisma no_bytes "s" 700 701 "reset me"
      "battery staple" "battery staple" before_reset after_reset "Password reset successfully"
      reset_done

logged_in_built : prisma_user_to_entity example_host logged_in ≡ ok (ann_entity logged_in)
unfolding prisma_user_to_entity entity_with read_token
logged_in_built = refl

reset_password-sessions_example :
    (user' : User) × (user'.id ≡ "u1")
    × (refresh_token example_host example_prisma draw 800 "r1" users after_reset
        ≡ issue_tokens example_host example_prisma draw 800 user' users after_reset)
reset_password-sessions_example =
    reset_password-sessions example_host example_prisma no_bytes "s" 700 701 "reset me"
      "battery staple" "battery staple" before_reset after_reset "Password reset successfully"
      reset_done draw 800 "r1" users (claims_of "r1") logged_in (ann_entity logged_in) "r1" refl
      refl logged_in_built refl refl refl

only_link :
    (r r' : AuthToken) (k k' : String)
    → example_prisma.tokens.find before_reset.tokens k ≡ some r
    → example_prisma.tokens.find before_reset.tokens k' ≡ some r'
    → example_host.bcrypt_compare "reset me" r.token_hash ≡ true
    → example_host.bcrypt_compare "reset me" r'.token_hash ≡ true
    → r.user_id ≡ r'.user_id
only_link r r' k k' h h' f f' = ground (arith, h, h')

reset_password_once_example :
    reset_password example_host example_prisma no_bytes "s2" 800 801 "reset me" "another one"
      "another one" after_reset
    ≡ (err (unauthorized "Invalid or expired reset token"), after_reset)
reset_password_once_example =
    reset_password_once example_host example_prisma no_bytes "s" 700 701 "reset me" "battery staple"
      "battery staple" before_reset after_reset "Password reset successfully" reset_done only_link
      no_bytes "s2" 800 801 "another one" refl
