-- ===== src/Examples/Provider.antt =====
-- A run of the theorem on logins by a provider.
use prismacv_backend.Shared.{◌≡◌, refl, true, none, some, truthy, Error, ok, err, ◌⊎◌, []}
use prismacv_backend.Shared.Text.{to_lower_case, trim}
use prismacv_backend.Auth.Model.{PrismaUser}
use prismacv_backend.Auth.Patch.{Draw, normalize_email}
use prismacv_backend.Auth.Users.{
  find_by_provider, find_by_email, prisma_user_to_entity, entity_with, read_token,
}
use prismacv_backend.OAuth.{OAuthDraw, OAuthUserData, authenticate}
use prismacv_backend.OAuth.Laws.{authenticate_taken}
use prismacv_backend.Examples.World.{example_host, example_prisma, ann, db_with, ann_entity}

-- An account of another provider.
abbrev linked : PrismaUser
linked = record ann { provider = some "GOOGLE"; provider_id = some "g1" }

abbrev no_bytes : Draw
no_bytes = record { salt = []; iv = [] }

abbrev draws : OAuthDraw
draws = record {
  id = "u2";
  first_access = no_bytes;
  first_refresh = no_bytes;
  access = no_bytes;
  refresh = no_bytes;
  tokens = record { access_jti = "a"; refresh_jti = "r"; salt = "s"; seal = no_bytes };
}

abbrev login : OAuthUserData
login = record {
  profile = record {
    provider = "LINKEDIN";
    provider_id = "l1";
    email = "ann@x.io";
    name = none;
    picture = none;
  };
  access_token = none;
  refresh_token = none;
  expires_at = none;
}

not_linked :
    find_by_provider example_host example_prisma "LINKEDIN" "l1" (db_with linked)
    ≡ (ok none, db_with linked)
unfolding find_by_provider
not_linked = refl

same_email :
    find_by_email example_host example_prisma "ann@x.io" (db_with linked)
    ≡ (ok (some (ann_entity linked)), db_with linked)
unfolding find_by_email prisma_user_to_entity entity_with read_token normalize_email to_lower_case
    trim
same_email = refl

authenticate_taken_example :
    ((true ≡ true) × (truthy (some "GOOGLE") ≡ none))
    ⊎ ((x : Error) × (authenticate example_host example_prisma draws 0 login (db_with linked)
          ≡ (err x, db_with linked)))
authenticate_taken_example =
    authenticate_taken example_host example_prisma draws 0 login (db_with linked)
      (ann_entity linked) not_linked same_email
