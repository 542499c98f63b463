-- ===== src/Billing/Seen.antt =====
-- src/modules/billing/billing.service.ts: the ids of the webhook events that were processed, a Set
-- in the order of insertion, oldest first, cut to a limit.
pub mod Laws
use prismacv_backend.Shared.{
  ℕ, suc, max, String, Bool, true, false, ◌||◌, Option, none, some, List, [], ◌∷◌, ◌++◌,
  if◌then◌else◌, leb, str_eq, length, or_default,
}
use prismacv_backend.Host.{Host}

-- `Set.has`
unfoldable pub has : String → List String → Bool
has id [] = false
has id (x ∷ xs) = str_eq x id || has id xs

-- `Set.add`: an id that is there keeps its place.
unfoldable pub add : String → List String → List String
unfolding has
add id ids = if has id ids then ids else ids ++ id ∷ []

-- `Set.delete`
pub delete : String → List String → List String
delete id [] = []
delete id (x ∷ xs) = if str_eq x id then xs else x ∷ delete id xs

-- The oldest id is dropped, unless it is the empty text.
abbrev pub drop_oldest : List String → List String
drop_oldest [] = []
drop_oldest (oldest ∷ rest) =
    if str_eq oldest "" then oldest ∷ rest else delete oldest (oldest ∷ rest)

unfoldable pub is_processed : Option String → List String → Bool
unfolding has
is_processed none ids = false
is_processed (some id) ids = if str_eq id "" then false else has id ids

abbrev pub mark_id : ℕ → String → List String → List String
mark_id limit id ids =
    if str_eq id ""
    then ids
    else if leb (length (add id ids)) limit
    then add id ids
    else drop_oldest (add id ids)

unfoldable pub mark_processed : ℕ → Option String → List String → List String
mark_processed limit none ids = ids
mark_processed limit (some id) ids = mark_id limit id ids

-- `Math.max(100, configuredLimit)`
unfoldable pub cache_limit : Host → ℕ
cache_limit host = max 100 (or_default (host.config_number "BILLING_WEBHOOK_CACHE_LIMIT") 500)
