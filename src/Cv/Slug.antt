-- ===== src/Cv/Slug.antt =====
-- src/modules/cv/slug.util.ts: the slug of a title, and one that no other CV of the user has.
pub mod Laws
pub mod Again
pub mod Unique
use Prim.Native.Char.{Char, code}
use prismacv_backend.Shared.{
  ℕ, zero, suc, ◌≡◌, refl, String, Bool, true, false, not, ◌&&◌, ◌||◌, Option, none, some,
  if◌then◌else◌, leb, ◌==◌, str_eq,
}
use prismacv_backend.Shared.Text.{◌&◌, is_space, trim, to_lower_case, to_string, to_base_36}
use prismacv_backend.Cv.Model.{CvRow, CvPrisma}

abbrev pub is_digit : Char → Bool
is_digit c = leb b'0' (code c) && leb (code c) b'9'

abbrev pub is_lower : Char → Bool
is_lower c = leb b'a' (code c) && leb (code c) b'z'

abbrev pub is_upper : Char → Bool
is_upper c = leb b'A' (code c) && leb (code c) b'Z'

-- `\w`
abbrev pub is_word : Char → Bool
is_word c = is_digit c || is_lower c || is_upper c || code c == b'_'

abbrev pub is_hyphen : Char → Bool
is_hyphen c = code c == b'-'

-- `replace(/[^\w\s-]/g, '')`
unfoldable pub keep_word : String → String
keep_word String.[] = ""
keep_word (String.◌∷◌ c s) =
    let rest = keep_word s in
    if is_word c || is_space c || is_hyphen c then String.◌∷◌ c rest else rest

-- `replace(/x+/g, '-')` for the characters x of a class; the flag says that a run goes on.
unfoldable pub join_runs : (Char → Bool) → Bool → String → String
join_runs p inside String.[] = ""
join_runs p inside (String.◌∷◌ c s) =
    let within = join_runs p true s in
    let behind = join_runs p false s in
    if p c then (if inside then within else String.◌∷◌ "-" within) else String.◌∷◌ c behind

abbrev pub is_gap : Char → Bool
is_gap c = is_space c || code c == b'_'

-- `replace(/^-|-$/g, '')`
unfoldable pub strip_first : String → String
strip_first String.[] = ""
strip_first (String.◌∷◌ c s) = if is_hyphen c then s else String.◌∷◌ c s

unfoldable pub strip_last : String → String
strip_last String.[] = ""
strip_last (String.◌∷◌ c s) =
    let rest = strip_last s in if str_eq s "" && is_hyphen c then "" else String.◌∷◌ c rest

unfoldable pub slug_of : String → String
unfolding keep_word join_runs strip_first strip_last
slug_of title =
    let words = keep_word (trim (to_lower_case title)) in
    strip_last (strip_first (join_runs is_hyphen false (join_runs is_gap false words)))

unfoldable pub generate_slug : String → String
unfolding slug_of
generate_slug title = if str_eq (slug_of title) "" then "untitled" else slug_of title

generate_slug_test : generate_slug "  Senior C++ _ Engineer (2024) - " ≡ "senior-c-engineer-2024"
unfolding generate_slug trim to_lower_case
generate_slug_test = refl

module _ (p : CvPrisma) (cvs : p.cvs.Rows) (user_id slug : String) (exclude : Option String) where
  -- `findUnique({ where: { userId_slug: { userId, slug: candidate } } })`
  abbrev pub find_slug : String → Option CvRow
  find_slug candidate =
      p.cvs.find_first cvs (λ c. str_eq c.user_id user_id && str_eq c.slug candidate)

  abbrev pub is_excluded : Option String → String → Bool
  is_excluded none id = false
  is_excluded (some excluded) id = str_eq id excluded

  abbrev pub is_free : Option CvRow → Bool
  is_free none = true
  is_free (some existing) = is_excluded exclude existing.id

  -- The attempts that are left, the suffix that comes next, and the candidate.
  unfoldable pub try_slugs : ℕ → ℕ → ℕ → String → String
  try_slugs now zero suffix candidate = slug & "-" & to_base_36 now
  try_slugs now (suc attempts) suffix candidate =
      let next = try_slugs now attempts (suc suffix) (slug & "-" & to_string suffix) in
      if is_free (find_slug candidate) then candidate else next

  unfoldable pub ensure_unique_slug : ℕ → String
  unfolding try_slugs
  ensure_unique_slug now = try_slugs now 20 1 slug
