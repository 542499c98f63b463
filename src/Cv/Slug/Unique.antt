-- ===== src/Cv/Slug/Unique.antt =====
-- The search for a slug that the user has on no other CV.
use prismacv_backend.Shared.{ℕ, zero, suc, ◌≤◌, ◌<◌, ◌≡◌, String, Bool, true, false, Option}
use prismacv_backend.Shared.Text.{◌&◌, to_string}
use prismacv_backend.Cv.Model.{CvPrisma}
use prismacv_backend.Cv.Slug.{find_slug, is_free}

-- The slugs in the order in which they are tried: x, x-1, x-2, …
abbrev pub candidate : String → ℕ → String
candidate slug zero = slug
candidate slug (suc k) = slug & "-" & to_string (suc k)

module _ (p : CvPrisma) (cvs : p.cvs.Rows) (user_id slug : String) (exclude : Option String) where
  -- No other CV of the user has the k-th slug.
  abbrev pub is_open : ℕ → Bool
  is_open k =
      is_free p cvs user_id slug exclude (find_slug p cvs user_id slug exclude (candidate slug k))

  abbrev IsFirstOpen : ℕ → ℕ → String → Type 0
  IsFirstOpen i end s =
      (k : ℕ) × (i ≤ k)
      × (k < end)
      × (s ≡ candidate slug k)
      × (is_open k ≡ true)
      × ((j : ℕ) → i ≤ j → j < k → is_open j ≡ false)

  abbrev IsAllTaken : ℕ → ℕ → Type 0
  IsAllTaken i end = (j : ℕ) → i ≤ j → j < end → is_open j ≡ false
