-- ===== src/Cv/Editor/Listing.antt =====
-- The list of a user's CVs, page by page.
use prismacv_backend.Shared.{
  ℕ, zero, suc, ◌+◌, ◌-◌, ◌≤◌, ◌*◌, ◌≡◌, refl, ap, ◌∙◌, String, Bool, true, some, List, [], str_eq,
  truthy, length, ltb, min, IsIn, Result, ok, err,
}
use prismacv_backend.Pagination.{PaginationQuery, PaginatedResponse, ceil_div, paginated}
use prismacv_backend.Pagination.Laws.{pages_count, pages_count_all, page_after, page_before}
use prismacv_backend.Cv.Model.{CvRow, CvPrisma, CvDb}
use prismacv_backend.Cv.Editor.{find_all_by_user, sort_column}

abbrev pub listed : {A : Type 0} → Result (PaginatedResponse A) → List A
listed (ok r) = r.data_rows
listed (err e) = []

abbrev pub says_next : {A : Type 0} → Result (PaginatedResponse A) → Bool → Bool
says_next (ok r) d = r.meta.has_next
says_next (err e) d = d

abbrev pub says_pages : {A : Type 0} → Result (PaginatedResponse A) → ℕ
says_pages (ok r) = r.meta.total_pages
says_pages (err e) = 0

module _ (p : CvPrisma) (user_id : String) (q : PaginationQuery) (db : CvDb p) where
  abbrev pub is_theirs : CvRow → Bool
  is_theirs c = str_eq c.user_id user_id

  -- The answer for a page, and how many CVs n pages from the k-th list.
  abbrev pub answer : ℕ → Result (PaginatedResponse CvRow)
  answer k = (find_all_by_user p user_id (record q { page = k }) db).0

  abbrev pub listed_count : ℕ → ℕ → ℕ
  listed_count zero k = 0
  listed_count (suc n) k = length (listed (answer k)) + listed_count n (suc k)

  abbrev pub total : ℕ
  total = p.cvs.count db.cvs is_theirs

  length-listed : (k : ℕ) → length (listed (answer k)) ≡ min q.limit (total - (k - 1) * q.limit)
  unfolding find_all_by_user paginated
  length-listed k =
      p.cvs.length-find_page db.cvs is_theirs (sort_column p (truthy q.sort_by)) q.descending
        ((k - 1) * q.limit) q.limit

  listed_count_lem : (n j : ℕ) → listed_count n (suc j) ≡ pages_count total q.limit n j
  listed_count_lem zero j = refl
  listed_count_lem (suc n) j =
      ap (λ m. m + listed_count n (suc (suc j)))
        (length-listed (suc j) ∙ ap (λ m. min q.limit (total - m)) (page_before j q.limit))
      ∙ ap (λ m. min q.limit (total - j * q.limit) + m) (listed_count_lem n (suc j))

  pages_said : (k : ℕ) → says_pages (answer k) ≡ ceil_div total q.limit
  unfolding find_all_by_user paginated
  pages_said k = refl

  next_said : (k : ℕ) (d : Bool) → says_next (answer k) d ≡ ltb k (ceil_div total q.limit)
  unfolding find_all_by_user paginated
  next_said k d = refl

  listed_sound :
      (k : ℕ) (c : CvRow)
      → IsIn c (listed (answer k))
      → (p.cvs.find db.cvs c.id ≡ some c) × (is_theirs c ≡ true)
  unfolding find_all_by_user paginated
  listed_sound k c i =
      p.cvs.find_page_sound db.cvs is_theirs (sort_column p (truthy q.sort_by)) q.descending
        ((k - 1) * q.limit) q.limit c i

  -- With a limit of at least 1: the answer for a page lists CVs of the user alone, as many as the limit
  -- or as are left behind the pages before it; as many pages as it counts list, together, as many CVs
  -- as the user has; and it says that there is a next page exactly where the user has more CVs than the
  -- pages up to its own can list. The order of the CVs is left open.
  pub find_all_by_user_complete :
      (k : ℕ) (d : Bool)
      → 1 ≤ q.limit
      → ((c : CvRow)
          → IsIn c (listed (answer k))
          → (p.cvs.find db.cvs c.id ≡ some c) × (is_theirs c ≡ true))
        × (length (listed (answer k)) ≡ min q.limit (total - (k - 1) * q.limit))
        × (listed_count (says_pages (answer k)) 1 ≡ total)
        × (says_next (answer k) d ≡ ltb (k * q.limit) total)
  find_all_by_user_complete k d h = (
    listed_sound k,
    length-listed k,
    ap (λ n. listed_count n 1) (pages_said k)
        ∙ listed_count_lem (ceil_div total q.limit) 0
        ∙ pages_count_all total q.limit h,
    next_said k d ∙ page_after total q.limit k h,
  )
