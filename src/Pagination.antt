-- ===== src/Pagination.antt =====
-- src/shared/dto: the query of a page (PaginationQueryDto, whose decorators admit a page from 1 and a
-- limit from 1 to 100) and the page of an answer (PaginatedResponseDto).
pub mod Laws
use prismacv_backend.Shared.{ℕ, ◌+◌, ◌-◌, ◌*◌, ◌/◌, String, Bool, Option, List, ltb, leb, ◌&&◌}

pub record PaginationQuery : Type 0 where
  pub page : ℕ
  pub limit : ℕ
  pub sort_by : Option String
  -- `SortOrder.DESC`
  pub descending : Bool

-- The decorators of the class.
abbrev pub is_valid : PaginationQuery → Bool
is_valid q = leb 1 q.page && leb 1 q.limit && leb q.limit 100

abbrev pub skip : PaginationQuery → ℕ
skip q = (q.page - 1) * q.limit

pub record PaginationMeta : Type 0 where
  pub total : ℕ
  pub page : ℕ
  pub limit : ℕ
  pub total_pages : ℕ
  pub has_next : Bool
  pub has_prev : Bool

pub record PaginatedResponse (A : Type 0) : Type 0 where
  pub data_rows : List A
  pub meta : PaginationMeta

-- `Math.ceil(a / b)` for b above 0
abbrev pub ceil_div : ℕ → ℕ → ℕ
ceil_div a b = (a + (b - 1)) / b

unfoldable pub paginated : {A : Type 0} → List A → ℕ → ℕ → ℕ → PaginatedResponse A
paginated items total page limit =
    let pages = ceil_div total limit in
    record {
      data_rows = items;
      meta = record {
        total = total;
        page = page;
        limit = limit;
        total_pages = pages;
        has_next = ltb page pages;
        has_prev = ltb 1 page;
      };
    }
