-- ===== src/Shared/Table.antt =====
-- One table of the database, as the services reach it through a delegate of the Prisma client
-- (`prisma.otp`, `prisma.user`, …). The client and the database are not part of the repository,
-- so a table is an interface: its operations, and the documented behaviour that the services rely
-- on. The rows have no order: a table is seen through `find`, the lookup by primary key.
pub mod InMemory
use mathlib.Core.Path.{◌≡◌}
use mathlib.Core.Bool.{Bool, true, false, ◌&&◌, not}
use mathlib.Core.Option.{Option, none, some}
use mathlib.Core.List.{List, []}
use Prim.Native.String.{String}
use prismacv_backend.Shared.Tests.{if◌then◌else◌, str_eq}
use Prim.Native.Nat.{ℕ, suc, ◌+◌, ◌-◌, min}
use prismacv_backend.Shared.Lists.{IsIn, length}
use prismacv_backend.Shared.Sort.{IsAscending}
use prismacv_backend.Shared.Errors.{Result, ok, err, record_not_found, unique_violation}

-- What `deleteMany` keeps of a row.
abbrev pub keep_unless : {Row : Type 0} → (Row → Bool) → Option Row → Option Row
keep_unless p none = none
keep_unless p (some r) = if p r then none else some r

abbrev pub change : {Row : Type 0} → (Row → Row) → Option Row → Option Row
change f none = none
change f (some r) = some (f r)

-- What `updateMany` makes of a row.
abbrev pub change_if : {Row : Type 0} → (Row → Bool) → (Row → Row) → Row → Row
change_if p f r = if p r then f r else r

-- `key` is the primary key of a row, `constrained` the values of its other unique columns.
pub record Table (Row : Type 0) (key : Row → String) (constrained : Row → List (Option String))
    : Type 1 where
  pub Rows : Type 0
  pub find : Rows → String → Option Row
  pub find_first : Rows → (Row → Bool) → Option Row
  pub find_many : Rows → (Row → Bool) → List Row
  pub create : Rows → Row → Result Rows
  pub update : Rows → String → (Row → Row) → Result (Row × Rows)
  pub delete_many : Rows → (Row → Bool) → Rows
  pub update_many : Rows → (Row → Bool) → (Row → Row) → Result (ℕ × Rows)
  -- In ascending order of a number, and in the order of a named column, `true` for descending.
  pub find_ordered : Rows → (Row → Bool) → (Row → ℕ) → List Row
  pub find_sorted : Rows → (Row → Bool) → String → Bool → List Row
  -- The page after a number of rows, of a number of rows at most. Rows that agree in the column have no
  -- fixed order, so that two queries may cut their pages out of different lists.
  pub find_page : Rows → (Row → Bool) → String → Bool → ℕ → ℕ → List Row
  pub count : Rows → (Row → Bool) → ℕ
  pub find-eq-some : (t : Rows) (k : String) (r : Row) → find t k ≡ some r → key r ≡ k
  pub find_first_sound :
      (t : Rows) (p : Row → Bool) (r : Row)
      → find_first t p ≡ some r
      → (find t (key r) ≡ some r) × (p r ≡ true)
  pub find_first_complete :
      (t : Rows) (p : Row → Bool) (k : String) (r : Row)
      → find_first t p ≡ none
      → find t k ≡ some r
      → p r ≡ false
  pub find_many_sound :
      (t : Rows) (p : Row → Bool) (r : Row)
      → IsIn r (find_many t p)
      → (find t (key r) ≡ some r) × (p r ≡ true)
  pub find_many_complete :
      (t : Rows) (p : Row → Bool) (k : String) (r : Row)
      → find t k ≡ some r
      → p r ≡ true
      → IsIn r (find_many t p)
  pub find-create :
      (t t' : Rows) (r : Row) (k : String)
      → create t r ≡ ok t'
      → find t' k ≡ (if str_eq (key r) k then some r else find t k)
  pub create_total :
      (t : Rows) (r : Row)
      → find t (key r) ≡ none
      → constrained r ≡ []
      → (t' : Rows) × (create t r ≡ ok t')
  pub create-taken :
      (t : Rows) (r x : Row) → find t (key r) ≡ some x → create t r ≡ err unique_violation
  pub update-missing :
      (t : Rows) (k : String) (f : Row → Row)
      → find t k ≡ none
      → update t k f ≡ err record_not_found
  pub update-eq-ok :
      (t t' : Rows) (k : String) (f : Row → Row) (r r' : Row)
      → find t k ≡ some r
      → update t k f ≡ ok (r', t')
      → r' ≡ f r
  pub find-update :
      (t t' : Rows) (k : String) (f : Row → Row) (r' : Row) (j : String)
      → ((r : Row) → key (f r) ≡ key r)
      → update t k f ≡ ok (r', t')
      → find t' j ≡ (if str_eq k j then change f (find t j) else find t j)
  pub update_total :
      (t : Rows) (k : String) (f : Row → Row) (r : Row)
      → find t k ≡ some r
      → constrained (f r) ≡ constrained r
      → (t' : Rows) × (update t k f ≡ ok (f r, t'))
  pub find-delete_many :
      (t : Rows) (p : Row → Bool) (k : String) → find (delete_many t p) k ≡ keep_unless p (find t k)
  pub find-update_many :
      (t t' : Rows) (p : Row → Bool) (f : Row → Row) (n : ℕ) (k : String)
      → ((r : Row) → key (f r) ≡ key r)
      → update_many t p f ≡ ok (n, t')
      → find t' k ≡ change (change_if p f) (find t k)
  pub update_many-zero :
      (t t' : Rows) (p : Row → Bool) (f : Row → Row) (k : String) (r : Row)
      → update_many t p f ≡ ok (0, t')
      → find t k ≡ some r
      → p r ≡ false
  pub update_many-suc :
      (t t' : Rows) (p : Row → Bool) (f : Row → Row) (n : ℕ)
      → update_many t p f ≡ ok (suc n, t')
      → (r : Row) × (find t (key r) ≡ some r) × (p r ≡ true)
  pub update_many_total :
      (t : Rows) (p : Row → Bool) (f : Row → Row)
      → ((r : Row) → constrained (f r) ≡ constrained r)
      → (n : ℕ) × (t' : Rows) × (update_many t p f ≡ ok (n, t'))
  pub find_ordered_sound :
      (t : Rows) (p : Row → Bool) (w : Row → ℕ) (r : Row)
      → IsIn r (find_ordered t p w)
      → (find t (key r) ≡ some r) × (p r ≡ true)
  pub find_ordered_complete :
      (t : Rows) (p : Row → Bool) (w : Row → ℕ) (k : String) (r : Row)
      → find t k ≡ some r
      → p r ≡ true
      → IsIn r (find_ordered t p w)
  pub find_ordered-IsAscending :
      (t : Rows) (p : Row → Bool) (w : Row → ℕ) → IsAscending w (find_ordered t p w)
  pub find_page_sound :
      (t : Rows) (p : Row → Bool) (column : String) (descending : Bool) (skip take : ℕ) (r : Row)
      → IsIn r (find_page t p column descending skip take)
      → (find t (key r) ≡ some r) × (p r ≡ true)
  pub length-find_page :
      (t : Rows) (p : Row → Bool) (column : String) (descending : Bool) (skip take : ℕ)
      → length (find_page t p column descending skip take) ≡ min take (count t p - skip)
  pub count-split :
      (t : Rows) (p q : Row → Bool)
      → count t (λ r. p r && q r) + count t (λ r. p r && not (q r)) ≡ count t p
