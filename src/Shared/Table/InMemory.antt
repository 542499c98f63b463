-- ===== src/Shared/Table/InMemory.antt =====
-- A table in memory, which shows that the interface can be met: a list of rows, newest first.
use mathlib.Core.Path.{◌≡◌, refl, ap, fun_ext}
use mathlib.Core.Logic.{inl, inr}
use mathlib.Core.Bool.{Bool, true, false, ◌&&◌, ◌||◌, not}
use mathlib.Core.Option.{Option, none, some}
use mathlib.Core.List.{List, [], ◌∷◌}
use native.Mathlib.Omega.{arith}
use Prim.Native.String.{String}
use text.Mathlib.TextEquality.{eq_iff}
use text.Mathlib.TextPositions.{eq_refl}
use prismacv_backend.Shared.Tests.{Bool-cases, if◌then◌else◌, str_eq, Option-cases, is_some}
use Prim.Native.Nat.{ℕ, suc, ◌+◌}
use mathlib.Core.Logic.{◌≢◌}
use prismacv_backend.Shared.Lists.{IsIn, length, take, drop, IsIn-take, IsIn-drop, length-take-drop}
use prismacv_backend.Shared.Sort.{sort_by, IsIn-sort_by, sort_by-IsIn, sort_by-IsAscending}
use prismacv_backend.Shared.Errors.{Result, ok, err, unique_violation, record_not_found}
use prismacv_backend.Shared.Table.{change_if, Table, keep_unless, change}

-- Two rows clash in a unique column that both fill with the same text.
abbrev pub clash : List (Option String) → List (Option String) → Bool
clash (some a ∷ as') (some b ∷ bs) = str_eq a b || clash as' bs
clash (_ ∷ as') (_ ∷ bs) = clash as' bs
clash _ _ = false

IsIn-nonempty : {A : Type 0} (a : A) (xs : List A) → IsIn a xs → length xs ≢ 0
IsIn-nonempty a [] i e = absurd i
IsIn-nonempty a (x ∷ xs) i e = omega arith

nonempty-IsIn : {A : Type 0} (n : ℕ) (xs : List A) → length xs ≡ suc n → (a : A) × IsIn a xs
nonempty-IsIn n [] e = absurd (omega arith)
nonempty-IsIn n (x ∷ xs) e = (x, inl refl)

swapped : (a b c : Bool) → (a && b) && c ≡ (a && c) && b
swapped a b c = ground arith

module _ {Row : Type 0} (key : Row → String) where
  abbrev pub find_row : List Row → String → Option Row
  find_row [] k = none
  find_row (r ∷ rs) k = if str_eq (key r) k then some r else find_row rs k

  abbrev pub first_row : (Row → Bool) → List Row → Option Row
  first_row p [] = none
  first_row p (r ∷ rs) =
      let rest = first_row (λ x. p x && not (str_eq (key r) (key x))) rs in
      if p r then some r else rest

  abbrev pub many_rows : (Row → Bool) → List Row → List Row
  many_rows p [] = []
  many_rows p (r ∷ rs) =
      let rest = many_rows (λ x. p x && not (str_eq (key r) (key x))) rs in
      if p r then r ∷ rest else rest

  abbrev pub delete_rows : (Row → Bool) → List Row → List Row
  delete_rows p [] = []
  delete_rows p (r ∷ rs) =
      let dropped = delete_rows (λ x. p x || str_eq (key r) (key x)) rs in
      let kept = r ∷ delete_rows p rs in if p r then dropped else kept

  abbrev pub map_row : String → (Row → Row) → List Row → List Row
  map_row k f [] = []
  map_row k f (r ∷ rs) = (if str_eq (key r) k then f r else r) ∷ map_row k f rs

  abbrev pub update_found : List Row → String → (Row → Row) → Option Row → Result (Row × List Row)
  update_found rs k f none = err record_not_found
  update_found rs k f (some r) = ok (f r, map_row k f rs)

  abbrev pub update_row : List Row → String → (Row → Row) → Result (Row × List Row)
  update_row rs k f = update_found rs k f (find_row rs k)

  pub find_row-eq-some : (rs : List Row) (k : String) (r : Row) → find_row rs k ≡ some r → key r ≡ k
  find_row-eq-some [] k r h = cc
  find_row-eq-some (x ∷ rs) k r h = ground (arith, eq_iff (key x) k, find_row-eq-some rs k r)

  pub first_row_sound :
      (p : Row → Bool) (rs : List Row) (r : Row)
      → first_row p rs ≡ some r
      → (find_row rs (key r) ≡ some r) × (p r ≡ true)
  first_row_sound p [] r h = cc
  first_row_sound p (x ∷ rs) r h = ground (
    arith,
    eq_refl (key r),
    eq_iff (key x) (key r),
    first_row_sound (λ y. p y && not (str_eq (key x) (key y))) rs r,
  )

  pub first_row_complete :
      (p : Row → Bool) (rs : List Row) (k : String) (r : Row)
      → first_row p rs ≡ none
      → find_row rs k ≡ some r
      → p r ≡ false
  first_row_complete p [] k r h e = cc
  first_row_complete p (x ∷ rs) k r h e = ground (
    arith,
    eq_iff (key x) k,
    eq_iff (key x) (key r),
    find_row-eq-some rs k r,
    first_row_complete (λ y. p y && not (str_eq (key x) (key y))) rs k r,
  )

  pub many_rows_sound :
      (p : Row → Bool) (rs : List Row) (r : Row)
      → IsIn r (many_rows p rs)
      → (find_row rs (key r) ≡ some r) × (p r ≡ true)
  many_rows_sound p [] r h = absurd h
  many_rows_sound p (x ∷ rs) r h = ground (
    arith,
    eq_refl (key r),
    eq_iff (key x) (key r),
    many_rows_sound (λ y. p y && not (str_eq (key x) (key y))) rs r,
  )

  pub many_rows_complete :
      (p : Row → Bool) (rs : List Row) (k : String) (r : Row)
      → find_row rs k ≡ some r
      → p r ≡ true
      → IsIn r (many_rows p rs)
  many_rows_complete p [] k r e h = cc
  many_rows_complete p (x ∷ rs) k r e h = ground (
    arith,
    eq_iff (key x) k,
    eq_iff (key x) (key r),
    find_row-eq-some rs k r,
    many_rows_complete (λ y. p y && not (str_eq (key x) (key y))) rs k r,
  )

  pub find_row-delete_rows :
      (p : Row → Bool) (rs : List Row) (k : String)
      → find_row (delete_rows p rs) k ≡ keep_unless p (find_row rs k)
  find_row-delete_rows p [] k = refl
  find_row-delete_rows p (x ∷ rs) k =
      let other = find_row-delete_rows (λ y. p y || str_eq (key x) (key y)) rs k in
      let same = find_row-delete_rows p rs k in
      elim (Option-cases (find_row rs k)) [
        | inl e ↦ ground (arith, other, same, e, eq_iff (key x) k)
        | inr (r, e) ↦ ground (
          arith,
          other,
          same,
          e,
          find_row-eq-some rs k r e,
          eq_iff (key x) k,
          eq_iff (key x) (key r),
          eq_refl k,
        )
      ]

  find_row-map_row :
      (k : String) (f : Row → Row) (rs : List Row) (j : String)
      → ((r : Row) → key (f r) ≡ key r)
      → find_row (map_row k f rs) j
        ≡ (if str_eq k j then change f (find_row rs j) else find_row rs j)
  find_row-map_row k f [] j h = ground arith
  find_row-map_row k f (x ∷ rs) j h = ground (
    arith,
    h x,
    eq_iff (key x) k,
    eq_iff (key x) j,
    eq_iff (key (f x)) j,
    eq_iff k j,
    find_row-map_row k f rs j h,
  )

  abbrev pub map_rows : (Row → Bool) → (Row → Row) → List Row → List Row
  map_rows p f [] = []
  map_rows p f (r ∷ rs) = change_if p f r ∷ map_rows p f rs

  pub find_row-map_rows :
      (rs : List Row) (p : Row → Bool) (f : Row → Row) (k : String)
      → ((r : Row) → key (f r) ≡ key r)
      → find_row (map_rows p f rs) k ≡ change (change_if p f) (find_row rs k)
  find_row-map_rows [] p f k keeps = refl
  find_row-map_rows (x ∷ rs) p f k keeps = ground (arith, find_row-map_rows rs p f k keeps, keeps x)

  abbrev pub update_rows : List Row → (Row → Bool) → (Row → Row) → Result (ℕ × List Row)
  update_rows t p f = ok (length (many_rows p t), map_rows p f t)

  pub find_row-update_rows :
      (t t' : List Row) (p : Row → Bool) (f : Row → Row) (n : ℕ) (k : String)
      → ((r : Row) → key (f r) ≡ key r)
      → update_rows t p f ≡ ok (n, t')
      → find_row t' k ≡ change (change_if p f) (find_row t k)
  find_row-update_rows t t' p f n k keeps e = ground (arith, e, find_row-map_rows t p f k keeps)

  pub no_rows :
      (rs : List Row) (p : Row → Bool) (k : String) (r : Row)
      → length (many_rows p rs) ≡ 0
      → find_row rs k ≡ some r
      → p r ≡ false
  no_rows rs p k r none_there e = elim (Bool-cases (p r)) [
    | inr h ↦ h
    | inl h ↦ absurd (IsIn-nonempty r (many_rows p rs) (many_rows_complete p rs k r e h) none_there)
  ]

  pub some_rows :
      (rs : List Row) (p : Row → Bool) (n : ℕ)
      → length (many_rows p rs) ≡ suc n
      → (r : Row) × (find_row rs (key r) ≡ some r) × (p r ≡ true)
  some_rows rs p n e =
      let (r, i) = nonempty-IsIn n (many_rows p rs) e in
      let (found, fits) = many_rows_sound p rs r i in (r, found, fits)

  pub update_rows-zero :
      (t t' : List Row) (p : Row → Bool) (f : Row → Row) (k : String) (r : Row)
      → update_rows t p f ≡ ok (0, t')
      → find_row t k ≡ some r
      → p r ≡ false
  update_rows-zero t t' p f k r e h = no_rows t p k r (ground (arith, e)) h

  pub update_rows-suc :
      (t t' : List Row) (p : Row → Bool) (f : Row → Row) (n : ℕ)
      → update_rows t p f ≡ ok (suc n, t')
      → (r : Row) × (find_row t (key r) ≡ some r) × (p r ≡ true)
  update_rows-suc t t' p f n e = some_rows t p n (ground (arith, e))

  pub count_rows-split :
      (rs : List Row) (p q : Row → Bool)
      → length (many_rows (λ r. p r && q r) rs) + length (many_rows (λ r. p r && not (q r)) rs)
        ≡ length (many_rows p rs)
  count_rows-split [] p q = omega arith
  count_rows-split (x ∷ rs) p q =
      let other = λ (r : Row). not (str_eq (key x) (key r)) in
      let rest = count_rows-split rs (λ r. p r && other r) q in
      let with_q = ap (λ f. length (many_rows f rs)) (fun_ext λ r. swapped (p r) (q r) (other r)) in
      let without_q =
        ap (λ f. length (many_rows f rs)) (fun_ext λ r. swapped (p r) (not (q r)) (other r)) in
      ground (arith, rest, with_q, without_q)

  pub update_row-missing :
      (t : List Row) (k : String) (f : Row → Row)
      → find_row t k ≡ none
      → update_row t k f ≡ err record_not_found
  update_row-missing t k f e = rw e

  pub update_row-eq-ok :
      (t t' : List Row) (k : String) (f : Row → Row) (r r' : Row)
      → find_row t k ≡ some r
      → update_row t k f ≡ ok (r', t')
      → r' ≡ f r
  update_row-eq-ok t t' k f r r' e h = ground arith

  pub find_row-update_row :
      (t t' : List Row) (k : String) (f : Row → Row) (r' : Row) (j : String)
      → ((r : Row) → key (f r) ≡ key r)
      → update_row t k f ≡ ok (r', t')
      → find_row t' j ≡ (if str_eq k j then change f (find_row t j) else find_row t j)
  find_row-update_row t t' k f r' j h e = ground (arith, find_row-map_row k f t j h)

  pub update_row_total :
      (t : List Row) (k : String) (f : Row → Row) (r : Row)
      → find_row t k ≡ some r
      → (t' : List Row) × (update_row t k f ≡ ok (f r, t'))
  update_row_total t k f r e = (map_row k f t, rw e)

  module _ (constrained : Row → List (Option String)) where
    abbrev pub taken : Row → List Row → Bool
    taken r [] = false
    taken r (x ∷ rs) = clash (constrained r) (constrained x) || taken r rs

    abbrev pub create_row : List Row → Row → Result (List Row)
    create_row rs r =
        if is_some (find_row rs (key r)) || taken r rs then err unique_violation else ok (r ∷ rs)

    pub find_row-create_row :
        (t t' : List Row) (r : Row) (k : String)
        → create_row t r ≡ ok t'
        → find_row t' k ≡ (if str_eq (key r) k then some r else find_row t k)
    find_row-create_row t t' r k e = ground arith

    taken_free : (r : Row) (rs : List Row) → constrained r ≡ [] → taken r rs ≡ false
    taken_free r [] h = refl
    taken_free r (x ∷ rs) h = rw h (taken_free r rs h)

    pub create_row_total :
        (t : List Row) (r : Row)
        → find_row t (key r) ≡ none
        → constrained r ≡ []
        → (t' : List Row) × (create_row t r ≡ ok t')
    create_row_total t r h e = (r ∷ t, rw (h, taken_free r t e))

    pub create_row-taken :
        (t : List Row) (r x : Row)
        → find_row t (key r) ≡ some x
        → create_row t r ≡ err unique_violation
    create_row-taken t r x e = rw e refl

    abbrev pub in_memory : Table Row key constrained
    in_memory = record {
      Rows = List Row;
      find = find_row;
      find_first = λ t p. first_row p t;
      find_many = λ t p. many_rows p t;
      create = create_row;
      update = update_row;
      delete_many = λ t p. delete_rows p t;
      update_many = update_rows;
      find_ordered = λ t p w. sort_by w (many_rows p t);
      find_sorted = λ t p column descending. many_rows p t;
      find_page = λ t p column descending skip n. take n (drop skip (many_rows p t));
      count = λ t p. length (many_rows p t);
      find-eq-some = find_row-eq-some;
      find_first_sound = λ t p r. first_row_sound p t r;
      find_first_complete = λ t p k r. first_row_complete p t k r;
      find_many_sound = λ t p r. many_rows_sound p t r;
      find_many_complete = λ t p k r. many_rows_complete p t k r;
      find-create = find_row-create_row;
      create_total = create_row_total;
      create-taken = create_row-taken;
      update-missing = update_row-missing;
      update-eq-ok = update_row-eq-ok;
      find-update = find_row-update_row;
      update_total = λ t k f r e _. update_row_total t k f r e;
      find-delete_many = λ t p k. find_row-delete_rows p t k;
      find-update_many = find_row-update_rows;
      update_many-zero = update_rows-zero;
      update_many-suc = update_rows-suc;
      update_many_total = λ t p f keeps. (length (many_rows p t), map_rows p f t, refl);
      find_ordered_sound = λ t p w r i. many_rows_sound p t r (IsIn-sort_by w r (many_rows p t) i);
      find_ordered_complete =
          λ t p w k r e h. sort_by-IsIn w r (many_rows p t) (many_rows_complete p t k r e h);
      find_ordered-IsAscending = λ t p w. sort_by-IsAscending w (many_rows p t);
      find_page_sound = λ t p column descending skip n r i.
          many_rows_sound p t r
            (IsIn-drop skip r (many_rows p t) (IsIn-take n r (drop skip (many_rows p t)) i));
      length-find_page = λ t p column descending skip n. length-take-drop n skip (many_rows p t);
      count-split = count_rows-split;
    }
