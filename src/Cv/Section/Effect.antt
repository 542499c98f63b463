-- ===== src/Cv/Section/Effect.antt =====
-- What a bulk upsert that succeeds leaves of the rows of a CV and of the others.
use prismacv_backend.Shared.{
  is_one_of, ℕ, suc, ◌≡◌, ◌∙◌, refl, sym, ap, subst, String, true, false, Option, none, some, List,
  [], ◌∷◌, ◌⊎◌, is_some, or_default, ◌||◌, if◌then◌else◌, str_eq, truthy, ok, IsIn, arith, inl, inr,
  Bool-cases, Option-cases, eq_iff,
}
use prismacv_backend.Shared.Table.{change}
use prismacv_backend.Cv.Model.{SectionTable}
use prismacv_backend.Cv.Section.{Section, with_id, replace_section}
use prismacv_backend.Cv.Section.View.{
  View, named, on_cv, keep_named, put_item, put_items, then_view, replace_view,
}
use prismacv_backend.Cv.Section.Laws.{seen, replace_section-seen}

then_view-eq-some :
    {A B : Type 0} (o : Option A) (f : A → Option B) (b : B)
    → then_view o f ≡ some b
    → (a : A) × (o ≡ some a) × (f a ≡ some b)
then_view-eq-some o f b h = elim (Option-cases o) [
  | inl e ↦ ground (arith, e, h)
  | inr (a, e) ↦ (a, e, ground (arith, e, h))
]

some_injective : {A : Type 0} {a b : A} → some a ≡ some b → a ≡ b
some_injective {a = a} h = ap (λ o. or_default o a) h

module _ (s : Section) (cv : String) where
  put_item-new :
      (fresh : String) (i : s.Item) (v v' : View s cv)
      → put_item s cv fresh i none v ≡ some v'
      → (v fresh ≡ none)
        × ((k : String) → v' k ≡ (if str_eq fresh k then some (s.make fresh cv i) else v k))
  put_item-new fresh i v v' h = elim (Option-cases (v fresh)) [
    | inl e ↦ (
      e,
      λ k.
          ap (λ w. w k)
            (sym (
              some_injective (
                subst
                  (λ o.
                    (if is_some o
                      then none
                      else some (λ j. if str_eq fresh j then some (s.make fresh cv i) else v j))
                    ≡ some v')
                  e h))),
    )
    | inr (r, e) ↦ ground (arith, h, e)
  ]

  put_item-old :
      (fresh id : String) (i : s.Item) (v v' : View s cv)
      → put_item s cv fresh i (some id) v ≡ some v'
      → (on_cv s cv (v id) ≡ true)
        × ((k : String) → v' k ≡ (if str_eq id k then change (s.fill i) (v k) else v k))
  put_item-old fresh id i v v' h = elim (Bool-cases (on_cv s cv (v id))) [
    | inl e ↦ (
      e,
      λ k.
          ap (λ w. w k)
            (sym (
              some_injective (
                subst
                  (λ b.
                    (if b
                      then some (λ j. if str_eq id j then change (s.fill i) (v j) else v j)
                      else none)
                    ≡ some v')
                  e h))),
    )
    | inr e ↦ ground (arith, h, e)
  ]

  put_item-foreign :
      (fresh : String) (i : s.Item) (o : Option String) (v v' : View s cv) (k : String) (r : s.Row)
      → put_item s cv fresh i o v ≡ some v'
      → v k ≡ some r
      → str_eq (s.cv_id r) cv ≡ false
      → v' k ≡ some r
  put_item-foreign fresh i none v v' k r h e other =
      let (free, now) = put_item-new fresh i v v' h in
      ground (arith, free, now k, e, eq_iff fresh k)
  put_item-foreign fresh i (some id) v v' k r h e other =
      let (on, now) = put_item-old fresh id i v v' h in
      ground (arith, on, now k, e, other, eq_iff id k)

  put_items-foreign :
      (fresh : ℕ → String) (is : List s.Item) (n : ℕ) (v v' : View s cv) (k : String) (r : s.Row)
      → put_items s cv fresh n is v ≡ some v'
      → v k ≡ some r
      → str_eq (s.cv_id r) cv ≡ false
      → v' k ≡ some r
  unfolding put_items
  put_items-foreign fresh [] n v v' k r h e other = ap (λ w. w k) (sym (some_injective h)) ∙ e
  put_items-foreign fresh (i ∷ is) n v v' k r h e other =
      let (w, first, rest) =
        then_view-eq-some (put_item s cv (fresh n) i (truthy (s.item_id i)) v)
          (put_items s cv fresh (suc n) is) v' h in
      put_items-foreign fresh is (suc n) w v' k r rest
        (put_item-foreign (fresh n) i (truthy (s.item_id i)) v w k r first e other) other

  -- A row of the CV that is still there is there after an item.
  put_item-kept :
      (fresh : String) (i : s.Item) (o : Option String) (v v' : View s cv) (k : String)
      → put_item s cv fresh i o v ≡ some v'
      → on_cv s cv (v k) ≡ true
      → on_cv s cv (v' k) ≡ true
  put_item-kept fresh i none v v' k h on =
      let (free, now) = put_item-new fresh i v v' h in
      ground (arith, free, now k, on, eq_iff fresh k)
  put_item-kept fresh i (some id) v v' k h on =
      let (on_id, now) = put_item-old fresh id i v v' h in filled k (now k) on
    where
      filled :
          (k : String)
          → v' k ≡ (if str_eq id k then change (s.fill i) (v k) else v k)
          → on_cv s cv (v k) ≡ true
          → on_cv s cv (v' k) ≡ true
      filled k now on = elim (Option-cases (v k)) [
        | inl e ↦ ground (arith, e, on)
        | inr (r, e) ↦ ground (arith, e, on, now, s.cv_id-fill i r)
      ]

  put_item-named :
      (fresh : String) (i : s.Item) (id : String) (v v' : View s cv)
      → put_item s cv fresh i (some id) v ≡ some v'
      → on_cv s cv (v' id) ≡ true
  put_item-named fresh i id v v' h =
      put_item-kept fresh i (some id) v v' id h (put_item-old fresh id i v v' h).0

  put_items-kept :
      (fresh : ℕ → String) (is : List s.Item) (n : ℕ) (v v' : View s cv) (k : String)
      → put_items s cv fresh n is v ≡ some v'
      → on_cv s cv (v k) ≡ true
      → on_cv s cv (v' k) ≡ true
  unfolding put_items
  put_items-kept fresh [] n v v' k h on = subst (λ w. on_cv s cv (w k) ≡ true) (some_injective h) on
  put_items-kept fresh (i ∷ is) n v v' k h on =
      let (w, first, rest) =
        then_view-eq-some (put_item s cv (fresh n) i (truthy (s.item_id i)) v)
          (put_items s cv fresh (suc n) is) v' h in
      put_items-kept fresh is (suc n) w v' k rest
        (put_item-kept (fresh n) i (truthy (s.item_id i)) v w k first on)

  is_one_of_rest :
      (k id : String) (ids : List String)
      → is_one_of k (id ∷ ids) ≡ true
      → (str_eq id k || is_one_of k ids) ≡ true
  is_one_of_rest k id ids e = e

  put_item-either :
      (fresh : String) (i : s.Item) (o : Option String) (ids : List String) (v w : View s cv)
      (k : String)
      → put_item s cv fresh i o v ≡ some w
      → is_one_of k (with_id o ids) ≡ true
      → (on_cv s cv (w k) ≡ true) ⊎ (is_one_of k ids ≡ true)
  put_item-either fresh i none ids v w k h e = inr e
  put_item-either fresh i (some id) ids v w k h e = elim (Bool-cases (str_eq id k)) [
    | inl same ↦ inl (
        subst (λ j. on_cv s cv (w j) ≡ true) ((eq_iff id k).0 same)
          (put_item-named fresh i id v w h))
    | inr other ↦ inr (ground (arith, is_one_of_rest k id ids e, other))
  ]

  put_items-named :
      (fresh : ℕ → String) (is : List s.Item) (n : ℕ) (v v' : View s cv) (k : String)
      → put_items s cv fresh n is v ≡ some v'
      → is_one_of k (named s cv is) ≡ true
      → on_cv s cv (v' k) ≡ true
  unfolding put_items named
  put_items-named fresh [] n v v' k h e = absurd (ground arith)
  put_items-named fresh (i ∷ is) n v v' k h e =
      let o = truthy (s.item_id i) in
      let (w, first, rest) =
        then_view-eq-some (put_item s cv (fresh n) i o v) (put_items s cv fresh (suc n) is) v' h in
      elim (put_item-either (fresh n) i o (named s cv is) v w k first e) [
        | inl on ↦ put_items-kept fresh is (suc n) w v' k rest on
        | inr later ↦ put_items-named fresh is (suc n) w v' k rest later
      ]

  -- The columns of a row are those of an item of the list.
  abbrev pub IsFilled : List s.Item → s.Row → Type 0
  IsFilled is r = (i : s.Item) × IsIn i is × (s.fill i r ≡ r)

  abbrev IsDone : List s.Item → List String → View s cv → Type 0
  IsDone all ids v =
      (k : String) (r : s.Row)
      → v k ≡ some r
      → str_eq (s.cv_id r) cv ≡ true
      → IsFilled all r ⊎ (is_one_of k ids ≡ true)

  put_item-IsDone :
      (all : List s.Item) (ids : List String) (fresh : String) (i : s.Item) (o : Option String)
      (v v' : View s cv)
      → IsIn i all
      → put_item s cv fresh i o v ≡ some v'
      → IsDone all (with_id o ids) v
      → IsDone all ids v'
  put_item-IsDone all ids fresh i none v v' there h done k r e on =
      let (free, now) = put_item-new fresh i v v' h in
      elim (Bool-cases (str_eq fresh k)) [
        | inl same ↦ inl (i, there, made k r e same (now k))
        | inr other ↦ done k r (ground (arith, now k, other, e)) on
      ]
    where
      made :
          (k : String) (r : s.Row)
          → v' k ≡ some r
          → str_eq fresh k ≡ true
          → v' k ≡ (if str_eq fresh k then some (s.make fresh cv i) else v k)
          → s.fill i r ≡ r
      made k r e same now =
          let new : s.make fresh cv i ≡ r = ground (arith, now, same, e) in
          subst (λ x. s.fill i x ≡ x) new (s.fill-make fresh cv i)
  put_item-IsDone all ids fresh i (some id) v v' there h done k r e on =
      let (on_id, now) = put_item-old fresh id i v v' h in
      elim (Bool-cases (str_eq id k)) [
        | inl same ↦ inl (i, there, set k r e same (now k))
        | inr other ↦ elim (done k r (ground (arith, now k, other, e)) on) [
          | inl filled ↦ inl filled
          | inr one ↦ inr (ground (arith, one, other))
        ]
      ]
    where
      set :
          (k : String) (r : s.Row)
          → v' k ≡ some r
          → str_eq id k ≡ true
          → v' k ≡ (if str_eq id k then change (s.fill i) (v k) else v k)
          → s.fill i r ≡ r
      set k r e same now = elim (Option-cases (v k)) [
        | inl none_there ↦ ground (arith, now, same, e, none_there)
        | inr (x, there) ↦ ground (arith, now, same, e, there, s.fill-fill i x)
      ]

  put_items-IsDone :
      (all : List s.Item) (fresh : ℕ → String) (is : List s.Item) (n : ℕ) (v v' : View s cv)
      → ((i : s.Item) → IsIn i is → IsIn i all)
      → put_items s cv fresh n is v ≡ some v'
      → IsDone all (named s cv is) v
      → IsDone all [] v'
  unfolding put_items named
  put_items-IsDone all fresh [] n v v' sub h done = subst (IsDone all []) (some_injective h) done
  put_items-IsDone all fresh (i ∷ is) n v v' sub h done =
      let (w, first, rest) =
        then_view-eq-some (put_item s cv (fresh n) i (truthy (s.item_id i)) v)
          (put_items s cv fresh (suc n) is) v' h in
      put_items-IsDone all fresh is (suc n) w v' (λ j there. sub j (inr there)) rest
        (put_item-IsDone all (named s cv is) (fresh n) i (truthy (s.item_id i)) v w
          (sub i (inl refl)) first done)

  keep_named-foreign :
      (ids : List String) (v : View s cv) (k : String) (r : s.Row)
      → v k ≡ some r
      → str_eq (s.cv_id r) cv ≡ false
      → keep_named s cv ids v k ≡ some r
  keep_named-foreign ids v k r e other = ground (arith, e, other)

  keep_named-IsDone :
      (all : List s.Item) (ids : List String) (v : View s cv)
      → IsDone all ids (keep_named s cv ids v)
  keep_named-IsDone all ids v k r e on = elim (Option-cases (v k)) [
    | inl gone ↦ ground (arith, e, on, gone)
    | inr (x, there) ↦ inr (ground (arith, e, on, there))
  ]

module _ (s : Section) (t : SectionTable s.Row s.id) (cv : String) where
  replace_section-view :
      (fresh : ℕ → String) (is : List s.Item) (rows rows' : t.Rows)
      → replace_section s t cv fresh is rows ≡ ok rows'
      → put_items s cv fresh 0 is (keep_named s cv (named s cv is) (t.find rows))
        ≡ some (t.find rows')
  unfolding replace_view
  replace_section-view fresh is rows rows' h =
      sym (replace_section-seen s t cv fresh is rows) ∙ ap (seen s t cv) h

  pub replace_section-foreign :
      (fresh : ℕ → String) (is : List s.Item) (rows rows' : t.Rows) (k : String) (r : s.Row)
      → replace_section s t cv fresh is rows ≡ ok rows'
      → t.find rows k ≡ some r
      → str_eq (s.cv_id r) cv ≡ false
      → t.find rows' k ≡ some r
  replace_section-foreign fresh is rows rows' k r h e other =
      put_items-foreign s cv fresh is 0 (keep_named s cv (named s cv is) (t.find rows))
        (t.find rows') k r (replace_section-view fresh is rows rows' h)
        (keep_named-foreign s cv (named s cv is) (t.find rows) k r e other) other

  pub replace_section-named :
      (fresh : ℕ → String) (is : List s.Item) (rows rows' : t.Rows) (k : String)
      → replace_section s t cv fresh is rows ≡ ok rows'
      → is_one_of k (named s cv is) ≡ true
      → on_cv s cv (t.find rows' k) ≡ true
  replace_section-named fresh is rows rows' k h =
      put_items-named s cv fresh is 0 (keep_named s cv (named s cv is) (t.find rows)) (t.find rows')
        k (replace_section-view fresh is rows rows' h)

  pub replace_section-IsFilled :
      (fresh : ℕ → String) (is : List s.Item) (rows rows' : t.Rows) (k : String) (r : s.Row)
      → replace_section s t cv fresh is rows ≡ ok rows'
      → t.find rows' k ≡ some r
      → str_eq (s.cv_id r) cv ≡ true
      → IsFilled s cv is r
  replace_section-IsFilled fresh is rows rows' k r h e on =
      elim (put_items-IsDone s cv is fresh is 0 (keep_named s cv (named s cv is) (t.find rows))
        (t.find rows') (λ i there. there) (replace_section-view fresh is rows rows' h)
        (keep_named-IsDone s cv is (named s cv is) (t.find rows)) k r e on) [
          | inl filled ↦ filled
          | inr none_left ↦ ground (arith, none_left)
        ]
