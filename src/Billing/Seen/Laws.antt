-- ===== src/Billing/Seen/Laws.antt =====
-- The window of processed events: an event that was marked is found again, until as many others have
-- followed it as the limit allows.
use prismacv_backend.Shared.{
  ℕ, suc, ◌+◌, ◌≤◌, ◌<◌, ◌≡◌, ◌≢◌, refl, sym, ap, ◌∙◌, subst, String, true, false, ◌||◌, some, List,
  [], ◌∷◌, ◌++◌, if◌then◌else◌, leb, str_eq, length, length-append, arith, eq_refl, Bool-cases, inl,
  inr, str_eq-false,
}
use prismacv_backend.Host.{Host}
use prismacv_backend.Billing.Seen.{
  has, add, delete, drop_oldest, is_processed, mark_id, mark_processed, cache_limit,
}

has-append : (id : String) (xs ys : List String) → has id (xs ++ ys) ≡ (has id xs || has id ys)
unfolding has
has-append id [] ys = refl
has-append id (x ∷ xs) ys = ground (arith, has-append id xs ys)

-- The id is in the list with at most k ids behind it.
pub record Within (k : ℕ) (id : String) (ids : List String) : Type 0 where
  pub before : List String
  pub behind : List String
  pub split : ids ≡ before ++ id ∷ behind
  pub few : length behind ≤ k

has-middle : (id : String) (xs ys : List String) → has id (xs ++ id ∷ ys) ≡ true
unfolding has
has-middle id [] ys = ground (arith, eq_refl id)
has-middle id (x ∷ xs) ys = ground (arith, has-middle id xs ys)

Within-has : (k : ℕ) (id : String) (ids : List String) → Within k id ids → has id ids ≡ true
Within-has k id ids w = ap (has id) w.split ∙ has-middle id w.before w.behind

drop_first : (x : String) (xs : List String) → str_eq x "" ≡ false → drop_oldest (x ∷ xs) ≡ xs
unfolding delete
drop_first x xs e = rw (e, eq_refl x)

append_assoc : (xs ys zs : List String) → (xs ++ ys) ++ zs ≡ xs ++ (ys ++ zs)
append_assoc [] ys zs = refl
append_assoc (x ∷ xs) ys zs = ap (λ l. x ∷ l) (append_assoc xs ys zs)

abbrev cut : ℕ → List String → List String
cut limit l = if leb (length l) limit then l else drop_oldest l

-- The cut to the limit does not reach an id that is near enough to the end.
cut-Within :
    (limit k : ℕ) (id : String) (before behind : List String)
    → length behind ≤ k
    → k < limit
    → Within k id (cut limit (before ++ id ∷ behind))
cut-Within limit k id [] behind few l =
    let fits : leb (suc (length behind)) limit ≡ true = ground (arith, few, l) in
    rw fits (record { before = []; behind = behind; split = refl; few = few })
cut-Within limit k id (x ∷ before) behind few l =
    elim (Bool-cases (leb (length ((x ∷ before) ++ id ∷ behind)) limit)) [
      | inl fits ↦
          rw fits (record { before = x ∷ before; behind = behind; split = refl; few = few })
      | inr over ↦ elim (Bool-cases (str_eq x "")) [
        | inl empty ↦
            rw (over, empty)
              (record { before = x ∷ before; behind = behind; split = refl; few = few })
        | inr full ↦
            rw (over, drop_first x (before ++ id ∷ behind) full)
              (record { before = before; behind = behind; split = refl; few = few })
      ]
    ]

module _ (limit k : ℕ) (id x : String) where
  add-Within : (ids : List String) → Within k id ids → Within (suc k) id (add x ids)
  unfolding add
  add-Within ids w = elim (Bool-cases (has x ids)) [
    | inl there ↦ rw there (record {
      before = w.before;
      behind = w.behind;
      split = w.split;
      few = omega (arith, w.few);
    })
    | inr new ↦ rw new (record {
      before = w.before;
      behind = w.behind ++ x ∷ [];
      split = ap (λ l. l ++ x ∷ []) w.split ∙ append_assoc w.before (id ∷ w.behind) (x ∷ []);
      few = ground (arith, length-append w.behind (x ∷ []), w.few);
    })
  ]

  -- Each mark moves an id by at most one towards the front.
  mark_id-Within :
      (ids : List String)
      → suc k < limit
      → Within k id ids
      → Within (suc k) id (mark_id limit x ids)
  mark_id-Within ids l w = elim (Bool-cases (str_eq x "")) [
    | inl empty ↦ rw empty (record {
      before = w.before;
      behind = w.behind;
      split = w.split;
      few = omega (arith, w.few);
    })
    | inr full ↦
        let a = add-Within ids w in
        rw full (
          subst (λ m. Within (suc k) id (cut limit m)) (sym a.split)
            (cut-Within limit (suc k) id a.before a.behind a.few l))
  ]

-- The marks of a sequence of events.
pub mark_all : ℕ → List String → List String → List String
mark_all limit [] ids = ids
mark_all limit (x ∷ xs) ids = mark_all limit xs (mark_processed limit (some x) ids)

mark_all-has :
    (limit k : ℕ) (id : String) (later ids : List String)
    → k + length later < limit
    → Within k id ids
    → has id (mark_all limit later ids) ≡ true
unfolding mark_all mark_processed
mark_all-has limit k id [] ids l w = Within-has k id ids w
mark_all-has limit k id (x ∷ later) ids l w =
    mark_all-has limit (suc k) id later (mark_id limit x ids) (omega arith)
      (mark_id-Within limit k id x ids (omega arith) w)

module _ (limit : ℕ) (id : String) (ids : List String) (named : id ≢ "") where
  mark_id-new : has id ids ≡ false → 0 < limit → Within 0 id (mark_id limit id ids)
  unfolding add
  mark_id-new new l =
      rw (str_eq-false id "" named, new) (cut-Within limit 0 id ids [] (omega arith) l)

  processed-has : (l : List String) → is_processed (some id) l ≡ has id l
  unfolding is_processed
  processed-has l = rw (str_eq-false id "" named)

  -- An event that is marked for the first time is recognised until as many others have been marked
  -- after it as the limit allows, whatever was marked before.
  pub mark_all_window :
      (later : List String)
      → is_processed (some id) ids ≡ false
      → length later < limit
      → is_processed (some id) (mark_all limit later (mark_processed limit (some id) ids)) ≡ true
  unfolding mark_processed
  mark_all_window later new l =
      processed-has (mark_all limit later (mark_id limit id ids))
      ∙ mark_all-has limit 0 id later (mark_id limit id ids) (omega arith)
          (mark_id-new (sym (processed-has ids) ∙ new) (omega arith))

pub is_processed-mark_processed :
    (host : Host) (id : String) (ids : List String)
    → id ≢ ""
    → is_processed (some id) ids ≡ false
    → is_processed (some id) (mark_processed (cache_limit host) (some id) ids) ≡ true
unfolding mark_all cache_limit
is_processed-mark_processed host id ids named new =
    mark_all_window (cache_limit host) id ids named [] new (omega arith)
