-- ===== src/Examples/Codec.antt =====
-- A cipher for the examples, without secrecy: a text is the list of its character codes, and bytes
-- are written in unary.
use Prim.Native.Nat.{Ordering, compare}
use Prim.Native.Char.{char, code, IsLt, IsScalar}
use text.Mathlib.TextEquality.{IsScalar-prop}
use prismacv_backend.Shared.{
  ℕ, zero, suc, ◌+◌, ◌≡◌, ◌≢◌, refl, ap, String, Option, none, some, List, [], ◌∷◌, ◌∙◌, arith,
  zero_plus, sym,
}
use prismacv_backend.Host.{Crypto}

abbrev Both : Ordering → Ordering → Type 0
Both Ordering.lt o = IsLt o
Both Ordering.eq _ = ⊥
Both Ordering.gt _ = ⊥

abbrev Scalar : Ordering → Ordering → Ordering → Type 0
Scalar Ordering.lt _ _ = Unit
Scalar Ordering.eq o p = Both o p
Scalar Ordering.gt o p = Both o p

is_lt? : (o : Ordering) → Dec (IsLt o)
is_lt? Ordering.lt = yes tt
is_lt? Ordering.eq = no (λ x. x)
is_lt? Ordering.gt = no (λ x. x)

both? : (o p : Ordering) → Dec (Both o p)
both? Ordering.lt p = is_lt? p
both? Ordering.eq p = no (λ x. x)
both? Ordering.gt p = no (λ x. x)

scalar? : (o p q : Ordering) → Dec (Scalar o p q)
scalar? Ordering.lt p q = yes tt
scalar? Ordering.eq p q = both? p q
scalar? Ordering.gt p q = both? p q

abbrev is_scalar? : (n : ℕ) → Dec (IsScalar n)
is_scalar? n = scalar? (compare n 55296) (compare 57343 n) (compare n 1114112)

abbrev push : (n : ℕ) → Dec (IsScalar n) → Option String → Option String
push n _ none = none
push n (no _) (some s) = none
push n (yes h) (some s) = some (String.◌∷◌ (char n h) s)

abbrev codes : String → List ℕ
codes String.[] = []
codes (String.◌∷◌ c s) = code c ∷ codes s

abbrev text_of : List ℕ → Option String
text_of [] = some ""
text_of (n ∷ ns) = push n (is_scalar? n) (text_of ns)

push-char :
    (n : ℕ) (h : IsScalar n) (d : Dec (IsScalar n)) (s : String)
    → push n d (some s) ≡ some (String.◌∷◌ (char n h) s)
push-char n h (yes h') s = ap (λ x. some (String.◌∷◌ (char n x) s)) (IsScalar-prop n h' h)
push-char n h (no f) s = absurd (f h)

text_of-codes : (s : String) → text_of (codes s) ≡ some s
text_of-codes String.[] = refl
text_of-codes (String.◌∷◌ (char n h) s) =
    ap (push n (is_scalar? n)) (text_of-codes s) ∙ push-char n h (is_scalar? n) s

abbrev ones : ℕ → String → String
ones zero s = s
ones (suc n) s = String.◌∷◌ "1" (ones n s)

abbrev unary : List ℕ → String
unary [] = ""
unary (n ∷ ns) = ones n (String.◌∷◌ "." (unary ns))

-- `n` counts the ones that were read since the last dot.
abbrev read_unary : ℕ → String → List ℕ
read_unary n String.[] = []
read_unary n (String.◌∷◌ c s) = elim (compare (code c) 46) [
  | Ordering.eq ↦ n ∷ read_unary 0 s
  | Ordering.lt ↦ read_unary (suc n) s
  | Ordering.gt ↦ read_unary (suc n) s
]

plus_suc : (k n : ℕ) → k + suc n ≡ suc k + n
plus_suc k n = omega arith

plus_zero : (k : ℕ) → k + 0 ≡ k
plus_zero k = omega arith

read_unary-ones :
    (k n : ℕ) (s : String) → read_unary k (ones n (String.◌∷◌ "." s)) ≡ (k + n) ∷ read_unary 0 s
read_unary-ones k zero s = rw plus_zero
read_unary-ones k (suc n) s = rw (plus_suc k n) (read_unary-ones (suc k) n s)

read_unary-unary : (ns : List ℕ) → read_unary 0 (unary ns) ≡ ns
read_unary-unary [] = refl
read_unary-unary (n ∷ ns) =
    read_unary-ones 0 n (unary ns)
    ∙ ap (λ xs. (0 + n) ∷ xs) (read_unary-unary ns)
    ∙ ap (λ m. m ∷ ns) (zero_plus n)

abbrev tag : List ℕ
tag = 0 ∷ 0 ∷ 0 ∷ 0 ∷ 0 ∷ 0 ∷ 0 ∷ 0 ∷ 0 ∷ 0 ∷ 0 ∷ 0 ∷ 0 ∷ 0 ∷ 0 ∷ 0 ∷ []

cons_nil : {n : ℕ} {ns : List ℕ} → n ∷ ns ≢ []
cons_nil h = cc

unary_nonempty : (ns : List ℕ) → ns ≢ [] → unary ns ≢ ""
unary_nonempty [] h e = h refl
unary_nonempty (n ∷ ns) h e =
    absurd (cons_nil (sym (read_unary-unary (n ∷ ns)) ∙ ap (read_unary 0) e))

pub plain_crypto : Crypto
plain_crypto = record {
  pbkdf2 = λ secret salt. salt;
  gcm_encrypt = λ key iv plain. codes plain;
  gcm_tag = λ key iv plain. tag;
  gcm_decrypt = λ key iv t bytes. text_of bytes;
  to_base64 = unary;
  from_base64 = read_unary 0;
  length-gcm_tag = λ key iv plain. refl;
  gcm_decrypt-gcm_encrypt = λ key iv plain. text_of-codes plain;
  from_base64-to_base64 = read_unary-unary;
  to_base64-nonempty = unary_nonempty;
}
