-- ===== src/Shared/Errors.antt =====
-- Exceptions as values, and a state that a thrown exception leaves as it stands.
use Prim.Native.String.{String}
use mathlib.Core.Path.{◌≡◌, refl}
use mathlib.Core.Logic.{◌⊎◌, inl, inr}
use mathlib.Core.Bool.{Bool, true, false}
use native.Mathlib.Omega.{arith}
use mathlib.Core.Option.{Option, none, some}
use mathlib.Core.List.{List}

-- The HTTP exceptions of the framework with their messages; the two errors of the database client
-- (P2002 and P2025); and a loop that has used up its draws and still runs.
pub data Error : Type 0 where
  bad_request unauthorized forbidden not_found conflict too_many_requests : String → Error
  unavailable internal : String → Error
  -- 402: the message, the feature, the plan of the user, and the plans that have the feature.
  plan_required : String → String → String → List String → Error
  unique_violation record_not_found still_running : Error

pub data Result {ℓ} (A : Type ℓ) : Type ℓ where
  ok : A → Result A
  err : Error → Result A

abbrev pub is_ok {ℓ} : {A : Type ℓ} → Result A → Bool
is_ok (ok a) = true
is_ok (err e) = false

pub Result-cases {ℓ} :
    {A : Type ℓ} (r : Result A) → ((a : A) × (r ≡ ok a)) ⊎ ((e : Error) × (r ≡ err e))
Result-cases (ok a) = inl (a, refl)
Result-cases (err e) = inr (e, refl)

-- An operation on the state S: what it returns or throws, and the state that it leaves.
abbrev pub M : Type 0 → Type 0 → Type 0
M S A = S → Result A × S

module _ {S : Type 0} where
  abbrev pub pure : {A : Type 0} → A → M S A
  pure a s = (ok a, s)

  abbrev pub throw : {A : Type 0} → Error → M S A
  throw e s = (err e, s)

  abbrev pub after : {A B : Type 0} → Result A → S → (A → M S B) → Result B × S
  after (ok a) s f = f a s
  after (err e) s f = (err e, s)

  abbrev pub guard : Bool → Error → M S (Unit {0})
  guard true e s = (ok tt, s)
  guard false e s = (err e, s)

  abbrev pub lift : {A : Type 0} → Result A → M S A
  lift r s = (r, s)

  -- The value, or the exception where there is none.
  abbrev pub or_throw : {A : Type 0} → Option A → Error → M S A
  or_throw none e s = (err e, s)
  or_throw (some a) e s = (ok a, s)

  -- What a write of the database returns, and the state with what it has written.
  abbrev pub stored : {B : Type 0} → Result B → (B → S) → M S (Unit {0})
  stored (ok b) put s = (ok tt, put b)
  stored (err e) put s = (err e, s)

  abbrev pub stored_with : {A B : Type 0} → Result (A × B) → (B → S) → M S A
  stored_with (ok (a, b)) put s = (ok a, put b)
  stored_with (err e) put s = (err e, s)

  abbrev pub commit : {A : Type 0} → Result A → S → S → Result A × S
  commit (ok a) t s = (ok a, t)
  commit (err e) t s = (err e, s)

  -- `$transaction`: an exception leaves the state from before.
  abbrev pub transaction : {A : Type 0} → M S A → M S A
  transaction m s = commit (m s).0 (m s).1 s

infixl 5 ◌>>=◌ ◌>>◌
abbrev pub ◌>>=◌ : {S A B : Type 0} → M S A → (A → M S B) → M S B
◌>>=◌ m f s = after (m s).0 (m s).1 f

abbrev pub ◌>>◌ : {S B : Type 0} → M S (Unit {0}) → M S B → M S B
m >> k = m >>= λ _. k

module _ {S A B : Type 0} (m : M S A) (f : A → M S B) (s s' : S) (b : B) where
  -- A sequence that returns was a first step that returns, and a second.
  >>=-eq-ok :
      (m >>= f) s ≡ (ok b, s') → (a : A) × (t : S) × (m s ≡ (ok a, t)) × (f a t ≡ (ok b, s'))
  >>=-eq-ok h = elim (Result-cases (m s).0) [
    | inl (a, e) ↦ (a, (m s).1, ground (arith, e), ground (arith, e, h))
    | inr (x, e) ↦ ground (arith, e, h)
  ]

guard-eq-ok :
    {S : Type 0} (b : Bool) (e : Error) (s t : S) (u : Unit {0})
    → guard b e s ≡ (ok u, t)
    → (b ≡ true) × (t ≡ s)
guard-eq-ok b e s t u h = (ground (arith, h), ground (arith, h))

or_throw-eq-ok :
    {S A : Type 0} (o : Option A) (e : Error) (a : A) (s t : S)
    → or_throw o e s ≡ (ok a, t)
    → (o ≡ some a) × (t ≡ s)
or_throw-eq-ok o e a s t h = (ground (arith, h), ground (arith, h))

lift-eq-ok :
    {S A : Type 0} (r : Result A) (a : A) (s t : S) → lift r s ≡ (ok a, t) → (r ≡ ok a) × (t ≡ s)
lift-eq-ok r a s t h = (ground (arith, h), ground (arith, h))
