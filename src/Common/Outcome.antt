-- ===== src/Common/Outcome.antt =====
-- A Go result `(value, error)`, with the errors that the store returns.
use mathlib.Core.Path.{◌≡◌, refl}
use mathlib.Core.Logic.{◌⊎◌, inl, inr}
use mathlib.Core.Bool.{Bool, true, false}
use mathlib.Core.Option.{Option, none, some}
use agents_board.Common.Texts.{Text}

-- The sentinel errors of internal/store/errors.go; `validation` carries the field of a
-- *ValidationError; `failure` is any error that the callers treat as an internal one.
pub data Err : Type 0 where
  not_found invalid_key revoked locked duplicate no_object generation_mismatch failure : Err
  validation : Text → Err

pub data Result {ℓ} (A : Type ℓ) : Type ℓ where
  err : Err → Result A
  ok : A → Result A

-- The value goes on to the next statement, an error returns from the method.
abbrev pub ◌>>=◌ {ℓ κ} : {C : Type κ} {A : Type ℓ} → Result A → (A → Result C) → Result C
err e >>= next = err e
ok value >>= next = next value

-- The same for a statement without a value.
abbrev pub ◌>>◌ {ℓ} : {C : Type ℓ} → Result (Unit {0}) → Result C → Result C
check >> rest = check >>= λ done. rest

infixl 5 ◌>>=◌ ◌>>◌
-- `if test { return e }`
abbrev pub refuse : Bool → Err → Result (Unit {0})
refuse true e = err e
refuse false e = ok tt

abbrev pub or_err {ℓ} : {A : Type ℓ} → Option A → Err → Result A
or_err none e = err e
or_err (some a) e = ok a

pub >>=-eq-ok {ℓ κ} :
    {C : Type κ} {A : Type ℓ} (first : Result A) (next : A → Result C) {c : C}
    → (first >>= next) ≡ ok c
    → (value : A) × (first ≡ ok value) × (next value ≡ ok c)
>>=-eq-ok (err e) next returned = cc
>>=-eq-ok (ok value) next returned = (value, refl, returned)

pub refuse-eq-ok : (test : Bool) (e : Err) {u : Unit {0}} → refuse test e ≡ ok u → test ≡ false
refuse-eq-ok true e h = cc
refuse-eq-ok false e h = refl

pub or_err-eq-ok {ℓ} :
    {A : Type ℓ} (o : Option A) (e : Err) {a : A} → or_err o e ≡ ok a → o ≡ some a
or_err-eq-ok none e h = cc
or_err-eq-ok (some x) e h = cc

-- One guard of a do block that succeeded.
pub refuse->>-eq-ok {ℓ} :
    {B : Type ℓ} (test : Bool) (e : Err) (k : Result B) {b : B}
    → (refuse test e >> k) ≡ ok b
    → (test ≡ false) × (k ≡ ok b)
refuse->>-eq-ok true e k h = cc
refuse->>-eq-ok false e k h = (refl, h)

pub Result-cases {ℓ} :
    {A : Type ℓ} (r : Result A) → ((e : Err) × (r ≡ err e)) ⊎ ((a : A) × (r ≡ ok a))
Result-cases (ok a) = inr (a, refl)
Result-cases (err e) = inl (e, refl)
