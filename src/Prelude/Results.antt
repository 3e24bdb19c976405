-- ===== src/Prelude/Results.antt =====
-- What a call that may raise returns: a value, or the exception.
use mathlib.Core.Path.{◌≡◌, refl}
use mathlib.Core.Logic.{◌⊎◌, inl, inr}
use mathlib.Core.Bool.{Bool, true, false}

-- The exception classes that the modelled code raises.
pub data Error : Type 0 where
  value_error type_error key_error permission_error runtime_error integrity_error index_error :
      Error
  file_not_found_error anchor_sink_error anchor_configuration_error : Error

pub data Result {ℓ} (A : Type ℓ) : Type ℓ where
  raise : Error → Result A
  ok : A → Result A

-- `if not b: raise e`
abbrev pub require : Bool → Error → Result (Unit {0})
require false e = raise e
require true _ = ok tt

-- What follows a call is skipped when the call raises.
infixl 5 ◌>>=◌
abbrev pub ◌>>=◌ {κ ℓ} : {B : Type κ} {A : Type ℓ} → Result B → (B → Result A) → Result A
raise e >>= next = raise e
ok x >>= next = next x

-- A chain that returns has returned at each of its calls.
pub >>=-eq-ok {κ ℓ} :
    {B : Type κ} {A : Type ℓ} (call : Result B) (next : B → Result A) {last : A}
    → (call >>= next) ≡ ok last
    → (x : B) × (call ≡ ok x) × (next x ≡ ok last)
>>=-eq-ok (raise why) next h = cc
>>=-eq-ok (ok x) next h = (x, refl, h)

infixl 5 ◌>>◌
abbrev pub ◌>>◌ {κ} : {A : Type κ} → Result (Unit {0}) → Result A → Result A
checked >> after = checked >>= λ done. after

pub Result-cases {κ} :
    {A : Type κ} (r : Result A) → ((e : Error) × (r ≡ raise e)) ⊎ ((a : A) × (r ≡ ok a))
Result-cases (raise e) = inl (e, refl)
Result-cases (ok a) = inr (a, refl)

pub ok_injective {ℓ} : {A : Type ℓ} (x y : A) → ok x ≡ ok y → x ≡ y
ok_injective x y h = cc

pub require-eq-ok : (b : Bool) (e : Error) {u : Unit {0}} → require b e ≡ ok u → b ≡ true
require-eq-ok true e h = refl
require-eq-ok false e h = cc
