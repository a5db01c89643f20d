-- ===== src/Outcome.antt =====
-- What a call of the program comes to: a value, an exception or a failed assertion, or no result
-- within the fuel that its loops were given.
use u_lang.Prelude.{◌≡◌, ◌≢◌, refl, ap, ◌⊎◌, inl, inr}

pub data Fault : Type 0 where
  not_enough_room invalid_utf8 invalid_code_point : Fault
  assertion out_of_bounds : Fault

pub data Outcome {ℓ} (A : Type ℓ) : Type ℓ where
  ok : A → Outcome A
  thrown : Fault → Outcome A
  no_fuel : Outcome A

-- The rest of a call runs on the value; a fault, or the want of fuel, is what the call comes to.
infixl 5 ◌>>=◌
abbrev pub ◌>>=◌ {ℓ κ} : {A : Type ℓ} {B : Type κ} → Outcome A → (A → Outcome B) → Outcome B
no_fuel >>= rest = no_fuel
thrown fault >>= rest = thrown fault
ok value >>= rest = rest value

-- Where a call returned a value, both of its parts did.
pub >>=-eq-ok {ℓ κ} :
    {A : Type ℓ} {B : Type κ} (call : Outcome A) (rest : A → Outcome B) {result : B}
    → call >>= rest ≡ ok result
    → (value : A) × (rest value ≡ ok result) × (call ≡ ok value)
>>=-eq-ok no_fuel rest e = cc
>>=-eq-ok (thrown fault) rest e = cc
>>=-eq-ok (ok value) rest e = (value, e, refl)

pub >>=-eq-no_fuel {ℓ κ} :
    {A : Type ℓ} {B : Type κ} (call : Outcome A) (rest : A → Outcome B)
    → call >>= rest ≡ no_fuel
    → (call ≡ no_fuel) ⊎ ((value : A) × (rest value ≡ no_fuel) × (call ≡ ok value))
>>=-eq-no_fuel no_fuel rest e = inl refl
>>=-eq-no_fuel (thrown fault) rest e = absurd (cc e)
>>=-eq-no_fuel (ok value) rest e = inr (value, e, refl)

-- A call ends where both of its parts do.
pub >>=-ne-no_fuel {ℓ κ} :
    {A : Type ℓ} {B : Type κ} (call : Outcome A) (rest : A → Outcome B)
    → call ≢ no_fuel
    → ((value : A) → rest value ≢ no_fuel)
    → call >>= rest ≢ no_fuel
>>=-ne-no_fuel no_fuel rest h k e = h refl
>>=-ne-no_fuel (thrown fault) rest h k e = cc e
>>=-ne-no_fuel (ok value) rest h k e = k value e

pub ok_inj {ℓ} : {A : Type ℓ} {x y : A} → ok x ≡ ok y → x ≡ y
ok_inj {x = x} e = ap (λ o. elim o [ ok z ↦ z | _ ↦ x ]) e
