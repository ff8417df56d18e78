-- ===== src/Core/Errors.antt =====
-- Errors without exceptions (include/mari/core/result.hpp). The message of an error is for people
-- and is not modelled: an error is its code.
use mari_paint.Prelude.{Bool, true, false, ◌≡◌, refl, ap, ◌⊎◌, inl, inr, if◌then◌else◌}

pub data ErrorCode : Type 0 where
  unknown invalid_argument not_found io_error parse_error unsupported out_of_memory cancelled :
      ErrorCode

pub data Result {ℓ} (A : Type ℓ) : Type ℓ where
  ok : A → Result A
  err : ErrorCode → Result A

infixl 5 ◌>>=◌
abbrev pub ◌>>=◌ {ℓ κ} : {A : Type ℓ} {B : Type κ} → Result A → (A → Result B) → Result B
ok a >>= f = f a
err e >>= f = err e

abbrev pub is_ok {ℓ} : {A : Type ℓ} → Result A → Bool
is_ok (ok _) = true
is_ok (err _) = false

abbrev pub map_ok {ℓ κ} : {A : Type ℓ} {B : Type κ} → (A → B) → Result A → Result B
map_ok f (ok a) = ok (f a)
map_ok f (err e) = err e

pub map_ok-inverted :
    {A B : Type 0} (f : A → B) (r : Result A) {y : B}
    → map_ok f r ≡ ok y
    → (x : A) × (r ≡ ok x) × (f x ≡ y)
map_ok-inverted f (ok x) e = (x, refl, cc)
map_ok-inverted f (err c) e = cc

pub ok-injective {ℓ} : {A : Type ℓ} {x y : A} → ok x ≡ ok y → x ≡ y
ok-injective {A} {x} e = ap value e
  where
    value : Result A → A
    value (ok a) = a
    value (err _) = x

-- A guard that was passed.
pub guard_passed :
    (b : Bool) (c : ErrorCode) {r : Result (Unit {0})}
    → (if b then err c else r) ≡ ok tt
    → (b ≡ false) × (r ≡ ok tt)
guard_passed true c e = cc
guard_passed false c e = (refl, e)

pub Result-cases : (r : Result (Unit {0})) → (r ≡ ok tt) ⊎ ((c : ErrorCode) × (r ≡ err c))
Result-cases (ok tt) = inl refl
Result-cases (err c) = inr (c, refl)
