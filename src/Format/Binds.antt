-- ===== src/Format/Binds.antt =====
-- src/format/mod.rs, `Result`: what a successful chain of fallible steps says of its steps.
use ripindex.Common.{◌≡◌, refl}
use ripindex.Format.{Result, ok, err, ◌>>=◌, ◌>>◌}

pub ok-injective {ℓ} : {A : Type ℓ} {a b : A} → ok a ≡ ok b → a ≡ b
ok-injective e = cc

-- What follows from the success of both parts, for a long chain.
pub >>=-elim {ℓ κ μ} :
    {A : Type ℓ} {B : Type κ} {P : Type μ} (m : Result A) (f : A → Result B) {b : B}
    → (m >>= f) ≡ ok b
    → ((a : A) → m ≡ ok a → f a ≡ ok b → P)
    → P
>>=-elim (ok a) f h k = k a refl h
>>=-elim (err e) f h k = cc

pub >>-elim {ℓ μ} :
    {B : Type ℓ} {P : Type μ} (m : Result (Unit {0})) (k : Result B) {b : B}
    → (m >> k) ≡ ok b
    → (m ≡ ok tt → k ≡ ok b → P)
    → P
>>-elim (ok a) k h p = p refl h
>>-elim (err e) k h p = cc

-- The same, as a result.
pub >>=-eq-ok {ℓ κ} :
    {Value : Type ℓ} {Out : Type κ} (step : Result Value) (rest : Value → Result Out) {out : Out}
    → (step >>= rest) ≡ ok out
    → (value : Value) × (step ≡ ok value) × (rest value ≡ ok out)
>>=-eq-ok step rest h = >>=-elim step rest h λ value first second. (value, first, second)

pub >>-eq-ok {ℓ} :
    {B : Type ℓ} (m : Result (Unit {0})) (k : Result B) {b : B}
    → (m >> k) ≡ ok b
    → (m ≡ ok tt) × (k ≡ ok b)
>>-eq-ok (ok a) k h = (refl, h)
>>-eq-ok (err e) k h = cc
