-- ===== src/Outcome.antt =====
-- What a handler answers. The library behind an HTTP route turns an exception that nothing catches
-- into a 500, and HTTPException into its code and detail.
use Prim.Native.Nat.{ℕ}
use Prim.Native.String.{String}
use mathlib.Core.Path.{◌≡◌, refl}

-- A value, an HTTP error, or an exception that nothing catches.
pub data Outcome {ℓ} (A : Type ℓ) : Type ℓ where
  ok : A → Outcome A
  refuse : ℕ → String → Outcome A
  crash : Outcome A

-- What comes after a value, an error or an exception ends the handler.
infixl 5 ◌>>=◌
abbrev pub ◌>>=◌ {κ μ} : {X : Type κ} {Y : Type μ} → Outcome X → (X → Outcome Y) → Outcome Y
crash >>= next = crash
refuse code detail >>= next = refuse code detail
ok x >>= next = next x

-- Where a handler of two steps ends in a value, so did its first step.
pub >>=-eq-ok {κ μ} :
    {X : Type κ} {Y : Type μ} (first : Outcome X) (next : X → Outcome Y) {y : Y}
    → (first >>= next) ≡ ok y
    → (x : X) × (first ≡ ok x) × (next x ≡ ok y)
>>=-eq-ok crash next ended = cc
>>=-eq-ok (refuse code detail) next ended = cc
>>=-eq-ok (ok x) next ended = (x, refl, ended)
