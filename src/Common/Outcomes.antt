-- ===== src/Common/Outcomes.antt =====
-- What a run of the program ends in (src/check.h): a failed `CHECK` is `LOG(FATAL)`, which aborts.
use mathlib.Core.Path.{◌≡◌, refl, ap}
use mathlib.Core.Bool.{Bool, true, false, not}

-- `stuck` is the end of a loop's fuel, which the program does not have.
pub data Outcome {ℓ} (A : Type ℓ) : Type ℓ where
  ok : A → Outcome A
  fatal : Outcome A
  stuck : Outcome A

infixl 5 ◌>>=◌ ◌>>◌
abbrev pub ◌>>=◌ {ℓ κ} : {X : Type ℓ} {Y : Type κ} → Outcome X → (X → Outcome Y) → Outcome Y
fatal >>= rest = fatal
stuck >>= rest = stuck
ok x >>= rest = rest x

abbrev pub ◌>>◌ {κ} : {Y : Type κ} → Outcome (Unit {0}) → Outcome Y → Outcome Y
first >> rest = first >>= λ done. rest

-- `CHECK(cond)`
abbrev pub check : Bool → Outcome (Unit {0})
check true = ok tt
check false = fatal

-- A run of two steps that ends well has passed through a state between them.
pub >>=-eq-ok {ℓ κ} :
    {X : Type ℓ} {Y : Type κ} (run : Outcome X) (rest : X → Outcome Y) {y : Y}
    → (run >>= rest) ≡ ok y
    → (x : X) × (rest x ≡ ok y) × (run ≡ ok x)
>>=-eq-ok fatal rest e = cc
>>=-eq-ok stuck rest e = cc
>>=-eq-ok (ok x) rest e = (x, e, refl)

-- A check that passes.
pub pass : {b : Bool} → b ≡ true → check b ≡ ok tt
pass h = ap check h

pub pass_not : {b : Bool} → b ≡ false → check (not b) ≡ ok tt
pass_not h = ap (λ b. check (not b)) h
