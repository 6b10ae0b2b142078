-- ===== src/Common/Sequences.antt =====
-- Lists measured and searched by native numbers.
use Prim.Native.Nat.{ℕ, zero, suc, ◌+◌, ◌≤◌}
use mathlib.Core.Path.{◌≡◌, refl, ap, subst, sym}
use mathlib.Core.Logic.{◌⊎◌, ◌≢◌, inl, inr}
use native.Mathlib.Decide.{ℕ_discrete}
use mathlib.Core.Bool.{Bool, true, false, ◌||◌, or_assoc}
use mathlib.Core.List.{List, [], ◌∷◌, ◌++◌}
use native.Mathlib.Omega.{arith}
use hcproxy.Common.Tests.{◌==◌}

module _ {ℓ} {A : Type ℓ} where
  abbrev pub length : List A → ℕ
  length [] = 0
  length (x ∷ xs) = suc (length xs)

  abbrev pub take : ℕ → List A → List A
  take zero xs = []
  take (suc n) [] = []
  take (suc n) (x ∷ xs) = x ∷ take n xs

  abbrev pub drop : ℕ → List A → List A
  drop zero xs = xs
  drop (suc n) [] = []
  drop (suc n) (x ∷ xs) = drop n xs

  pub length-append : (xs ys : List A) → length (xs ++ ys) ≡ length xs + length ys
  length-append [] ys = omega arith
  length-append (x ∷ xs) ys = omega (arith, length-append xs ys)

  pub take-append-drop : (n : ℕ) (xs : List A) → take n xs ++ drop n xs ≡ xs
  take-append-drop zero xs = refl
  take-append-drop (suc n) [] = refl
  take-append-drop (suc n) (x ∷ xs) = ap (◌∷◌ x) (take-append-drop n xs)

  pub length-take : (n : ℕ) (xs : List A) → length (take n xs) ≤ n
  length-take zero xs = omega arith
  length-take (suc n) [] = omega arith
  length-take (suc n) (x ∷ xs) = omega (arith, length-take n xs)

-- Membership as a test.
abbrev pub has : ℕ → List ℕ → Bool
has a [] = false
has a (x ∷ xs) = (a == x) || has a xs

infix 40 ◌∈◌ ◌∉◌
abbrev pub ◌∈◌ : ℕ → List ℕ → Type 0
a ∈ xs = has a xs ≡ true

abbrev pub ◌∉◌ : ℕ → List ℕ → Type 0
a ∉ xs = has a xs ≡ false

abbrev pub Distinct : List ℕ → Type 0
Distinct [] = Unit {0}
Distinct (x ∷ xs) = (x ∉ xs) × Distinct xs

pub has-append : (a : ℕ) (xs ys : List ℕ) → has a (xs ++ ys) ≡ (has a xs || has a ys)
has-append a [] ys = refl
has-append a (x ∷ xs) ys = rw (has-append a xs ys, or_assoc)

pub snoc-cases : (a p : ℕ) (xs : List ℕ) → a ∈ xs ++ p ∷ [] → (a ≡ p) ⊎ (a ∈ xs)
snoc-cases a p xs i = ground (arith, has-append a xs (p ∷ []))

pub not-mem-snoc : (a p : ℕ) (xs : List ℕ) → a ∉ xs ++ p ∷ [] → (a ≢ p) × (a ∉ xs)
not-mem-snoc a p xs i = ground (arith, has-append a xs (p ∷ []))

pub ne_of_not-mem : (a b : ℕ) (xs : List ℕ) → a ∈ xs → b ∉ xs → a ≢ b
ne_of_not-mem a b xs i o e = ground (arith, subst (λ x. has x xs ≡ true) e i)

-- A list with `p` in the middle, and without it.
module _ (p : ℕ) (xs ys : List ℕ) where
  pub mem_middle : p ∈ xs ++ p ∷ ys
  mem_middle = ground (arith, has-append p xs (p ∷ ys))

  pub mem_more : (q : ℕ) → q ∈ xs ++ ys → q ∈ xs ++ p ∷ ys
  mem_more q i = ground (arith, has-append q xs ys, has-append q xs (p ∷ ys))

  pub mem_less : (q : ℕ) → q ≢ p → q ∉ xs ++ ys → q ∉ xs ++ p ∷ ys
  mem_less q ne i = ground (arith, has-append q xs ys, has-append q xs (p ∷ ys))

pub eq-cases : (a b : ℕ) → (a ≡ b) ⊎ (a ≢ b)
eq-cases a b = elim (ℕ_discrete a b) [ yes e ↦ inl e | no n ↦ inr n ]

pub nil-cases {ℓ} : {A : Type ℓ} (xs : List A) → (xs ≡ []) ⊎ (xs ≢ [])
nil-cases [] = inl refl
nil-cases (x ∷ xs) = inr (λ e. cc)

pub length-pos {ℓ} : {A : Type ℓ} (xs : List A) → xs ≢ [] → 1 ≤ length xs
length-pos [] h = absurd (h refl)
length-pos (x ∷ xs) h = omega arith

-- A member of a list cuts it in two.
pub mem-split :
    (a : ℕ) (xs : List ℕ) → a ∈ xs → (front : List ℕ) × (back : List ℕ) × (xs ≡ front ++ a ∷ back)
mem-split a [] i = absurd (ground arith)
mem-split a (x ∷ xs) i = elim (ℕ_discrete a x) [
  | yes e ↦ ([], xs, ap (λ y. y ∷ xs) (sym e))
  | no n ↦ let (front, back, s) = mem-split a xs (ground arith) in (x ∷ front, back, ap (◌∷◌ x) s)
]

-- The last place of a sequence, and the place before it.
pub last_mem : (x : ℕ) (xs : List ℕ) → x ∈ xs ++ x ∷ []
last_mem x xs = ground (arith, has-append x xs (x ∷ []))

pub snoc_mem : (x y : ℕ) (xs : List ℕ) → x ∈ xs → x ∈ xs ++ y ∷ []
snoc_mem x y xs i = ground (arith, has-append x xs (y ∷ []), i)
