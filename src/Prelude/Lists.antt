-- ===== src/Prelude/Lists.antt =====
-- Lists measured and indexed by native numbers, membership as a Boolean test, and predicates that
-- hold of every element.
use Prim.Native.Nat.{ℕ, zero, suc, ◌+◌}
use mathlib.Core.Path.{◌≡◌, refl, ap}
use mathlib.Core.List.{List, [], ◌∷◌, ◌++◌}
use mathlib.Core.Option.{Option, none, some}
use mathlib.Core.Bool.{Bool, true, false, ◌||◌}
use native.Mathlib.Omega.{arith}
use deep.Prelude.Tests.{Eq, if◌then◌else◌}

module _ {ℓ} {A : Type ℓ} where
  abbrev pub length : List A → ℕ
  length [] = 0
  length (x ∷ xs) = suc (length xs)

  abbrev pub get_elem? : List A → ℕ → Option A
  get_elem? [] i = none
  get_elem? (x ∷ xs) zero = some x
  get_elem? (x ∷ xs) (suc i) = get_elem? xs i

  abbrev pub get_or : List A → ℕ → A → A
  get_or [] i d = d
  get_or (x ∷ xs) zero d = x
  get_or (x ∷ xs) (suc i) d = get_or xs i d

  -- A write out of bounds changes nothing.
  abbrev pub set : List A → ℕ → A → List A
  set [] i v = []
  set (x ∷ xs) zero v = v ∷ xs
  set (x ∷ xs) (suc i) v = x ∷ set xs i v

  abbrev pub take : ℕ → List A → List A
  take zero xs = []
  take (suc n) [] = []
  take (suc n) (x ∷ xs) = x ∷ take n xs

  abbrev pub drop : ℕ → List A → List A
  drop zero xs = xs
  drop (suc n) [] = []
  drop (suc n) (x ∷ xs) = drop n xs

  pub length-append : (xs ys : List A) → length (xs ++ ys) ≡ length xs + length ys
  length-append [] ys = omega arith
  length-append (x ∷ xs) ys = omega (arith, length-append xs ys)

  pub length-set : (xs : List A) (i : ℕ) (v : A) → length (set xs i v) ≡ length xs
  length-set [] i v = refl
  length-set (x ∷ xs) zero v = refl
  length-set (x ∷ xs) (suc i) v = ap suc (length-set xs i v)

  abbrev pub filter : (A → Bool) → List A → List A
  filter p [] = []
  filter p (x ∷ xs) = if p x then x ∷ filter p xs else filter p xs

  abbrev pub any : (A → Bool) → List A → Bool
  any p [] = false
  any p (x ∷ xs) = p x || any p xs

  -- Every element satisfies `P`.
  abbrev pub All {κ} : (A → Type κ) → List A → Type κ
  All P [] = Unit
  All P (x ∷ xs) = P x × All P xs

-- `contains a xs`: some element of `xs` is `a`.
abbrev pub contains {ℓ} : {A : Type ℓ} ⦃e : Eq A⦄ → A → List A → Bool
contains ⦃e⦄ a [] = false
contains ⦃e⦄ a (x ∷ xs) = e.beq a x || contains a xs

-- No element occurs twice.
abbrev pub Distinct {ℓ} : {A : Type ℓ} ⦃e : Eq A⦄ → List A → Type 0
Distinct [] = Unit
Distinct ⦃e⦄ (x ∷ xs) = (contains x xs ≡ false) × Distinct xs

module _ {ℓ} {A : Type ℓ} ⦃e : Eq A⦄ where
  pub contains-append :
      (a : A) (xs ys : List A) → contains a (xs ++ ys) ≡ (contains a xs || contains a ys)
  contains-append a [] ys = refl
  contains-append a (x ∷ xs) ys = ground (arith, contains-append a xs ys)

  pub Distinct-append :
      (xs ys : List A)
      → Distinct xs
      → Distinct ys
      → ((a : A) → contains a xs ≡ true → contains a ys ≡ false)
      → Distinct (xs ++ ys)
  Distinct-append [] ys p q h = q
  Distinct-append (x ∷ xs) ys p q h = (
    ground (arith, contains-append x xs ys, h x, e.beq_iff x x),
    Distinct-append xs ys p.1 q (λ a m. h a (ground (arith, m))),
  )
