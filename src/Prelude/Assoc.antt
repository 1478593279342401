-- ===== src/Prelude/Assoc.antt =====
-- Go maps as association lists. `get` is `m[k]` with the comma-ok form, `put` an assignment and
-- `delete` the builtin. The order of the entries stands for Go's unspecified iteration order.
use mathlib.Core.Path.{◌≡◌, refl}
use mathlib.Core.List.{List, [], ◌∷◌}
use mathlib.Core.Option.{Option, none, some}
use mathlib.Core.Bool.{true, false}
use native.Mathlib.Omega.{arith}
use deep.Prelude.Tests.{Eq, if◌then◌else◌}
use deep.Prelude.Lists.{contains, Distinct}

abbrev pub Map {ℓ κ} : Type ℓ → Type κ → Type (ℓ ⊔ κ)
Map K V = List (K × V)

module _ {ℓ κ} {K : Type ℓ} ⦃e : Eq K⦄ {V : Type κ} where
  abbrev pub get : K → Map K V → Option V
  get k [] = none
  get k ((j, v) ∷ m) = if e.beq j k then some v else get k m

  abbrev pub put : K → V → Map K V → Map K V
  put k v [] = (k, v) ∷ []
  put k v ((j, w) ∷ m) = if e.beq j k then (k, v) ∷ m else (j, w) ∷ put k v m

  abbrev pub delete : K → Map K V → Map K V
  delete k [] = []
  delete k ((j, v) ∷ m) = if e.beq j k then delete k m else (j, v) ∷ delete k m

  abbrev pub keys : Map K V → List K
  keys [] = []
  keys ((j, v) ∷ m) = j ∷ keys m

  pub get-put :
      (k j : K) (v : V) (m : Map K V) → get j (put k v m) ≡ (if e.beq k j then some v else get j m)
  get-put k j v [] = refl
  get-put k j v ((i, w) ∷ m) =
      ground (arith, e.beq_iff k j, e.beq_iff i k, e.beq_iff i j, get-put k j v m)

  pub get-delete :
      (k j : K) (m : Map K V) → get j (delete k m) ≡ (if e.beq k j then none else get j m)
  get-delete k j [] = ground arith
  get-delete k j ((i, w) ∷ m) =
      ground (arith, e.beq_iff k j, e.beq_iff i k, e.beq_iff i j, get-delete k j m)

  -- A key is listed exactly when it has a value.
  pub contains-keys :
      (k : K) (m : Map K V)
      → contains k (keys m) ≡ (elim (get k m) [ none ↦ false | some v ↦ true ])
  contains-keys k [] = refl
  contains-keys k ((j, v) ∷ m) = ground (arith, contains-keys k m, e.beq_iff j k, e.beq_iff k j)

  pub contains-keys-put :
      (j k : K) (v : V) (m : Map K V)
      → contains j (keys (put k v m)) ≡ (if e.beq k j then true else contains j (keys m))
  contains-keys-put j k v m =
      ground (arith, contains-keys j (put k v m), contains-keys j m, get-put k j v m)

  pub put-Distinct : (k : K) (v : V) (m : Map K V) → Distinct (keys m) → Distinct (keys (put k v m))
  put-Distinct k v [] h = (refl, tt)
  put-Distinct k v ((j, w) ∷ m) h =
      ground
        (arith, e.beq_iff j k, e.beq_iff k j, contains-keys-put j k v m, put-Distinct k v m h.1)

  pub contains-keys-delete :
      (j k : K) (m : Map K V)
      → contains j (keys (delete k m)) ≡ (if e.beq k j then false else contains j (keys m))
  contains-keys-delete j k m =
      ground (arith, contains-keys j (delete k m), contains-keys j m, get-delete k j m)
