-- ===== src/Tracepoints/Slices/Removing.antt =====
-- `RemoveAll` of pkg/util/slices.go with the indexes of the entries that a test picks.
use deep.Prelude.{
  ℕ, suc, ◌<◌, ◌≡◌, refl, ap, ◌∙◌, Bool, not, List, [], ◌∷◌, ◌++◌, Option, none, some, append_assoc,
  length, length-append, take, drop, filter, All, Bool-cases, Option-cases, if◌then◌else◌, arith,
  inl, inr,
}
use deep.Tracepoints.Slices.{remove, remove_each, remove_all, insert_descending, sort_descending}

insert-All :
    (k i : ℕ) (is : List ℕ)
    → k < i
    → All (λ j. k < j) is
    → All (λ j. k < j) (insert_descending i is)
insert-All k i [] h a = (h, tt)
insert-All k i (j ∷ js) h a = ground (arith, h, a, insert-All k i js h a.1)

sort-All : (k : ℕ) (is : List ℕ) → All (λ j. k < j) is → All (λ j. k < j) (sort_descending is)
sort-All k [] a = tt
sort-All k (i ∷ is) a = insert-All k i (sort_descending is) a.0 (sort-All k is a.1)

module _ {ℓ} {A : Type ℓ} where
  length-snoc : (xs : List A) (x : A) → length (xs ++ (x ∷ [])) ≡ suc (length xs)
  length-snoc xs x = omega (arith, length-append xs (x ∷ []))

  -- The indexes, from `i`, of the entries that the test picks.
  abbrev pub picked : (A → Bool) → ℕ → List A → List ℕ
  picked p i [] = []
  picked p i (x ∷ xs) = let rest = picked p (suc i) xs in if p x then i ∷ rest else rest

  take-length : (xs ys : List A) → take (length xs) (xs ++ ys) ≡ xs
  take-length [] ys = refl
  take-length (x ∷ xs) ys = ap (λ (l : List A). x ∷ l) (take-length xs ys)

  drop-length : (xs : List A) (y : A) (ys : List A) → drop (suc (length xs)) (xs ++ (y ∷ ys)) ≡ ys
  drop-length [] y ys = refl
  drop-length (x ∷ xs) y ys = drop-length xs y ys

  remove-append :
      (xs : List A) (y : A) (ys : List A) → remove (xs ++ (y ∷ ys)) (length xs) ≡ some (xs ++ ys)
  unfolding remove
  remove-append xs y ys =
      ground (arith, length-append xs (y ∷ ys), take-length xs (y ∷ ys), drop-length xs y ys)

  -- A removal after others.
  abbrev then_remove : Option (List A) → ℕ → Option (List A)
  then_remove none i = none
  then_remove (some xs) i = remove xs i

  remove_each-insert :
      (i : ℕ) (is : List ℕ)
      → All (λ j. i < j) is
      → (xs : List A) → remove_each xs (insert_descending i is) ≡ then_remove (remove_each xs is) i
  unfolding remove_each
  remove_each-insert i [] a xs = elim (Option-cases (remove xs i)) [
    | inl e ↦ ground (arith, e)
    | inr (ys, e) ↦ ground (arith, e)
  ]
  remove_each-insert i (j ∷ js) a xs = elim (Option-cases (remove xs j)) [
    | inl e ↦ ground (arith, e, a.0)
    | inr (ys, e) ↦ ground (arith, e, a.0, remove_each-insert i js a.1 ys)
  ]

  picked-above : (p : A → Bool) (k i : ℕ) (xs : List A) → k < i → All (λ j. k < j) (picked p i xs)
  picked-above p k i [] h = tt
  picked-above p k i (x ∷ xs) h = ground (arith, picked-above p k (suc i) xs (omega arith))

  remove_each-picked :
      (p : A → Bool) (pre xs : List A)
      → remove_each (pre ++ xs) (sort_descending (picked p (length pre) xs))
        ≡ some (pre ++ filter (λ x. not (p x)) xs)
  unfolding remove_each
  remove_each-picked p pre [] = refl
  remove_each-picked p pre (x ∷ xs) =
      let rest : remove_each (pre ++ (x ∷ xs)) (sort_descending (picked p (suc (length pre)) xs))
          ≡ some (pre ++ (x ∷ filter (λ y. not (p y)) xs)) =
        shifted p pre x xs (remove_each-picked p (pre ++ (x ∷ [])) xs) in
      elim (Bool-cases (p x)) [
        | inl e ↦ rw e (
            remove_each-insert (length pre) (sort_descending (picked p (suc (length pre)) xs))
              (sort-All (length pre) (picked p (suc (length pre)) xs)
                (picked-above p (length pre) (suc (length pre)) xs (omega arith)))
              (pre ++ (x ∷ xs))
            ∙ ap (λ (o : Option (List A)). then_remove o (length pre)) rest
            ∙ remove-append pre x (filter (λ y. not (p y)) xs))
        | inr n ↦ rw n rest
      ]
    where
      shifted :
          (p : A → Bool) (pre : List A) (x : A) (xs : List A)
          → remove_each
              ((pre ++ (x ∷ [])) ++ xs)
              (sort_descending (picked p (length (pre ++ (x ∷ []))) xs))
            ≡ some ((pre ++ (x ∷ [])) ++ filter (λ y. not (p y)) xs)
          → remove_each (pre ++ (x ∷ xs)) (sort_descending (picked p (suc (length pre)) xs))
            ≡ some (pre ++ (x ∷ filter (λ y. not (p y)) xs))
      shifted p pre x xs ih =
          rw
            (
              append_assoc pre (x ∷ []) xs,
              append_assoc pre (x ∷ []) (filter (λ y. not (p y)) xs),
              length-snoc pre x,
            )
            at ih

  remove_all-sorted :
      (xs : List A) (is : List ℕ) → remove_all xs is ≡ remove_each xs (sort_descending is)
  unfolding remove_all remove_each
  remove_all-sorted xs [] = refl
  remove_all-sorted xs (i ∷ []) = elim (Option-cases (remove xs i)) [
    | inl e ↦ ground (arith, e)
    | inr (ys, e) ↦ ground (arith, e)
  ]
  remove_all-sorted xs (i ∷ j ∷ is) = refl

  pub remove_all-picked :
      (p : A → Bool) (xs : List A)
      → remove_all xs (picked p 0 xs) ≡ some (filter (λ x. not (p x)) xs)
  remove_all-picked p xs = remove_all-sorted xs (picked p 0 xs) ∙ remove_each-picked p [] xs
