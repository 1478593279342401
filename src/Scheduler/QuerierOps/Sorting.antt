-- ===== src/Scheduler/QuerierOps/Sorting.antt =====
-- The sorted list of queriers: insertion, search and removal.
use deep.Prelude.{
  ℕ, zero, suc, ◌<◌, ◌≡◌, refl, inl, inr, Bool-cases, Bytes, bytes_eq, bytes_beq, bytes_beq_iff,
  bytes_lt, bytes_lt_irrefl, bytes_lt_trans, bytes_lt_total, true, false, ◌&&◌, ◌||◌, not, List, [],
  ◌∷◌, length, get_or, contains, Distinct, All, arith,
}
use deep.Scheduler.QuerierOps.{insert_string, sort_strings, search_strings, remove_at}

-- Each entry is below all that follow it.
abbrev pub IsSorted : List Bytes → Type 0
IsSorted [] = Unit
IsSorted (x ∷ xs) = All (λ y. bytes_lt x y ≡ true) xs × IsSorted xs

contains-insert_string :
    (a x : Bytes) (xs : List Bytes)
    → contains a (insert_string x xs) ≡ (bytes_beq a x || contains a xs)
contains-insert_string a x [] = refl
contains-insert_string a x (y ∷ ys) = ground (arith, contains-insert_string a x ys)

pub contains-sort_strings :
    (a : Bytes) (xs : List Bytes) → contains a (sort_strings xs) ≡ contains a xs
contains-sort_strings a [] = refl
contains-sort_strings a (x ∷ xs) =
    ground (arith, contains-insert_string a x (sort_strings xs), contains-sort_strings a xs)

All-lt :
    (x y : Bytes) (ys : List Bytes)
    → bytes_lt x y ≡ true
    → All (λ z. bytes_lt y z ≡ true) ys
    → All (λ z. bytes_lt x z ≡ true) ys
All-lt x y [] h a = tt
All-lt x y (z ∷ ys) h a = (bytes_lt_trans x y z h a.0, All-lt x y ys h a.1)

All-insert_string :
    (w x : Bytes) (xs : List Bytes)
    → bytes_lt w x ≡ true
    → All (λ z. bytes_lt w z ≡ true) xs
    → All (λ z. bytes_lt w z ≡ true) (insert_string x xs)
All-insert_string w x [] h a = (h, tt)
All-insert_string w x (y ∷ ys) h a = ground (arith, All-insert_string w x ys h a.1)

insert_string-IsSorted :
    (x : Bytes) (xs : List Bytes)
    → contains x xs ≡ false
    → IsSorted xs
    → IsSorted (insert_string x xs)
insert_string-IsSorted x [] n s = (tt, tt)
insert_string-IsSorted x (y ∷ ys) n s = ground (
  arith,
  n,
  bytes_beq_iff x y,
  bytes_lt_total x y,
  All-lt x y ys,
  All-insert_string y x ys,
  insert_string-IsSorted x ys,
)

pub sort_strings-IsSorted : (xs : List Bytes) → Distinct xs → IsSorted (sort_strings xs)
sort_strings-IsSorted [] d = tt
sort_strings-IsSorted (x ∷ xs) d =
    insert_string-IsSorted x (sort_strings xs) (ground (arith, d.0, contains-sort_strings x xs))
      (sort_strings-IsSorted xs d.1)

above_absent :
    (x : Bytes) (xs : List Bytes) → All (λ y. bytes_lt x y ≡ true) xs → contains x xs ≡ false
above_absent x [] a = refl
above_absent x (y ∷ ys) a =
    ground (arith, a.0, above_absent x ys a.1, bytes_beq_iff x y, bytes_lt_irrefl x)

pub IsSorted-Distinct : (xs : List Bytes) → IsSorted xs → Distinct xs
IsSorted-Distinct [] s = tt
IsSorted-Distinct (x ∷ xs) s = (above_absent x xs s.0, IsSorted-Distinct xs s.1)

lt_of_contains :
    (y x : Bytes) (ys : List Bytes)
    → All (λ z. bytes_lt y z ≡ true) ys
    → contains x ys ≡ true
    → bytes_lt y x ≡ true
lt_of_contains y x [] a m = cc
lt_of_contains y x (z ∷ ys) a m =
    ground (arith, a.0, m, bytes_beq_iff x z, lt_of_contains y x ys a.1)

-- The search finds what the list holds.
pub search_strings-found :
    (x : Bytes) (xs : List Bytes)
    → IsSorted xs
    → contains x xs ≡ true
    → (search_strings xs x < length xs) × (get_or xs (search_strings xs x) [] ≡ x)
search_strings-found x [] s m = cc
search_strings-found x (y ∷ ys) s m = elim (Bool-cases (bytes_lt y x)) [
  | inl below ↦ rw below (
      ground (arith, below, m, bytes_lt_irrefl x, bytes_beq_iff x y, search_strings-found x ys s.1))
  | inr n ↦ rw n (omega arith, ground (arith, m, bytes_beq_iff x y, lt_of_contains y x ys s.0))
]

pub contains-remove_found :
    (a x : Bytes) (xs : List Bytes)
    → IsSorted xs
    → contains x xs ≡ true
    → contains a (remove_at (search_strings xs x) xs) ≡ (contains a xs && not (bytes_beq a x))
contains-remove_found a x [] s m = refl
contains-remove_found a x (y ∷ ys) s m = elim (Bool-cases (bytes_lt y x)) [
  | inl below ↦ rw below (
      ground (
        arith,
        below,
        m,
        bytes_lt_irrefl x,
        bytes_beq_iff x y,
        bytes_beq_iff a y,
        bytes_beq_iff a x,
        contains-remove_found a x ys s.1,
      ))
  | inr n ↦ rw n (
      ground (
        arith,
        n,
        m,
        bytes_beq_iff x y,
        bytes_beq_iff a y,
        bytes_beq_iff a x,
        lt_of_contains y x ys s.0,
        above_absent y ys s.0,
      ))
]

All-remove_at :
    (w : Bytes) (i : ℕ) (xs : List Bytes)
    → All (λ z. bytes_lt w z ≡ true) xs
    → All (λ z. bytes_lt w z ≡ true) (remove_at i xs)
All-remove_at w zero [] a = tt
All-remove_at w (suc i) [] a = tt
All-remove_at w zero (x ∷ xs) a = a.1
All-remove_at w (suc i) (x ∷ xs) a = (a.0, All-remove_at w i xs a.1)

pub remove_at-IsSorted : (i : ℕ) (xs : List Bytes) → IsSorted xs → IsSorted (remove_at i xs)
remove_at-IsSorted zero [] s = tt
remove_at-IsSorted (suc i) [] s = tt
remove_at-IsSorted zero (x ∷ xs) s = s.1
remove_at-IsSorted (suc i) (x ∷ xs) s = (All-remove_at x i xs s.0, remove_at-IsSorted i xs s.1)
