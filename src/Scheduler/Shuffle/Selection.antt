-- ===== src/Scheduler/Shuffle/Selection.antt =====
-- What `shuffleQueriersForUser` selects.
use deep.Prelude.{
  ℕ, zero, suc, ◌+◌, ◌-◌, ◌≤◌, ◌<◌, ◌≡◌, ◌⊎◌, refl, sym, ap, ◌∙◌, Bytes, bytes_eq, bytes_beq_iff,
  true, false, ◌||◌, List, [], ◌∷◌, Option, none, some, length, length-set, get_or, set, contains,
  Distinct, leb, nat_beq, if◌then◌else◌, arith, inl, inr, Bool-cases,
}
use deep.Scheduler.State.{Env}
use deep.Scheduler.Shuffle.{set_insert, swap, select, shuffle_queriers_for_user}

get_or-set :
    (xs : List Bytes) (i j : ℕ) (v d : Bytes)
    → i < length xs
    → get_or (set xs i v) j d ≡ (if nat_beq i j then v else get_or xs j d)
get_or-set [] i j v d h = elim h [ ]
get_or-set (x ∷ xs) zero zero v d h = refl
get_or-set (x ∷ xs) zero (suc j) v d h = ground arith
get_or-set (x ∷ xs) (suc i) zero v d h = ground arith
get_or-set (x ∷ xs) (suc i) (suc j) v d h = ground (arith, get_or-set xs i j v d (omega arith))

get_or-swap :
    (xs : List Bytes) (i j k : ℕ)
    → i < length xs
    → j < length xs
    → get_or (swap xs i j) k [] ≡ (
        if nat_beq j k
        then get_or xs i []
        else if nat_beq i k
        then get_or xs j []
        else get_or xs k [])
get_or-swap xs i j k p q = ground (
  arith,
  length-set xs i (get_or xs j []),
  get_or-set xs i k (get_or xs j []) [] p,
  get_or-set (set xs i (get_or xs j [])) j k (get_or xs i []) []
      (ground (arith, length-set xs i (get_or xs j []))),
)

length-swap : (xs : List Bytes) (i j : ℕ) → length (swap xs i j) ≡ length xs
length-swap xs i j = ground (
  arith,
  length-set xs i (get_or xs j []),
  length-set (set xs i (get_or xs j [])) j (get_or xs i []),
)

contains-get_or : (xs : List Bytes) (i : ℕ) → i < length xs → contains (get_or xs i []) xs ≡ true
contains-get_or [] i h = elim h [ ]
contains-get_or (x ∷ xs) zero h = ground (arith, bytes_beq_iff x x)
contains-get_or (x ∷ xs) (suc i) h = ground (arith, contains-get_or xs i (omega arith))

-- The part of the scratchpad up to `last` is still to be drawn from.
record Drawing (all scratchpad : List Bytes) (last : ℕ) (result : List Bytes) : Type 0 where
  in_range : last < length scratchpad
  one_each :
      (i j : ℕ) → i ≤ last → j ≤ last → get_or scratchpad i [] ≡ get_or scratchpad j [] → i ≡ j
  left : (i : ℕ) → i ≤ last → contains (get_or scratchpad i []) result ≡ false
  known : (i : ℕ) → i ≤ last → contains (get_or scratchpad i []) all ≡ true
  drawn : (a : Bytes) → contains a result ≡ true → contains a all ≡ true
  once : Distinct result

-- Where the swap took the entry at `i` from.
abbrev origin : ℕ → ℕ → ℕ → ℕ
origin r last i = if nat_beq r i then last else i

get_or-swap-origin :
    (xs : List Bytes) (r last i : ℕ)
    → r ≤ last
    → last < length xs
    → i < last
    → get_or (swap xs r last) i [] ≡ get_or xs (origin r last i) []
get_or-swap-origin xs r last i h k p = ground (arith, get_or-swap xs r last i (omega arith) k)

draw :
    (all scratchpad : List Bytes) (last r : ℕ) (result : List Bytes)
    → Drawing all scratchpad last result
    → r ≤ last
    → 0 < last
    → Drawing all (swap scratchpad r last) (last - 1) (set_insert (get_or scratchpad r []) result)
draw all scratchpad last r result d h pos = record {
  in_range = ground (arith, length-swap scratchpad r last, d.in_range);
  one_each = λ i j p q e.
      let e' = sym (moved i p) ∙ e ∙ moved j q in
      ground
        (arith, d.one_each (origin r last i) (origin r last j) (ground arith) (ground arith) e');
  left = λ i p. rw (moved i p) (
      ground (
        arith,
        d.left r h,
        d.left (origin r last i) (ground arith),
        bytes_beq_iff (get_or scratchpad (origin r last i) []) (get_or scratchpad r []),
        d.one_each (origin r last i) r (ground arith) h,
      ));
  known = λ i p. rw (moved i p) (d.known (origin r last i) (ground arith));
  drawn =
      λ a m. ground (arith, d.drawn a, d.known r h, bytes_beq_iff a (get_or scratchpad r []), m);
  once = ground (arith, d.once, d.left r h);
}
  where
    moved :
        (i : ℕ)
        → i ≤ last - 1
        → get_or (swap scratchpad r last) i [] ≡ get_or scratchpad (origin r last i) []
    moved i p = get_or-swap-origin scratchpad r last i h d.in_range (omega arith)

get_or-Distinct :
    (xs : List Bytes) (i j : ℕ)
    → Distinct xs
    → i < length xs
    → j < length xs
    → get_or xs i [] ≡ get_or xs j []
    → i ≡ j
get_or-Distinct [] i j d p q e = elim p [ ]
get_or-Distinct (x ∷ xs) zero zero d p q e = refl
get_or-Distinct (x ∷ xs) zero (suc j) d p q e =
    ground (arith, d.0, e, contains-get_or xs j (omega arith))
get_or-Distinct (x ∷ xs) (suc i) zero d p q e =
    ground (arith, d.0, e, contains-get_or xs i (omega arith))
get_or-Distinct (x ∷ xs) (suc i) (suc j) d p q e =
    ap suc (get_or-Distinct xs i j d.1 (omega arith) (omega arith) e)

all_left : (all : List Bytes) → Distinct all → 0 < length all → Drawing all all (length all - 1) []
all_left all d h = record {
  in_range = omega arith;
  one_each = λ i j p q e. get_or-Distinct all i j d (omega arith) (omega arith) e;
  left = λ i p. refl;
  known = λ i p. contains-get_or all i (omega arith);
  drawn = λ a m. cc;
  once = tt;
}

-- A subset of the queriers, named once each.
pub record Selected (n : ℕ) (all result : List Bytes) : Type 0 where
  pub count : length result ≡ n
  pub within : (a : Bytes) → contains a result ≡ true → contains a all ≡ true
  pub once : Distinct result

abbrev pub Chosen : ℕ → List Bytes → Option (List Bytes) → Type 0
Chosen n all none = (n ≡ 0) ⊎ (length all ≤ n)
Chosen n all (some result) = (0 < n) × (n < length all) × Selected n all result

module _ (env : Env) where
  open env use {Source, new_source, intn, intn_lt}

  select-Selected :
      (rounds : ℕ) (rnd : Source) (all scratchpad : List Bytes) (last : ℕ) (result : List Bytes)
      → Drawing all scratchpad last result
      → rounds ≤ last
      → Selected (rounds + length result) all (select env rounds rnd scratchpad last result)
  unfolding select
  select-Selected zero rnd all scratchpad last result d h = record {
    count = omega arith;
    within = d.drawn;
    once = d.once;
  }
  select-Selected (suc rounds) rnd all scratchpad last result d h =
      let r = (intn (last + 1) rnd).0 in
      let small : r ≤ last = omega (arith, intn_lt (last + 1) rnd (omega arith)) in
      let rest =
        select-Selected rounds (intn (last + 1) rnd).1 all (swap scratchpad r last) (last - 1)
          (set_insert (get_or scratchpad r []) result)
          (draw all scratchpad last r result d small (omega arith)) (omega arith) in
      record {
        count = ground (arith, rest.count, d.left r small);
        within = rest.within;
        once = rest.once;
      }

  -- With distinct queriers, a user limited to `n` of them gets exactly `n` distinct ones of them
  -- where `n` is positive and there are more than `n`, and nil, which means all of them, where not.
  pub shuffle_queriers_for_user-Chosen :
      (user_seed n : ℕ) (all : List Bytes)
      → Distinct all
      → Chosen n all (shuffle_queriers_for_user env user_seed n all)
  unfolding shuffle_queriers_for_user
  shuffle_queriers_for_user-Chosen user_seed n all d =
      elim (Bool-cases (nat_beq n 0 || leb (length all) n)) [
        | inl y ↦ rw y (ground arith)
        | inr m ↦
            let short : n < length all = ground arith in
            rw m (
              ground arith,
              short,
              record {
                count = omega (arith, (chosen short).count);
                within = (chosen short).within;
                once = (chosen short).once;
              },
            )
      ]
    where
      chosen :
          n < length all
          → Selected (n + 0) all (select env n (new_source user_seed) all (length all - 1) [])
      chosen short =
          select-Selected n (new_source user_seed) all all (length all - 1) []
            (all_left all d (omega arith)) (omega arith)
