-- ===== src/RowNumbers/Ordering.antt =====
-- The order of the row numbers of pkg/parquetquery/iters.go, and their truncation to a level.
use deep.Prelude.{
  ℕ, zero, suc, ◌+◌, ◌≤◌, ◌<◌, true, false, Bool-cases, inl, inr, [], ◌∷◌, Option, none, some, ltb,
  ◌&&◌, ◌≡◌, refl, sym, ap, leb, nat_beq, length, ℤ, pos, negsuc, arith,
}
use deep.Compaction.Format.{leb_ℤ, beq_ℤ}
use deep.RowNumbers.{
  RowNumber, first_of, less, compare_row_numbers, truncate_from, truncate_row_number, incr,
  next_from, next,
}

incr-less : (x : ℤ) → (beq_ℤ x (incr x) ≡ false) × (leb_ℤ x (incr x) ≡ true)
incr-less (pos n) = ground arith
incr-less (negsuc zero) = ground arith
incr-less (negsuc (suc n)) = ground arith

beq_ℤ-refl : (x : ℤ) → beq_ℤ x x ≡ true
beq_ℤ-refl x = ground arith

less_from :
    (i r d k : ℕ) (t : RowNumber)
    → i ≤ r
    → r ≤ d
    → r ≤ i + k
    → r < i + length t
    → compare_row_numbers k t (next_from i r d t) ≡ some less
unfolding compare_row_numbers next_from
less_from i r d k [] a b c e = ground arith
less_from i r d zero (x ∷ t) a b c e = ground (arith, incr-less x)
less_from i r d (suc k) (x ∷ t) a b c e = elim (Bool-cases (nat_beq i r)) [
  | inl y ↦ ground (arith, incr-less x, y)
  | inr n ↦
      let ih = less_from (i + 1) r d k t (ground arith) b (ground arith) (ground arith) in
      ground (arith, ih, beq_ℤ-refl x, n)
]

-- What `Next` makes of `t`: a panic where the definition level `d` is past its last level, and else a
-- row number that is greater in a comparison down to `k`.
abbrev pub Advances : ℕ → ℕ → RowNumber → Option RowNumber → Type 0
Advances d k t none = length t ≤ d
Advances d k t (some t') = (d < length t) × (compare_row_numbers k t t' ≡ some less)

-- Where the repetition level is no deeper than the definition level, `Next` panics exactly where the
-- definition level is past the last level of the row number; where it is not, the row number of the
-- next value is greater than the one before, in a comparison down to any level from the repetition
-- level on.
pub next-less : (r d k : ℕ) (t : RowNumber) → r ≤ d → r ≤ k → Advances d k t (next r d t)
unfolding next
next-less r d k t a b = elim (Bool-cases (leb (length t) d)) [
  | inl y ↦ elim (Bool-cases (leb (length t) r)) [
    | inl z ↦ rw (z, Advances) (ground (arith, y))
    | inr n ↦
        let l : ltb r d ≡ true = ground (arith, y, n) in rw (n, l, y, Advances) (ground (arith, y))
  ]
  | inr m ↦
      let n : leb (length t) r ≡ false = ground (arith, m) in
      let c : (ltb r d && leb (length t) d) ≡ false = ground (arith, m) in
      rw (n, c, Advances)
        (ground (arith, m), less_from 0 r d k t (omega arith) a (omega arith) (ground (arith, m)))
]

equal_from :
    (i d k : ℕ) (a b : RowNumber)
    → d ≡ i + k
    → compare_row_numbers k (truncate_from i d a) (truncate_from i d b) ≡ compare_row_numbers k a b
unfolding compare_row_numbers truncate_from
equal_from i d k [] b e = refl
equal_from i d k (x ∷ a) [] e = refl
equal_from i d zero (x ∷ a) (y ∷ b) e = ground arith
equal_from i d (suc k) (x ∷ a) (y ∷ b) e =
    let ih = equal_from (i + 1) d k a b (omega arith) in
    let l : leb i d ≡ true = ground arith in rw l (ap (first_of x y) ih)

-- Of row numbers of one length, a comparison down to a level sees only what truncation at that level
-- keeps.
pub compare_row_numbers-truncate :
    (k : ℕ) (a b a' b' : RowNumber)
    → truncate_row_number k a ≡ some a'
    → truncate_row_number k b ≡ some b'
    → compare_row_numbers k a' b' ≡ compare_row_numbers k a b
unfolding truncate_row_number
compare_row_numbers-truncate k a b a' b' p q =
    let e : truncate_from 0 k a ≡ a' = ground (arith, p) in
    let e' : truncate_from 0 k b ≡ b' = ground (arith, q) in
    rw (sym e, sym e') (equal_from 0 k k a b (omega arith))
