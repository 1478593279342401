-- ===== src/RowNumbers.antt =====
-- pkg/parquetquery/iters.go: the row numbers of values in nested columns, by which iterators are
-- joined. A row number is the list of its six levels, and `none` the panic of an index out of range;
-- the counts do not overflow.
pub mod Ordering
mod Examples
use deep.Prelude.{
  ℕ, zero, suc, ◌+◌, Bool, ◌&&◌, List, [], ◌∷◌, Option, none, some, length, leb, ltb, nat_beq,
  if◌then◌else◌, ℤ, pos, negsuc, sub_ℕ,
}
use deep.Compaction.Format.{leb_ℤ, beq_ℤ}

abbrev pub RowNumber : Type 0
RowNumber = List ℤ

abbrev pub minus_one : ℤ
minus_one = negsuc 0

abbrev pub empty_row_number : RowNumber
empty_row_number = minus_one ∷ minus_one ∷ minus_one ∷ minus_one ∷ minus_one ∷ minus_one ∷ []

-- The results -1, 0 and 1.
pub data Comparison : Type 0 where
  less : Comparison
  equal : Comparison
  greater : Comparison

abbrev pub first_of : ℤ → ℤ → Option Comparison → Option Comparison
first_of x y c = if beq_ℤ x y then c else (if leb_ℤ x y then some less else some greater)

-- The levels `0` to `up_to_definition_level`.
unfoldable pub compare_row_numbers : ℕ → RowNumber → RowNumber → Option Comparison
compare_row_numbers up_to_definition_level [] b = none
compare_row_numbers up_to_definition_level (x ∷ a) [] = none
compare_row_numbers zero (x ∷ a) (y ∷ b) = first_of x y (some equal)
compare_row_numbers (suc n) (x ∷ a) (y ∷ b) = first_of x y (compare_row_numbers n a b)

-- The levels from `i` on, where all that are kept are there.
unfoldable pub truncate_from : ℕ → ℕ → RowNumber → RowNumber
truncate_from i definition_level_to_keep [] = []
truncate_from i definition_level_to_keep (x ∷ t) =
    (if leb i definition_level_to_keep then x else minus_one)
    ∷ truncate_from (i + 1) definition_level_to_keep t

unfoldable pub truncate_row_number : ℕ → RowNumber → Option RowNumber
unfolding truncate_from
truncate_row_number definition_level_to_keep t =
    if ltb definition_level_to_keep (length t)
    then some (truncate_from 0 definition_level_to_keep t)
    else none

unfoldable pub valid : RowNumber → Bool
valid [] = leb_ℤ (pos 0) minus_one
valid (x ∷ t) = leb_ℤ (pos 0) x

abbrev pub incr : ℤ → ℤ
incr (pos n) = pos (n + 1)
incr (negsuc n) = sub_ℕ 0 n

-- The levels from `i` on, where the assignments are in range: the later loop overwrites the earlier
-- one, and that the increment.
unfoldable pub next_from : ℕ → ℕ → ℕ → RowNumber → RowNumber
next_from i repetition_level definition_level [] = []
next_from i repetition_level definition_level (x ∷ t) =
    (if leb (definition_level + 1) i
      then minus_one
      else (if leb (repetition_level + 1) i
          then pos 0
          else (if nat_beq i repetition_level then incr x else x)))
    ∷ next_from (i + 1) repetition_level definition_level t

-- `t[repetitionLevel]++` and the loop up to the definition level index the row number.
unfoldable pub next : ℕ → ℕ → RowNumber → Option RowNumber
unfolding next_from
next repetition_level definition_level t =
    if leb (length t) repetition_level
    then none
    else (if ltb repetition_level definition_level && leb (length t) definition_level
        then none
        else some (next_from 0 repetition_level definition_level t))

abbrev pub unset : RowNumber → RowNumber
unset [] = []
unset (x ∷ t) = minus_one ∷ unset t

-- `Skip`, of no fewer rows than none.
unfoldable pub skip : ℕ → RowNumber → RowNumber
skip num_rows [] = []
skip num_rows (pos n ∷ t) = pos (n + num_rows) ∷ unset t
skip num_rows (negsuc n ∷ t) = sub_ℕ num_rows (n + 1) ∷ unset t
