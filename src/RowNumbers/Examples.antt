-- ===== src/RowNumbers/Examples.antt =====
-- The row numbers' theorems at concrete rows.
use deep.Prelude.{◌≡◌, ◌<◌, refl, none, some, pos, [], ◌∷◌, length, arith}
use deep.RowNumbers.{RowNumber, less, compare_row_numbers, empty_row_number, minus_one, next}
use deep.RowNumbers.Ordering.{next-less}

-- The row number of the first value, at definition level 3.
abbrev first_row : RowNumber
first_row = pos 0 ∷ pos 0 ∷ pos 0 ∷ pos 0 ∷ minus_one ∷ minus_one ∷ []

first_row-next : next 0 3 empty_row_number ≡ some first_row
unfolding next
first_row-next = refl

too_deep : next 0 6 empty_row_number ≡ none
unfolding next
too_deep = refl

next-less_example :
    (3 < length empty_row_number) × (compare_row_numbers 5 empty_row_number first_row ≡ some less)
unfolding next
next-less_example = next-less 0 3 5 empty_row_number (omega arith) (omega arith)
