-- ===== src/Tracepoints/Slices.antt =====
-- pkg/util/slices.go: entries removed from a slice by their indexes. A panic is `none`.
pub mod Removing
use deep.Prelude.{
  ℕ, suc, List, [], ◌∷◌, ◌++◌, Option, none, some, length, take, drop, ltb, if◌then◌else◌,
}

module _ {ℓ} {A : Type ℓ} where
  -- `append(slice[:index], slice[index+1:]...)`, and `slices.Delete(slice, index, index+1)`.
  unfoldable pub remove : List A → ℕ → Option (List A)
  remove slice index =
      if ltb index (length slice) then some (take index slice ++ drop (suc index) slice) else none

  -- The loop of `RemoveAll`.
  unfoldable pub remove_each : List A → List ℕ → Option (List A)
  remove_each slice [] = some slice
  remove_each slice (index ∷ idxs) = elim (remove slice index) [
    | none ↦ none
    | some rest ↦ remove_each rest idxs
  ]

-- `sort.Sort(sort.Reverse(…))`, by insertion.
abbrev pub insert_descending : ℕ → List ℕ → List ℕ
insert_descending i [] = i ∷ []
insert_descending i (j ∷ js) = if ltb i j then j ∷ insert_descending i js else i ∷ j ∷ js

abbrev pub sort_descending : List ℕ → List ℕ
sort_descending [] = []
sort_descending (i ∷ is) = insert_descending i (sort_descending is)

unfoldable pub remove_all {ℓ} : {A : Type ℓ} → List A → List ℕ → Option (List A)
remove_all slice [] = remove_each slice []
remove_all slice (i ∷ []) = remove slice i
remove_all slice (i ∷ j ∷ is) = remove_each slice (sort_descending (i ∷ j ∷ is))
