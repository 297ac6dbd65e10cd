-- ===== src/Identity/Distance.antt =====
-- packages/identity/src/distance.ts. The bound is a natural number, as the index keeps it.
pub mod Levenshtein
pub mod Rows
pub mod Bounded
use matchline.Base.{
  ℕ, zero, suc, ◌+◌, ◌-◌, Bool, true, false, ◌||◌, List, [], ◌∷◌, Option, none, some, if◌then◌else◌,
  ltb, leb, nat_beq, ◌==◌, Text, text_eq, length, get_elem?, drop,
}

-- `Math.min` of two and of three numbers.
abbrev min : ℕ → ℕ → ℕ
min a b = if leb a b then a else b

unfoldable pub min3 : ℕ → ℕ → ℕ → ℕ
min3 a b c = min (min a b) c

abbrev pub or_zero : Option ℕ → ℕ
or_zero none = 0
or_zero (some n) = n

unfoldable pub substitution_cost : ℕ → ℕ → ℕ
substitution_cost c d = if nat_beq c d then 0 else 1

-- The inner loop, for one unit of the longer string. The list is `previous` from `shortIndex - 1` on, and
-- `left` the cell that was written last. Each cell of `current` is written once, from left to right.
unfoldable pub cells_from : ℕ → Text → List ℕ → ℕ → List ℕ
unfolding min3 substitution_cost
cells_from long_char [] previous left = []
cells_from long_char (short_char ∷ short) previous left =
    let best =
      min3 (or_zero (get_elem? previous 1) + 1) (left + 1)
        (or_zero (get_elem? previous 0) + substitution_cost long_char short_char) in
    best ∷ cells_from long_char short (drop 1 previous) best

-- The whole row.
abbrev pub next_row : ℕ → ℕ → Text → List ℕ → List ℕ
next_row long_char long_index short previous =
    long_index ∷ cells_from long_char short previous long_index

-- `rowMinimum`
abbrev pub minimum_from : ℕ → List ℕ → ℕ
minimum_from row_minimum [] = row_minimum
minimum_from row_minimum (best ∷ cells) =
    minimum_from (if ltb best row_minimum then best else row_minimum) cells

abbrev pub row_minimum : List ℕ → ℕ
row_minimum [] = 0
row_minimum (first ∷ cells) = minimum_from first cells

abbrev pub last_cell : Option ℕ → ℕ → ℕ
last_cell none max = max + 1
last_cell (some d) max = d

-- The outer loop, over what is left of the longer string.
unfoldable pub rows_from : ℕ → Text → ℕ → Text → List ℕ → ℕ
unfolding cells_from
rows_from max short long_index [] previous = last_cell (get_elem? previous (length short)) max
rows_from max short long_index (long_char ∷ long) previous =
    let current = next_row long_char long_index short previous in
    let rest = rows_from max short (long_index + 1) long current in
    if ltb max (row_minimum current) then max + 1 else rest

-- `Array.from({ length: n }, (_unused, index) => index)`, from an index on.
abbrev pub count_up : ℕ → Text → List ℕ
count_up index [] = index ∷ []
count_up index (c ∷ short) = index ∷ count_up (index + 1) short

abbrev pub distance_by_rows : ℕ → Text → Text → ℕ
distance_by_rows max short long = rows_from max short 1 long (count_up 0 short)

unfoldable pub bounded_distance : Text → Text → ℕ → ℕ
unfolding rows_from
bounded_distance left right max =
    if left == right
    then 0
    else if ltb max (length left - length right) || ltb max (length right - length left)
    then max + 1
    else if leb (length left) (length right)
    then distance_by_rows max left right
    else distance_by_rows max right left
