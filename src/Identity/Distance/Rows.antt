-- ===== src/Identity/Distance/Rows.antt =====
-- packages/identity/src/distance.ts: the rows hold the distances of prefixes.
use matchline.Base.{
  ◌≡◌, refl, ap, ◌∙◌, ℕ, suc, ◌+◌, ◌<◌, List, [], ◌∷◌, some, arith, Text, length, get_elem?,
  if◌then◌else◌, ltb, All,
}
use matchline.Identity.Distance.{
  min3, or_zero, substitution_cost, cells_from, next_row, minimum_from, row_minimum, count_up,
}
use matchline.Identity.Distance.Levenshtein.{lev, back, lev-nil, le-min3}

-- The distances of a prefix of the longer string to the prefixes of the shorter one, from the prefix
-- `before` on. Prefixes are given from their ends.
abbrev pub row_of : Text → Text → Text → List ℕ
row_of prefix before [] = lev prefix before ∷ []
row_of prefix before (c ∷ short) = lev prefix before ∷ row_of prefix (c ∷ before) short

row_of-head :
    (prefix before short : Text)
    → or_zero (get_elem? (row_of prefix before short) 0) ≡ lev prefix before
row_of-head prefix before [] = refl
row_of-head prefix before (c ∷ short) = refl

cells_from-row :
    (prefix before short : Text) (long_char : ℕ)
    → lev (long_char ∷ prefix) before
        ∷ cells_from long_char short (row_of prefix before short) (lev (long_char ∷ prefix) before)
      ≡ row_of (long_char ∷ prefix) before short
unfolding cells_from lev
cells_from-row prefix before [] long_char = refl
cells_from-row prefix before (c ∷ short) long_char =
    ap (λ xs. lev (long_char ∷ prefix) before ∷ xs)
      (ap (λ b. b ∷ cells_from long_char short (row_of prefix (c ∷ before) short) b) cell
        ∙ cells_from-row prefix (c ∷ before) short long_char)
  where
    cell :
        min3
          (or_zero (get_elem? (row_of prefix (c ∷ before) short) 0) + 1)
          (lev (long_char ∷ prefix) before + 1)
          (lev prefix before + substitution_cost long_char c)
        ≡ lev (long_char ∷ prefix) (c ∷ before)
    cell = rw (row_of-head prefix (c ∷ before) short)

pub next_row-row :
    (prefix short : Text) (long_char : ℕ)
    → next_row long_char (suc (length prefix)) short (row_of prefix [] short)
      ≡ row_of (long_char ∷ prefix) [] short
unfolding lev
next_row-row prefix short long_char = cells_from-row prefix [] short long_char

pub count_up-row : (before short : Text) → count_up (length before) short ≡ row_of [] before short
unfolding lev
count_up-row before [] = refl
count_up-row before (c ∷ short) =
    ap (λ xs. length before ∷ xs)
      (ap (λ n. count_up n short) (omega arith) ∙ count_up-row (c ∷ before) short)

-- The last cell is the distance to the whole shorter string.
pub last-row :
    (prefix before short : Text)
    → get_elem? (row_of prefix before short) (length short) ≡ some (lev prefix (back before short))
last-row prefix before [] = refl
last-row prefix before (c ∷ short) = last-row prefix (c ∷ before) short

-- A row that is above the bound everywhere stays so.
module _ (max : ℕ) where
  abbrev pub IsAbove : List ℕ → Type 0
  IsAbove = All (λ d. max < d)

  minimum_from-IsAbove :
      (m : ℕ) (cells : List ℕ) → max < minimum_from m cells → (max < m) × IsAbove cells
  minimum_from-IsAbove m [] h = (h, tt)
  minimum_from-IsAbove m (best ∷ cells) h =
      ground (arith, minimum_from-IsAbove (if ltb best m then best else m) cells h)

  pub row_minimum-IsAbove : (row : List ℕ) → max < row_minimum row → IsAbove row
  row_minimum-IsAbove [] h = tt
  row_minimum-IsAbove (first ∷ cells) h = minimum_from-IsAbove first cells h

  above :
      (prefix before short : Text) → IsAbove (row_of prefix before short) → max < lev prefix before
  above prefix before [] (a, _) = a
  above prefix before (d ∷ short) (a, _) = a

  last_above :
      (prefix before short : Text)
      → IsAbove (row_of prefix before short)
      → max < lev prefix (back before short)
  last_above prefix before [] (a, _) = a
  last_above prefix before (d ∷ short) (_, all) = last_above prefix (d ∷ before) short all

  next_above :
      (prefix before : Text) (c d : ℕ)
      → max < lev (c ∷ prefix) before
      → max < lev prefix before
      → max < lev prefix (d ∷ before)
      → max < lev (c ∷ prefix) (d ∷ before)
  unfolding lev
  next_above prefix before c d h a b =
      le-min3 (suc max) _ _ _ (omega arith) (omega arith) (omega arith)

  row_of-IsAbove :
      (prefix before short : Text) (c : ℕ)
      → max < lev (c ∷ prefix) before
      → IsAbove (row_of prefix before short)
      → IsAbove (row_of (c ∷ prefix) before short)
  row_of-IsAbove prefix before [] c h all = (h, tt)
  row_of-IsAbove prefix before (d ∷ short) c h (a, all) = (
    h,
    row_of-IsAbove prefix (d ∷ before) short c
        (next_above prefix before c d h a (above prefix (d ∷ before) short all)) all,
  )

  pub later_rows-IsAbove :
      (prefix short long : Text)
      → IsAbove (row_of prefix [] short)
      → max < lev (back prefix long) (back [] short)
  later_rows-IsAbove prefix short [] all = last_above prefix [] short all
  later_rows-IsAbove prefix short (c ∷ long) all = later_rows-IsAbove (c ∷ prefix) short long (
      row_of-IsAbove prefix [] short c
        (omega (arith, above prefix [] short all, lev-nil prefix, lev-nil (c ∷ prefix))) all)
