-- ===== src/Identity/Distance/Bounded.antt =====
-- packages/identity/src/distance.ts, `boundedDistance` against the distance of Levenshtein.
use matchline.Base.{
  ◌≡◌, refl, sym, ap, ◌∙◌, ℕ, suc, ◌+◌, ◌-◌, ◌≤◌, ◌<◌, ◌||◌, true, false, [], ◌∷◌, arith, Text,
  text_eq, text_beq_iff, length, ltb, leb, ◌==◌, Bool, if◌then◌else◌, subst, All,
}
use matchline.Identity.Distance.{
  next_row, row_minimum, rows_from, distance_by_rows, bounded_distance,
}
use matchline.Identity.Distance.Levenshtein.{
  lev, back, levenshtein, lev_comm, lev_self, length-le-lev, length-back,
}
use matchline.Identity.Distance.Rows.{
  row_of, next_row-row, count_up-row, last-row, row_minimum-IsAbove, later_rows-IsAbove,
}

-- Up to the bound the result is the distance, and above the bound it is above the bound.
abbrev pub IsBounded : ℕ → ℕ → ℕ → Type 0
IsBounded max distance result =
    (distance ≤ max → result ≡ distance) × (max < distance → max < result)

IsBounded-beyond : (max distance : ℕ) → max < distance → IsBounded max distance (max + 1)
IsBounded-beyond max distance h = (λ l. absurd (omega arith), λ _. omega arith)

IsBounded-exact : (max distance : ℕ) → IsBounded max distance distance
IsBounded-exact max distance = (λ _. refl, λ h. h)

if-IsBounded :
    (max distance : ℕ) (b : Bool) {x y : ℕ}
    → (b ≡ true → IsBounded max distance x)
    → (b ≡ false → IsBounded max distance y)
    → IsBounded max distance (if b then x else y)
if-IsBounded max distance true p q = p refl
if-IsBounded max distance false p q = q refl

module _ (max : ℕ) (short : Text) where
  rows_from-IsBounded :
      (prefix long : Text)
      → IsBounded max
          (lev (back prefix long) (back [] short))
          (rows_from max short (suc (length prefix)) long (row_of prefix [] short))
  unfolding rows_from
  rows_from-IsBounded prefix [] =
      rw (last-row prefix [] short) (IsBounded-exact max (lev prefix (back [] short)))
  rows_from-IsBounded prefix (c ∷ long) =
      let current = next_row c (suc (length prefix)) short (row_of prefix [] short) in
      let same : current ≡ row_of (c ∷ prefix) [] short = next_row-row prefix short c in
      let next : suc (suc (length prefix)) ≡ suc (length prefix) + 1 = omega arith in
      if-IsBounded max _ (ltb max (row_minimum current))
        (λ beyond. IsBounded-beyond max _ (
          later_rows-IsAbove max (c ∷ prefix) short long (
            subst (λ row. All (λ d. max < d) row) same
              (row_minimum-IsAbove max current (ground arith)))))
        (λ _.
          subst
            (λ row.
              IsBounded max (lev (back (c ∷ prefix) long) (back [] short))
                (rows_from max short (suc (length prefix) + 1) long row))
            (sym same)
            (subst
              (λ n.
                IsBounded max (lev (back (c ∷ prefix) long) (back [] short))
                  (rows_from max short n long (row_of (c ∷ prefix) [] short)))
              next (rows_from-IsBounded (c ∷ prefix) long)))

  distance_by_rows-IsBounded :
      (long : Text) → IsBounded max (levenshtein long short) (distance_by_rows max short long)
  distance_by_rows-IsBounded long = rw (count_up-row [] short) (rows_from-IsBounded [] long)

-- The lengths of two strings differ by their distance at most.
length-le-levenshtein : (s t : Text) → length s ≤ levenshtein s t + length t
length-le-levenshtein s t =
    omega (arith, length-le-lev (back [] s) (back [] t), length-back [] s, length-back [] t)

levenshtein_comm : (s t : Text) → levenshtein s t ≡ levenshtein t s
levenshtein_comm s t = lev_comm (back [] s) (back [] t)

-- Within the bound `boundedDistance` is the distance of Levenshtein; for strings that are further apart it
-- is more than the bound.
pub bounded_distance-IsBounded :
    (left right : Text) (max : ℕ)
    → IsBounded max (levenshtein left right) (bounded_distance left right max)
unfolding bounded_distance
bounded_distance-IsBounded left right max =
    if-IsBounded max _ (left == right)
      (λ e.
        let same : left ≡ right = (text_beq_iff left right).0 e in
        let zero_distance : levenshtein left right ≡ 0 =
          ap (levenshtein left) (sym same) ∙ lev_self (back [] left) in
        (λ _. sym zero_distance, λ h. absurd (omega arith)))
      (λ _.
        if-IsBounded max _
          (ltb max (length left - length right) || ltb max (length right - length left))
          (λ apart. IsBounded-beyond max _ (
            ground (
              arith,
              length-le-levenshtein left right,
              length-le-levenshtein right left,
              levenshtein_comm left right,
            )))
          (λ _.
            if-IsBounded max _ (leb (length left) (length right))
              (λ _.
                subst (λ d. IsBounded max d (distance_by_rows max left right))
                  (levenshtein_comm right left) (distance_by_rows-IsBounded max left right))
              (λ _. distance_by_rows-IsBounded max right left)))
