-- ===== src/Identity/Distance/Levenshtein.antt =====
-- The distance of Levenshtein by its textbook recursion, which compares the last units of two strings. The
-- strings are given from their ends.
use matchline.Base.{◌≡◌, refl, ℕ, suc, ◌+◌, ◌-◌, ◌≤◌, [], ◌∷◌, arith, Text, length}
use matchline.Identity.Distance.{min3, substitution_cost}

unfoldable pub lev : Text → Text → ℕ
lev [] t = length t
lev (c ∷ s) [] = suc (length s)
lev (c ∷ s) (d ∷ t) = min3 (lev s (d ∷ t) + 1) (lev (c ∷ s) t + 1) (lev s t + substitution_cost c d)

min3_swap : (a b c : ℕ) → min3 a b c ≡ min3 b a c
unfolding min3
min3_swap a b c = ground arith

min3-le : (a b c : ℕ) → min3 a b c ≤ c
unfolding min3
min3-le a b c = ground arith

-- A lower bound of the three numbers is one of the least.
pub le-min3 : (m a b c : ℕ) → m ≤ a → m ≤ b → m ≤ c → m ≤ min3 a b c
unfolding min3
le-min3 m a b c p q r = ground arith

cost_comm : (c d : ℕ) → substitution_cost c d ≡ substitution_cost d c
unfolding substitution_cost
cost_comm c d = ground arith

cost_self : (c : ℕ) → substitution_cost c c ≡ 0
unfolding substitution_cost
cost_self c = ground arith

pub lev-nil : (s : Text) → lev s [] ≡ length s
unfolding lev
lev-nil [] = refl
lev-nil (c ∷ s) = refl

pub lev_comm : (s t : Text) → lev s t ≡ lev t s
unfolding lev
lev_comm [] [] = refl
lev_comm [] (d ∷ t) = refl
lev_comm (c ∷ s) [] = refl
lev_comm (c ∷ s) (d ∷ t) =
    rw (lev_comm s (d ∷ t), lev_comm (c ∷ s) t, lev_comm s t, cost_comm c d) (min3_swap _ _ _)

pub lev_self : (s : Text) → lev s s ≡ 0
unfolding lev
lev_self [] = refl
lev_self (c ∷ s) = omega (
  arith,
  min3-le (lev s (c ∷ s) + 1) (lev (c ∷ s) s + 1) (lev s s + substitution_cost c c),
  lev_self s,
  cost_self c,
)

pub length-le-lev : (s t : Text) → length s ≤ lev s t + length t
unfolding lev
length-le-lev [] t = omega arith
length-le-lev (c ∷ s) [] = omega arith
length-le-lev (c ∷ s) (d ∷ t) = omega (
  arith,
  le-min3 (length s - length t) (lev s (d ∷ t) + 1) (lev (c ∷ s) t + 1)
      (lev s t + substitution_cost c d) (omega (arith, length-le-lev s (d ∷ t)))
      (omega (arith, length-le-lev (c ∷ s) t)) (omega (arith, length-le-lev s t)),
)

-- What is left of a string from its end, after `before`.
abbrev pub back : Text → Text → Text
back before [] = before
back before (c ∷ s) = back (c ∷ before) s

pub length-back : (before s : Text) → length (back before s) ≡ length before + length s
length-back before [] = omega arith
length-back before (c ∷ s) = omega (arith, length-back (c ∷ before) s)

-- The distance of two strings.
abbrev pub levenshtein : Text → Text → ℕ
levenshtein s t = lev (back [] s) (back [] t)
