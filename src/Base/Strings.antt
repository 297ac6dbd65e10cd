-- ===== src/Base/Strings.antt =====
-- What the sources use of `String.prototype` and `Array.prototype`: prefixes, slices, joins, decimals.
use mathlib.Core.Bool.{Bool, true, false, ◌&&◌}
use mathlib.Core.List.{List, [], ◌∷◌, ◌++◌}
use mathlib.Core.Path.{◌≡◌, refl, ap}
use mathlib.Core.Logic.{◌↔◌}
use Prim.Native.Nat.{ℕ, zero, suc, ◌+◌, ◌-◌, ◌/◌, ◌%◌}
use native.Mathlib.Omega.{arith}
use matchline.Base.Tests.{if◌then◌else◌, nat_beq, ltb, leb}
use matchline.Base.Lists.{length}
use matchline.Base.Texts.{Text, text_beq}

module _ {ℓ} {A : Type ℓ} where
  abbrev pub take : ℕ → List A → List A
  take zero xs = []
  take (suc n) [] = []
  take (suc n) (x ∷ xs) = x ∷ take n xs

  -- `xs.slice(n)`
  abbrev pub drop : ℕ → List A → List A
  drop zero xs = xs
  drop (suc n) [] = []
  drop (suc n) (x ∷ xs) = drop n xs

  -- `xs.slice(from, to)`
  abbrev pub slice_range : ℕ → ℕ → List A → List A
  slice_range from to xs = take (to - from) (drop from xs)

  pub length-drop : (n : ℕ) (xs : List A) → length (drop n xs) ≡ length xs - n
  length-drop zero xs = omega arith
  length-drop (suc n) [] = omega arith
  length-drop (suc n) (x ∷ xs) = omega (arith, length-drop n xs)

  pub drop-append : (xs ys : List A) → drop (length xs) (xs ++ ys) ≡ ys
  drop-append [] ys = refl
  drop-append (x ∷ xs) ys = drop-append xs ys

  pub take-append : (xs ys : List A) → take (length xs) (xs ++ ys) ≡ xs
  take-append [] ys = refl
  take-append (x ∷ xs) ys = ap (◌∷◌ x) (take-append xs ys)

  pub append_take-drop : (n : ℕ) (xs : List A) → take n xs ++ drop n xs ≡ xs
  append_take-drop zero xs = refl
  append_take-drop (suc n) [] = refl
  append_take-drop (suc n) (x ∷ xs) = ap (◌∷◌ x) (append_take-drop n xs)

-- `s.startsWith(p)`
abbrev pub starts_with : Text → Text → Bool
starts_with s [] = true
starts_with [] (c ∷ p) = false
starts_with (d ∷ s) (c ∷ p) = nat_beq d c && starts_with s p

-- `s.endsWith(p)`
abbrev pub ends_with : Text → Text → Bool
ends_with s p = leb (length p) (length s) && text_beq (drop (length s - length p) s) p

pub starts_with_iff : (s p : Text) → (starts_with s p ≡ true) ↔ ((r : Text) × (s ≡ p ++ r))
starts_with_iff s [] = (λ _. (s, refl), λ _. refl)
starts_with_iff [] (c ∷ p) = (λ h. cc, λ (r, e). cc)
starts_with_iff (d ∷ s) (c ∷ p) = (
  λ h.
      let (r, e) = (starts_with_iff s p).0 (ground arith) in
      let same : d ≡ c = ground arith in (r, cc),
  λ (r, e).
      let rest : starts_with s p ≡ true = (starts_with_iff s p).1 (r, cc) in
      let same : d ≡ c = cc in ground arith,
)

pub starts_with-append : (p r : Text) → starts_with (p ++ r) p ≡ true
starts_with-append p r = (starts_with_iff (p ++ r) p).1 (r, refl)

-- `xs.join(separator)`
abbrev pub join_with : Text → List Text → Text
join_with separator [] = []
join_with separator (x ∷ []) = x
join_with separator (x ∷ y ∷ xs) = x ++ (separator ++ join_with separator (y ∷ xs))

-- `s.split(c)` for a separator of one code unit: the pieces of what is left, the first of which
-- follows `piece`.
abbrev pub split_from : ℕ → Text → Text → List Text
split_from c piece [] = piece ∷ []
split_from c piece (d ∷ s) =
    if nat_beq d c then piece ∷ split_from c [] s else split_from c (piece ++ d ∷ []) s

abbrev pub split : ℕ → Text → List Text
split c s = split_from c [] s

-- `String(n)` for a natural number: decimal digits. Fuel `n` is enough, since a quotient by ten is
-- smaller.
unfoldable pub digits : ℕ → ℕ → Text
digits zero n = (48 + n % 10) ∷ []
digits (suc fuel) n =
    let rest = digits fuel (n / 10) in
    if ltb n 10 then (48 + n) ∷ [] else rest ++ (48 + n % 10) ∷ []

abbrev pub decimal : ℕ → Text
decimal n = digits n n
