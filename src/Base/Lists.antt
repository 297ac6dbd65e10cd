-- ===== src/Base/Lists.antt =====
-- Lists measured and indexed by native numbers, Boolean search, and predicates by recursion.
use Prim.Native.Nat.{ℕ, zero, suc, ◌+◌}
use mathlib.Core.Bool.{Bool, true, false, ◌||◌}
use mathlib.Core.List.{List, [], ◌∷◌, ◌++◌}
use mathlib.Core.Logic.{◌⊎◌, inl, inr}
use mathlib.Core.Option.{Option, none, some}
use mathlib.Core.Path.{◌≡◌, refl}
use native.Mathlib.Omega.{arith}
use matchline.Base.Tests.{if◌then◌else◌, Eq, ◌==◌}

module _ {ℓ} {A : Type ℓ} where
  abbrev pub length : List A → ℕ
  length [] = 0
  length (x ∷ xs) = suc (length xs)

  pub length-append : (xs ys : List A) → length (xs ++ ys) ≡ length xs + length ys
  length-append [] ys = omega arith
  length-append (x ∷ xs) ys = omega (arith, length-append xs ys)

  -- `xs.filter(p)`
  abbrev pub keep_if : (A → Bool) → List A → List A
  keep_if p [] = []
  keep_if p (x ∷ xs) = if p x then x ∷ keep_if p xs else keep_if p xs

  -- `xs.some(p)`
  abbrev pub any : (A → Bool) → List A → Bool
  any p [] = false
  any p (x ∷ xs) = p x || any p xs

  -- `xs.find(p)`
  abbrev pub find : (A → Bool) → List A → Option A
  find p [] = none
  find p (x ∷ xs) = if p x then some x else find p xs

  abbrev pub get_elem? : List A → ℕ → Option A
  get_elem? [] i = none
  get_elem? (x ∷ xs) zero = some x
  get_elem? (x ∷ xs) (suc i) = get_elem? xs i

  pub List-cases : (xs : List A) → (xs ≡ []) ⊎ ((x : A) × (rest : List A) × (xs ≡ x ∷ rest))
  List-cases [] = inl refl
  List-cases (x ∷ xs) = inr (x, xs, refl)

module _ {ℓ κ} {A : Type ℓ} (P : A → Type κ) where
  -- A predicate by recursion computes to tuples, which the tactics read and build.
  abbrev pub All : List A → Type κ
  All [] = Unit
  All (x ∷ xs) = P x × All xs

  pub All-append : (xs ys : List A) → All xs → All ys → All (xs ++ ys)
  All-append [] ys _ k = k
  All-append (x ∷ xs) ys (p, h) k = (p, All-append xs ys h k)

  pub All-concat : (xs : List A) {x : A} → All xs → P x → All (xs ++ x ∷ [])
  All-concat [] _ p = (p, tt)
  All-concat (y ∷ xs) (q, h) p = (q, All-concat xs h p)

  pub All-keep_if : (p : A → Bool) (xs : List A) → All xs → All (keep_if p xs)
  All-keep_if p [] _ = tt
  All-keep_if p (x ∷ xs) (h, hs) = ground (arith, All-keep_if p xs hs)

pub All-imp {ℓ κ μ} :
    {A : Type ℓ} {P : A → Type κ} {Q : A → Type μ}
    → ((a : A) → P a → Q a)
    → (xs : List A) → All P xs
    → All Q xs
All-imp f [] _ = tt
All-imp f (x ∷ xs) (p, h) = (f x p, All-imp f xs h)

-- `xs.includes(a)`, and `has` of a JavaScript `Set` whose values are listed.
module _ {ℓ} {A : Type ℓ} ⦃e : Eq A⦄ where
  abbrev pub includes : List A → A → Bool
  includes [] a = false
  includes (x ∷ xs) a = (x == a) || includes xs a

  pub includes-append :
      (xs ys : List A) (a : A) → includes (xs ++ ys) a ≡ (includes xs a || includes ys a)
  includes-append [] ys a = refl
  includes-append (x ∷ xs) ys a = ground (arith, includes-append xs ys a)

  pub All_lookup {κ} :
      (P : A → Type κ) (xs : List A) (a : A) → All P xs → includes xs a ≡ true → P a
  All_lookup P [] a _ h = cc
  All_lookup P (x ∷ xs) a (p, ps) h = ground (arith, e.beq_iff x a, All_lookup P xs a ps)

  pub All-of_includes {κ} :
      (P : A → Type κ) (xs : List A) → ((a : A) → includes xs a ≡ true → P a) → All P xs
  All-of_includes P [] h = tt
  All-of_includes P (x ∷ xs) h =
      (h x (ground (arith, e.beq_iff x x)), All-of_includes P xs (λ a i. h a (ground arith)))

  -- `set.add(a)`: a value that is there keeps its place.
  abbrev pub add : List A → A → List A
  add xs a = if includes xs a then xs else xs ++ a ∷ []

  pub includes-add : (xs : List A) (a b : A) → includes (add xs a) b ≡ (includes xs b || (a == b))
  includes-add xs a b = ground (arith, includes-append xs (a ∷ []) b, e.beq_iff a b)

  -- `[...new Set(xs)]`
  abbrev pub distinct_from : List A → List A → List A
  distinct_from seen [] = seen
  distinct_from seen (x ∷ xs) = distinct_from (add seen x) xs

  abbrev pub IsDistinct : List A → Type 0
  IsDistinct [] = Unit
  IsDistinct (x ∷ xs) = (includes xs x ≡ false) × IsDistinct xs

  pub IsDistinct-concat :
      (ks : List A) (k : A) → IsDistinct ks → includes ks k ≡ false → IsDistinct (ks ++ k ∷ [])
  IsDistinct-concat [] k d n = (refl, tt)
  IsDistinct-concat (j ∷ ks) k (new, d) n =
      ground (
        arith,
        IsDistinct-concat ks k d,
        includes-append ks (k ∷ []) j,
        e.beq_iff j k,
        e.beq_iff k j,
      )

module _ {ℓ κ} {A : Type ℓ} (P : A → Type κ) where
  -- `a` is the first element that has `P`: it stands in the list, and none before it has `P`.
  pub data First : List A → A → Type (ℓ ⊔ κ) where
    found : {x : A} {xs : List A} → P x → First (x ∷ xs) x
    later : {x a : A} {xs : List A} → (¬ P x) → First xs a → First (x ∷ xs) a

  pub First-unique : {xs : List A} {a b : A} → First xs a → First xs b → a ≡ b
  First-unique (found p) (found q) = refl
  First-unique (found p) (later n q) = absurd (n p)
  First-unique (later n p) (found q) = absurd (n q)
  First-unique (later n p) (later m q) = First-unique p q

  pub First-has : {xs : List A} {a : A} → First xs a → P a
  First-has (found p) = p
  First-has (later n p) = First-has p

  pub not-All_of_First : {xs : List A} {a : A} → First xs a → ¬ All (λ x. ¬ P x) xs
  not-All_of_First (found p) (n, _) = n p
  not-All_of_First (later n p) (_, ns) = not-All_of_First p ns
