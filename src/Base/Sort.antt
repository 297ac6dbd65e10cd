-- ===== src/Base/Sort.antt =====
-- `Array.prototype.sort`, which is stable: insertion from the right puts an element before those
-- that compare equal to it.
use mathlib.Core.List.{List, [], ◌∷◌, Perm, Permᴰ, Mem, mem-cons_self, mem-cons_of_mem}
use mathlib.Core.List.Perm
use mathlib.Core.Logic.{◌≢◌, ∥∥₁_elim}
use mathlib.Core.Path.{◌≡◌, refl, ap₂, ◌∙◌}
use Prim.Native.Nat.{Ordering}
use native.Mathlib.Omega.{arith}
use matchline.Base.Lists.{All, All-imp, includes, IsDistinct}
use mathlib.Core.Bool.{false, ◌||◌}
use matchline.Base.Tests.{Eq, ◌==◌}
use matchline.Base.Orders.{Comparator, IsOrder}

module _ {ℓ} {A : Type ℓ} (c : Comparator A) where
  abbrev pub insert : A → List A → List A
  insert x [] = x ∷ []
  insert x (y ∷ ys) = elim (c x y) [ Ordering.gt ↦ y ∷ insert x ys | _ ↦ x ∷ y ∷ ys ]

  abbrev pub sort : List A → List A
  sort [] = []
  sort (x ∷ xs) = insert x (sort xs)

  -- No element stands behind one that it must precede.
  abbrev pub IsSorted : List A → Type ℓ
  IsSorted [] = Unit
  IsSorted (x ∷ xs) = All (λ y. c x y ≢ Ordering.gt) xs × IsSorted xs

  insert-perm : (x : A) (xs : List A) → Perm (insert x xs) (x ∷ xs)
  insert-perm x [] = Perm.rfl
  insert-perm x (y ∷ ys) = ground (
    arith,
    Perm.trans (Perm.cons y (insert-perm x ys)) (Perm.swap x y ys),
    Perm.refl (x ∷ y ∷ ys),
  )

  -- A sort keeps the elements, each as often.
  pub sort-perm : (xs : List A) → Perm (sort xs) xs
  sort-perm [] = Perm.rfl
  sort-perm (x ∷ xs) = Perm.trans (insert-perm x (sort xs)) (Perm.cons x (sort-perm xs))

  module _ {κ} (P : A → Type κ) where
    All-insert : (x : A) (xs : List A) → P x → All P xs → All P (insert x xs)
    All-insert x [] p _ = (p, tt)
    All-insert x (y ∷ ys) p (q, qs) = ground (arith, All-insert x ys p qs)

    pub All-sort : (xs : List A) → All P xs → All P (sort xs)
    All-sort [] _ = tt
    All-sort (x ∷ xs) (p, ps) = All-insert x (sort xs) p (All-sort xs ps)

    All-of_insert : (x : A) (xs : List A) → All P (insert x xs) → P x × All P xs
    All-of_insert x [] h = h
    All-of_insert x (y ∷ ys) h = ground (arith, All-of_insert x ys)

    pub All-of_sort : (xs : List A) → All P (sort xs) → All P xs
    All-of_sort [] _ = tt
    All-of_sort (x ∷ xs) h = let (p, ps) = All-of_insert x (sort xs) h in (p, All-of_sort xs ps)

module _ {ℓ} {A : Type ℓ} {c : Comparator A} (o : IsOrder c) where
  pub le_trans : (x y z : A) → c x y ≢ Ordering.gt → c y z ≢ Ordering.gt → c x z ≢ Ordering.gt
  le_trans x y z p q =
      ground (arith, o.trans x y z, o.same x y z, o.same y z x, o.swap y z, o.swap x y, o.swap x z)

  All-insert_le :
      (z x : A) (xs : List A)
      → c z x ≢ Ordering.gt
      → All (λ y. c z y ≢ Ordering.gt) xs
      → All (λ y. c z y ≢ Ordering.gt) (insert c x xs)
  All-insert_le z x xs p ps = All-insert c (λ y. c z y ≢ Ordering.gt) x xs p ps

  All-le_of_le :
      (x y : A) (xs : List A)
      → c x y ≢ Ordering.gt
      → All (λ z. c y z ≢ Ordering.gt) xs
      → All (λ z. c x z ≢ Ordering.gt) xs
  All-le_of_le x y xs p = All-imp (λ z q. le_trans x y z p q) xs

  insert-IsSorted : (x : A) (xs : List A) → IsSorted c xs → IsSorted c (insert c x xs)
  insert-IsSorted x [] _ = (tt, tt)
  insert-IsSorted x (y ∷ ys) (least, rest) =
      ground
        (arith, insert-IsSorted x ys rest, All-insert_le y x ys, All-le_of_le x y ys, o.swap x y)

  -- The result of a sort is sorted.
  pub sort-IsSorted : (xs : List A) → IsSorted c (sort c xs)
  sort-IsSorted [] = tt
  sort-IsSorted (x ∷ xs) = insert-IsSorted x (sort c xs) (sort-IsSorted xs)

  -- Two elements may be inserted in either order, if they do not compare equal while they differ.
  insert_comm :
      (x y : A) (zs : List A)
      → (c x y ≡ Ordering.eq → x ≡ y)
      → insert c x (insert c y zs) ≡ insert c y (insert c x zs)
  insert_comm x y [] h = ground (arith, o.swap x y)
  insert_comm x y (z ∷ zs) h = ground (
    arith,
    insert_comm x y zs h,
    o.swap x y,
    o.swap x z,
    o.swap y z,
    o.same x y z,
    o.trans x y z,
    o.trans y x z,
    o.same x z y,
    o.same y z x,
  )

  abbrev pub TellsApart : List A → Type ℓ
  TellsApart xs = (x y : A) → Mem x xs → Mem y xs → c x y ≡ Ordering.eq → x ≡ y

  sort-permᴰ : {xs ys : List A} → Permᴰ xs ys → TellsApart xs → sort c xs ≡ sort c ys
  sort-permᴰ Permᴰ.nil h = refl
  sort-permᴰ (Permᴰ.cons {a} {l₁ = l} e p) h =
      let ih = sort-permᴰ p (λ x y m n. h x y (mem-cons_of_mem a m) (mem-cons_of_mem a n)) in
      ap₂ (insert c) e ih
  sort-permᴰ (Permᴰ.swap {a} {b} {l} e d) h =
      rw (← e, ← d)
        (insert_comm a b (sort c l) (h a b mem-cons_self (mem-cons_of_mem a mem-cons_self)))
  sort-permᴰ (Permᴰ.trans p q) h =
      sort-permᴰ p h
      ∙ sort-permᴰ q λ x y m n. h x y ((Perm.mem_iff ∣ p ∣₁).1 m) ((Perm.mem_iff ∣ p ∣₁).1 n)

  -- A sort forgets the order of its input, if the comparator tells its elements apart.
  pub sort_of_perm :
      {xs ys : List A} → IsSet (List A) → Perm xs ys → TellsApart xs → sort c xs ≡ sort c ys
  sort_of_perm is_set p h = ∥∥₁_elim p (is_set _ _) (λ d. sort-permᴰ d h)

module _ {ℓ} {A : Type ℓ} ⦃e : Eq A⦄ (c : Comparator A) where
  includes-insert :
      (x : A) (xs : List A) (a : A) → includes (insert c x xs) a ≡ (x == a || includes xs a)
  includes-insert x [] a = refl
  includes-insert x (y ∷ ys) a = ground (arith, includes-insert x ys a)

  pub includes-sort : (xs : List A) (a : A) → includes (sort c xs) a ≡ includes xs a
  includes-sort [] a = refl
  includes-sort (x ∷ xs) a = rw (includes-insert x (sort c xs) a, includes-sort xs a)

  insert-IsDistinct :
      (x : A) (xs : List A) → includes xs x ≡ false → IsDistinct xs → IsDistinct (insert c x xs)
  insert-IsDistinct x [] new d = (refl, tt)
  insert-IsDistinct x (y ∷ ys) new (h, d) =
      ground (arith, insert-IsDistinct x ys, includes-insert x ys y, e.beq_iff x y, e.beq_iff y x)

  pub sort-IsDistinct : (xs : List A) → IsDistinct xs → IsDistinct (sort c xs)
  sort-IsDistinct [] d = tt
  sort-IsDistinct (x ∷ xs) (new, d) =
      insert-IsDistinct x (sort c xs) (includes-sort xs x ∙ new) (sort-IsDistinct xs d)
