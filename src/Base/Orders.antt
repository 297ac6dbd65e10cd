-- ===== src/Base/Orders.antt =====
-- Comparators. A JavaScript comparator answers by the sign of a number; here it answers by
-- `Ordering`, with `lt` for a negative number, `eq` for zero and `gt` for a positive one.
use Prim.Native.Nat.{compare, Ordering}
use mathlib.Core.Path.{◌≡◌}
use native.Mathlib.Omega.{arith}

abbrev pub Comparator {ℓ} : Type ℓ → Type ℓ
Comparator A = A → A → Ordering

abbrev pub flip : Ordering → Ordering
flip Ordering.lt = Ordering.gt
flip Ordering.eq = Ordering.eq
flip Ordering.gt = Ordering.lt

-- `return first !== 0 ? first : second`
abbrev pub then_by : Ordering → Ordering → Ordering
then_by Ordering.lt second = Ordering.lt
then_by Ordering.eq second = second
then_by Ordering.gt second = Ordering.gt

-- A total preorder: what a comparator must be for a sort to have a meaning.
pub record IsOrder {ℓ} {A : Type ℓ} (c : Comparator A) : Type ℓ where
  pub swap : (x y : A) → c y x ≡ flip (c x y)
  pub trans : (x y z : A) → c x y ≡ Ordering.lt → c y z ≡ Ordering.lt → c x z ≡ Ordering.lt
  pub same : (x y z : A) → c x y ≡ Ordering.eq → c x z ≡ c y z

-- One that tells all values apart.
pub record IsTotalOrder {ℓ} {A : Type ℓ} (c : Comparator A) : Type ℓ where
  pub order : IsOrder c
  pub antisym : (x y : A) → c x y ≡ Ordering.eq → x ≡ y

pub compare-IsTotalOrder : IsTotalOrder compare
compare-IsTotalOrder = record {
  order = record {
    swap = λ x y. ground arith;
    trans = λ x y z p q. ground arith;
    same = λ x y z p. ground arith;
  };
  antisym = λ x y p. ground arith;
}

-- Lexicographic combination, and comparison of what a function reads.
module _ {ℓ} {A : Type ℓ} {c d : Comparator A} (first : IsOrder c) (second : IsOrder d) where
  pub then_by-IsOrder : IsOrder (λ x y. then_by (c x y) (d x y))
  then_by-IsOrder = record {
    swap = λ x y. ground (arith, first.swap x y, second.swap x y);
    trans = λ x y z p q. ground (
      arith,
      first.trans x y z,
      second.trans x y z,
      first.same x y z,
      first.swap y z,
      first.swap x y,
      first.swap x z,
      first.same y z x,
    );
    same = λ x y z p. ground (arith, first.same x y z, second.same x y z);
  }

pub on-IsOrder {ℓ κ} :
    {A : Type ℓ} {B : Type κ} (f : A → B) {c : Comparator B}
    → IsOrder c
    → IsOrder (λ x y. c (f x) (f y))
on-IsOrder f o = record {
  swap = λ x y. o.swap (f x) (f y);
  trans = λ x y z. o.trans (f x) (f y) (f z);
  same = λ x y z. o.same (f x) (f y) (f z);
}

pub refl_of_IsOrder {ℓ} :
    {A : Type ℓ} {c : Comparator A} → IsOrder c → (x : A) → c x x ≡ Ordering.eq
refl_of_IsOrder o x = ground (arith, o.swap x x)
