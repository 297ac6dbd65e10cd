-- ===== src/Base/Perms.antt =====
-- What a list keeps when it is put in another order.
use Prim.Native.Nat.{suc}
use mathlib.Core.List.{List, map, Perm, Permᴰ}
use mathlib.Core.Logic.{∥∥₁_elim}
use mathlib.Core.Path.{◌≡◌, refl, ap, ◌∙◌}
use native.Mathlib.Omega.{arith}
use matchline.Base.Tests.{Eq}
use matchline.Base.Lists.{length, includes}

module _ {ℓ} {A : Type ℓ} where
  length_of_permᴰ : {xs ys : List A} → Permᴰ xs ys → length xs ≡ length ys
  length_of_permᴰ Permᴰ.nil = refl
  length_of_permᴰ (Permᴰ.cons e p) = ap suc (length_of_permᴰ p)
  length_of_permᴰ (Permᴰ.swap e d) = refl
  length_of_permᴰ (Permᴰ.trans p q) = length_of_permᴰ p ∙ length_of_permᴰ q

  pub length_of_perm : {xs ys : List A} → Perm xs ys → length xs ≡ length ys
  length_of_perm {xs} {ys} p =
      let is_prop : IsProp (length xs ≡ length ys) = hlevel in ∥∥₁_elim p is_prop length_of_permᴰ

module _ {ℓ κ} {A : Type ℓ} {B : Type κ} ⦃e : Eq B⦄ (f : A → B) (b : B) where
  includes_of_permᴰ : {xs ys : List A} → Permᴰ xs ys → includes (map f xs) b ≡ includes (map f ys) b
  includes_of_permᴰ Permᴰ.nil = refl
  includes_of_permᴰ (Permᴰ.cons {a} {l₁ = l} same p) =
      let ih = includes_of_permᴰ p in rw (same, ih) refl
  includes_of_permᴰ (Permᴰ.swap {a} {b = c} {l} same same2) = rw (same, same2) (ground arith)
  includes_of_permᴰ (Permᴰ.trans p q) = includes_of_permᴰ p ∙ includes_of_permᴰ q

  -- The values of `f` on a list forget its order.
  pub includes_of_perm :
      {xs ys : List A} → Perm xs ys → includes (map f xs) b ≡ includes (map f ys) b
  includes_of_perm {xs} {ys} p =
      let is_prop : IsProp (includes (map f xs) b ≡ includes (map f ys) b) = hlevel in
      ∥∥₁_elim p is_prop includes_of_permᴰ
