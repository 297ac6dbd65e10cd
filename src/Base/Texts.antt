-- ===== src/Base/Texts.antt =====
-- JavaScript strings as lists of UTF-16 code units, and `<` on them (code-unit order).
use Prim.Native.Char.{code}
use Prim.Native.Nat.{ℕ, compare, Ordering}
use Prim.Native.String.{String}
use mathlib.Core.Bool.{Bool, true, false, ◌&&◌}
use mathlib.Core.List.{List, [], ◌∷◌}
use mathlib.Core.Logic.{◌↔◌}
use mathlib.Core.Path.{◌≡◌, refl, ap}
use native.Mathlib.Omega.{arith}
use matchline.Base.Tests.{Eq, nat_beq}
use matchline.Base.Orders.{then_by, flip, IsTotalOrder}

abbrev pub Text : Type 0
Text = List ℕ

-- A literal's code units. (All literals of the modelled sources lie in the basic plane.)
abbrev pub text : String → Text
text String.[] = []
text (String.◌∷◌ c s) = code c ∷ text s

abbrev pub text_beq : Text → Text → Bool
text_beq [] [] = true
text_beq [] (d ∷ t) = false
text_beq (c ∷ s) [] = false
text_beq (c ∷ s) (d ∷ t) = nat_beq c d && text_beq s t

pub text_beq_iff : (s t : Text) → (text_beq s t ≡ true) ↔ (s ≡ t)
text_beq_iff [] [] = (λ _. refl, λ _. refl)
text_beq_iff [] (d ∷ t) = (λ h. cc, λ h. cc)
text_beq_iff (c ∷ s) [] = (λ h. cc, λ h. cc)
text_beq_iff (c ∷ s) (d ∷ t) = ground (arith, text_beq_iff s t)

instance abbrev pub text_eq : Eq Text
text_eq = record { beq = text_beq; beq_iff = text_beq_iff }

-- `compareText`, which every package declares for itself with this body: -1 if `left < right`,
-- else 1 if `left > right`, else 0, by code units; a proper prefix comes first.
unfoldable pub compare_text : Text → Text → Ordering
compare_text [] [] = Ordering.eq
compare_text [] (d ∷ t) = Ordering.lt
compare_text (c ∷ s) [] = Ordering.gt
compare_text (c ∷ s) (d ∷ t) = then_by (compare c d) (compare_text s t)

compare_text-swap : (s t : Text) → compare_text t s ≡ flip (compare_text s t)
unfolding compare_text
compare_text-swap [] [] = refl
compare_text-swap [] (d ∷ t) = refl
compare_text-swap (c ∷ s) [] = refl
compare_text-swap (c ∷ s) (d ∷ t) = ground (arith, compare_text-swap s t)

compare_text-antisym : (s t : Text) → compare_text s t ≡ Ordering.eq → s ≡ t
unfolding compare_text
compare_text-antisym [] [] h = refl
compare_text-antisym [] (d ∷ t) h = cc
compare_text-antisym (c ∷ s) [] h = cc
compare_text-antisym (c ∷ s) (d ∷ t) h = ground (arith, compare_text-antisym s t)

compare_text_trans :
    (s t u : Text)
    → compare_text s t ≡ Ordering.lt
    → compare_text t u ≡ Ordering.lt
    → compare_text s u ≡ Ordering.lt
unfolding compare_text
compare_text_trans [] [] u p q = cc
compare_text_trans [] (d ∷ t) [] p q = cc
compare_text_trans [] (d ∷ t) (e ∷ u) p q = refl
compare_text_trans (c ∷ s) [] u p q = cc
compare_text_trans (c ∷ s) (d ∷ t) [] p q = cc
compare_text_trans (c ∷ s) (d ∷ t) (e ∷ u) p q =
    ground (arith, compare_text_trans s t u, compare_text-antisym s t, compare_text-antisym t u)

pub compare_text-IsTotalOrder : IsTotalOrder compare_text
compare_text-IsTotalOrder = record {
  order = record {
    swap = compare_text-swap;
    trans = compare_text_trans;
    same = λ s t u h. ap (λ v. compare_text v u) (compare_text-antisym s t h);
  };
  antisym = compare_text-antisym;
}
