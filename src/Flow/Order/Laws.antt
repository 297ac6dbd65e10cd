-- ===== src/Flow/Order/Laws.antt =====
-- packages/electrical-flow/src/order.ts, `comparePaths`: an order that tells all paths apart.
use matchline.Base.{
  ◌≡◌, refl, ap, List, [], ◌∷◌, Ordering, flip, arith, Text, compare_text,
  compare_text-IsTotalOrder, IsTotalOrder,
}
use matchline.Flow.Order.{compare_paths}

abbrev t : IsTotalOrder compare_text
t = compare_text-IsTotalOrder

compare_paths-swap : (p q : List Text) → compare_paths q p ≡ flip (compare_paths p q)
unfolding compare_paths
compare_paths-swap [] [] = refl
compare_paths-swap [] (d ∷ q) = refl
compare_paths-swap (c ∷ p) [] = refl
compare_paths-swap (c ∷ p) (d ∷ q) = ground (arith, compare_paths-swap p q, t.order.swap c d)

compare_paths-antisym : (p q : List Text) → compare_paths p q ≡ Ordering.eq → p ≡ q
unfolding compare_paths
compare_paths-antisym [] [] h = refl
compare_paths-antisym [] (d ∷ q) h = cc
compare_paths-antisym (c ∷ p) [] h = cc
compare_paths-antisym (c ∷ p) (d ∷ q) h = ground (arith, compare_paths-antisym p q, t.antisym c d)

compare_paths_trans :
    (p q r : List Text)
    → compare_paths p q ≡ Ordering.lt
    → compare_paths q r ≡ Ordering.lt
    → compare_paths p r ≡ Ordering.lt
unfolding compare_paths
compare_paths_trans [] [] r h k = cc
compare_paths_trans [] (d ∷ q) [] h k = cc
compare_paths_trans [] (d ∷ q) (e ∷ r) h k = refl
compare_paths_trans (c ∷ p) [] r h k = cc
compare_paths_trans (c ∷ p) (d ∷ q) [] h k = cc
compare_paths_trans (c ∷ p) (d ∷ q) (e ∷ r) h k =
    ground (arith, compare_paths_trans p q r, t.antisym c d, t.antisym d e, t.order.trans c d e)

pub compare_paths-IsTotalOrder : IsTotalOrder compare_paths
compare_paths-IsTotalOrder = record {
  order = record {
    swap = compare_paths-swap;
    trans = compare_paths_trans;
    same = λ p q r h. ap (λ v. compare_paths v r) (compare_paths-antisym p q h);
  };
  antisym = compare_paths-antisym;
}
