-- ===== src/Ssm/ReviewKey/Joined.antt =====
-- packages/ssm-compiler/src/order.ts, `composeKey` and `fieldList`: parts joined by a separator.
use matchline.Base.{
  ◌≡◌, ◌≢◌, refl, sym, ap₂, ℕ, List, [], ◌∷◌, ◌++◌, map, arith, Text, All, All-append,
}
use matchline.Ssm.ReviewKey.{field, field_list, join, key_separator, list_separator}
use matchline.Ssm.ReviewKey.Fields.{Lacks, field-Lacks, field-injective}

Lacks-append : (c : ℕ) (x r s : Text) → Lacks c s → s ≢ x ++ c ∷ r
Lacks-append c [] r [] l e = cc
Lacks-append c [] r (d ∷ s) (n, l) e = n cc
Lacks-append c (b ∷ x) r [] l e = cc
Lacks-append c (b ∷ x) r (d ∷ s) (n, l) e = Lacks-append c x r s l cc

-- The first separator stands at one place only.
cut : (c : ℕ) (x y r q : Text) → Lacks c x → Lacks c y → x ++ c ∷ r ≡ y ++ c ∷ q → (x ≡ y) × (r ≡ q)
cut c [] [] r q l m e = (refl, cc)
cut c [] (d ∷ y) r q l (n, m) e = absurd (n cc)
cut c (d ∷ x) [] r q (n, l) m e = absurd (n cc)
cut c (d ∷ x) (b ∷ y) r q (n, l) (o, m) e = let (f, g) = cut c x y r q l m cc in (cc, g)

-- Parts without the separator are told by what they are joined to.
pub join-injective :
    (c : ℕ) (x y : Text) (xs ys : List Text)
    → All (Lacks c) (x ∷ xs)
    → All (Lacks c) (y ∷ ys)
    → join c (x ∷ xs) ≡ join c (y ∷ ys)
    → (x ≡ y) × (xs ≡ ys)
unfolding join
join-injective c x y [] [] l m e = (e, refl)
join-injective c x y [] (z ∷ ys) (l, _) m e = absurd (Lacks-append c y (join c (z ∷ ys)) x l e)
join-injective c x y (w ∷ xs) [] l (m, _) e =
    absurd (Lacks-append c x (join c (w ∷ xs)) y m (sym e))
join-injective c x y (w ∷ xs) (z ∷ ys) (l, ls) (m, ms) e =
    let (f, g) = cut c x y (join c (w ∷ xs)) (join c (z ∷ ys)) l m e in
    let (h, k) = join-injective c w z xs ys ls ms g in (f, ap₂ (λ a b. a ∷ b) h k)

join-Lacks : (c d : ℕ) → d ≢ c → (xs : List Text) → All (Lacks c) xs → Lacks c (join d xs)
unfolding join
join-Lacks c d n [] _ = tt
join-Lacks c d n (x ∷ []) (l, _) = l
join-Lacks c d n (x ∷ y ∷ xs) (l, ls) =
    All-append (λ e. e ≢ c) x (d ∷ join d (y ∷ xs)) l (n, join-Lacks c d n (y ∷ xs) ls)

fields-Lacks :
    (xs : List Text)
    → All (Lacks key_separator) (map field xs) × All (Lacks list_separator) (map field xs)
fields-Lacks [] = (tt, tt)
fields-Lacks (x ∷ xs) =
    let (k, l) = field-Lacks x in let (ks, ls) = fields-Lacks xs in ((k, ks), (l, ls))

pub field_list-Lacks : (xs : List Text) → Lacks key_separator (field_list xs)
unfolding field_list
field_list-Lacks xs =
    join-Lacks key_separator list_separator (λ e. omega arith) (map field xs) (fields-Lacks xs).0

fields-injective : (xs ys : List Text) → map field xs ≡ map field ys → xs ≡ ys
fields-injective [] [] e = refl
fields-injective [] (y ∷ ys) e = cc
fields-injective (x ∷ xs) [] e = cc
fields-injective (x ∷ xs) (y ∷ ys) e =
    ap₂ (λ a b. a ∷ b) (field-injective x y cc) (fields-injective xs ys cc)

pub field_list-injective :
    (x y : Text) (xs ys : List Text) → field_list (x ∷ xs) ≡ field_list (y ∷ ys) → x ∷ xs ≡ y ∷ ys
unfolding field_list
field_list-injective x y xs ys e =
    let (f, g) =
      join-injective list_separator (field x) (field y) (map field xs) (map field ys)
        (fields-Lacks (x ∷ xs)).1 (fields-Lacks (y ∷ ys)).1 e in
    ap₂ (λ a b. a ∷ b) (field-injective x y f) (fields-injective xs ys g)
