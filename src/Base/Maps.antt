-- ===== src/Base/Maps.antt =====
-- A JavaScript `Map` as the list of its entries in insertion order.
use mathlib.Core.Bool.{Bool, true, false, ◌||◌}
use mathlib.Core.List.{List, [], ◌∷◌, ◌++◌}
use mathlib.Core.Logic.{inl, inr}
use mathlib.Core.Option.{Option, none, some}
use mathlib.Core.Path.{◌≡◌, refl, ap}
use native.Mathlib.Omega.{arith}
use matchline.Base.Tests.{if◌then◌else◌, Eq, ◌==◌, Bool-cases}
use matchline.Base.Lists.{IsDistinct, IsDistinct-concat, includes, All}

abbrev pub Map {ℓ κ} : Type ℓ → Type κ → Type (ℓ ⊔ κ)
Map K V = List (K × V)

module _ {ℓ κ} {K : Type ℓ} {V : Type κ} where
  -- `[...m.keys()]` and `[...m.values()]`
  abbrev pub keys : Map K V → List K
  keys [] = []
  keys ((k, v) ∷ m) = k ∷ keys m

  abbrev pub values : Map K V → List V
  values [] = []
  values ((k, v) ∷ m) = v ∷ values m

module _ {ℓ κ} {K : Type ℓ} {V : Type κ} ⦃e : Eq K⦄ where
  abbrev pub get : Map K V → K → Option V
  get [] k = none
  get ((j, v) ∷ m) k = if j == k then some v else get m k

  abbrev pub has : Map K V → K → Bool
  has m k = includes (keys m) k

  -- `m.set(k, v)`: a key that is there keeps its place.
  abbrev pub put : Map K V → K → V → Map K V
  put [] k v = (k, v) ∷ []
  put ((j, w) ∷ m) k v = if j == k then (j, v) ∷ m else (j, w) ∷ put m k v

  -- `if (!m.has(k)) m.set(k, v)`
  abbrev pub put_new : Map K V → K → V → Map K V
  put_new m k v = if has m k then m else put m k v

  pub get-put :
      (m : Map K V) (k j : K) (v : V) → get (put m k v) j ≡ (if k == j then some v else get m j)
  get-put [] k j v = refl
  get-put ((i, w) ∷ m) k j v =
      ground (arith, e.beq_iff i k, e.beq_iff i j, e.beq_iff k j, get-put m k j v)

  pub has-put : (m : Map K V) (k j : K) (v : V) → has (put m k v) j ≡ ((k == j) || has m j)
  has-put [] k j v = refl
  has-put ((i, w) ∷ m) k j v =
      ground (arith, e.beq_iff i k, e.beq_iff i j, e.beq_iff k j, has-put m k j v)

  -- A lookup answers exactly for the keys.
  pub get-none_of_has : (m : Map K V) (k : K) → has m k ≡ false → get m k ≡ none
  get-none_of_has [] k h = refl
  get-none_of_has ((j, v) ∷ m) k h = ground (arith, get-none_of_has m k)

  pub get-some_of_has : (m : Map K V) (k : K) → has m k ≡ true → (v : V) × (get m k ≡ some v)
  get-some_of_has [] k h = cc
  get-some_of_has ((j, v) ∷ m) k h = elim (Bool-cases (j == k)) [
    | inl here ↦ (v, rw here)
    | inr there ↦ let (w, found) = get-some_of_has m k (rw there at h) in (w, rw there found)
  ]

  pub has_of_get : (m : Map K V) (k : K) (v : V) → get m k ≡ some v → has m k ≡ true
  has_of_get [] k v h = cc
  has_of_get ((j, w) ∷ m) k v h = ground (arith, has_of_get m k v)

  -- Writing an old key leaves the keys, and a new key goes to the end.
  pub keys-put_old : (m : Map K V) (k : K) (v : V) → has m k ≡ true → keys (put m k v) ≡ keys m
  keys-put_old [] k v h = cc
  keys-put_old ((j, w) ∷ m) k v h = ground (arith, keys-put_old m k v)

  pub put_of_new : (m : Map K V) (k : K) (v : V) → has m k ≡ false → put m k v ≡ m ++ (k, v) ∷ []
  put_of_new [] k v h = refl
  put_of_new ((j, w) ∷ m) k v h = ground (arith, put_of_new m k v)

  pub get-put_new :
      (m : Map K V) (k j : K) (v : V)
      → get (put_new m k v) j ≡ (if has m j then get m j else if k == j then some v else none)
  get-put_new m k j v = ground (arith, get-put m k j v, get-none_of_has m j, e.beq_iff k j)

  -- What holds of every value holds of the one that is found.
  pub All_get {μ} :
      (P : V → Type μ) (m : Map K V) (k : K) (v : V) → All P (values m) → get m k ≡ some v → P v
  All_get P [] k v _ h = cc
  All_get P ((j, w) ∷ m) k v (p, ps) h = ground (arith, All_get P m k v ps)

  pub All-put {μ} :
      (P : V → Type μ) (m : Map K V) (k : K) (v : V)
      → All P (values m)
      → P v
      → All P (values (put m k v))
  All-put P [] k v _ p = (p, tt)
  All-put P ((j, w) ∷ m) k v (q, qs) p = ground (arith, All-put P m k v qs p)

  keys-append : (m n : Map K V) → keys (m ++ n) ≡ keys m ++ keys n
  keys-append [] n = refl
  keys-append ((k, v) ∷ m) n = ap (◌∷◌ k) (keys-append m n)

  -- A map keeps its keys apart.
  pub put-IsDistinct :
      (m : Map K V) (k : K) (v : V) → IsDistinct (keys m) → IsDistinct (keys (put m k v))
  put-IsDistinct m k v d = elim (Bool-cases (has m k)) [
    | inl old ↦ rw (keys-put_old m k v old) d
    | inr new ↦
        rw (put_of_new m k v new, keys-append m ((k, v) ∷ [])) (IsDistinct-concat (keys m) k d new)
  ]

  pub put_new-IsDistinct :
      (m : Map K V) (k : K) (v : V) → IsDistinct (keys m) → IsDistinct (keys (put_new m k v))
  put_new-IsDistinct m k v d = ground (arith, put-IsDistinct m k v d)
