-- ===== src/Flow/Weights.antt =====
-- The measure of the walks over a graph: what the nodes that a walk has not seen weigh.
use matchline.Base.{
  ◌≡◌, ℕ, ◌+◌, ◌≤◌, Bool, true, false, ◌||◌, [], ◌∷◌, some, if◌then◌else◌, arith, Text, text_eq,
  text_beq_iff, ◌==◌, Map, get,
}

module _ {ℓ} {V : Type ℓ} (weight : V → ℕ) where
  abbrev pub weight_left : (Text → Bool) → Map Text V → ℕ
  weight_left seen [] = 0
  weight_left seen ((k, v) ∷ m) =
      if seen k then weight_left seen m else weight v + weight_left seen m

  abbrev pub Extends : (Text → Bool) → (Text → Bool) → Text → Type 0
  Extends more seen k = (x : Text) → more x ≡ (seen x || (k == x))

  pub weight_left-more :
      (seen more : Text → Bool) (k : Text) (m : Map Text V)
      → Extends more seen k
      → weight_left more m ≤ weight_left seen m
  weight_left-more seen more k [] e = omega arith
  weight_left-more seen more k ((j, v) ∷ m) e =
      ground (arith, weight_left-more seen more k m e, e j)

  -- Seeing a node takes its weight off.
  pub weight_left-seen :
      (seen more : Text → Bool) (k : Text) (v : V) (m : Map Text V)
      → Extends more seen k
      → seen k ≡ false
      → get m k ≡ some v
      → weight_left more m + weight v ≤ weight_left seen m
  weight_left-seen seen more k v [] e new h = cc
  weight_left-seen seen more k v ((j, w) ∷ m) e new h = ground (
    arith,
    weight_left-seen seen more k v m e new,
    weight_left-more seen more k m e,
    e j,
    text_beq_iff j k,
    text_beq_iff k j,
  )

  pub weight_left-le :
      (seen : Text → Bool) (m : Map Text V) → weight_left seen m ≤ weight_left (λ _. false) m
  weight_left-le seen [] = omega arith
  weight_left-le seen ((k, v) ∷ m) = ground (arith, weight_left-le seen m)

  -- Seeing more leaves no more to weigh.
  pub weight_left_sub :
      (seen more : Text → Bool) (m : Map Text V)
      → ((x : Text) → seen x ≡ true → more x ≡ true)
      → weight_left more m ≤ weight_left seen m
  weight_left_sub seen more [] h = omega arith
  weight_left_sub seen more ((k, v) ∷ m) h = ground (arith, weight_left_sub seen more m h, h k)
