-- ===== src/Relate/Dedupe.antt =====
-- packages/relationship-claims/src/assemble.ts, `dedupe`.
use matchline.Base.{
  ◌≡◌, refl, ◌∙◌, inl, inr, true, false, ◌||◌, List, [], ◌∷◌, map, ◌==◌, arith, Text, text_eq,
  text_beq_iff, includes, includes-add, add, All, All-imp, All_lookup, IsDistinct, Comparator,
  insert, sort, Bool-cases,
}
use matchline.Domain.Claim.{SsmRelationshipClaim}
use matchline.Relate.Order.{compare_assembled}
use matchline.Relate.Output.{first_of_each, dedupe_claims, claim_key}

module _ {ℓ} {A : Type ℓ} (key : A → Text) where
  add_old : (seen : List Text) (k : Text) → includes seen k ≡ true → add seen k ≡ seen
  add_old seen k old = rw old

  first_old :
      (seen : List Text) (x : A) (xs : List A)
      → includes seen (key x) ≡ true
      → first_of_each key seen (x ∷ xs) ≡ first_of_each key seen xs
  unfolding first_of_each
  first_old seen x xs old = rw old

  first_new :
      (seen : List Text) (x : A) (xs : List A)
      → includes seen (key x) ≡ false
      → first_of_each key seen (x ∷ xs) ≡ x ∷ first_of_each key (add seen (key x)) xs
  unfolding first_of_each
  first_new seen x xs new = rw new refl

  -- The keys that are kept are new.
  kept-new :
      (seen : List Text) (xs : List A)
      → All (λ k. includes seen k ≡ false) (map key (first_of_each key seen xs))
  unfolding first_of_each
  kept-new seen [] = tt
  kept-new seen (x ∷ xs) = elim (Bool-cases (includes seen (key x))) [
    | inl old ↦ rw (first_old seen x xs old) (kept-new seen xs)
    | inr new ↦ rw (first_new seen x xs new) (
      new,
      All-imp {P = λ k. includes (add seen (key x)) k ≡ false}
          (λ k h. ground (arith, includes-add seen (key x) k)) _ (kept-new (add seen (key x)) xs),
    )
  ]

  kept-IsDistinct :
      (seen : List Text) (xs : List A) → IsDistinct (map key (first_of_each key seen xs))
  unfolding first_of_each
  kept-IsDistinct seen [] = tt
  kept-IsDistinct seen (x ∷ xs) = elim (Bool-cases (includes seen (key x))) [
    | inl old ↦ rw (first_old seen x xs old) (kept-IsDistinct seen xs)
    | inr new ↦ rw (first_new seen x xs new) (
      not-includes (map key (first_of_each key (add seen (key x)) xs))
          (kept-new (add seen (key x)) xs),
      kept-IsDistinct (add seen (key x)) xs,
    )
  ]
    where
      not-includes :
          (ks : List Text)
          → All (λ k. includes (add seen (key x)) k ≡ false) ks
          → includes ks (key x) ≡ false
      not-includes ks all = elim (Bool-cases (includes ks (key x))) [
        | inr away ↦ away
        | inl there ↦ ground (
          arith,
          All_lookup (λ k. includes (add seen (key x)) k ≡ false) ks (key x) all there,
          includes-add seen (key x) (key x),
          text_beq_iff (key x) (key x),
        )
      ]

  -- The keys are those there were.
  kept-keys :
      (seen : List Text) (xs : List A) (k : Text)
      → (includes seen k || includes (map key (first_of_each key seen xs)) k)
        ≡ (includes seen k || includes (map key xs) k)
  unfolding first_of_each
  kept-keys seen [] k = refl
  kept-keys seen (x ∷ xs) k = elim (Bool-cases (includes seen (key x))) [
    | inl old ↦
        rw (first_old seen x xs old) (ground (arith, kept-keys seen xs k, text_beq_iff (key x) k))
    | inr new ↦
        rw (first_new seen x xs new)
          (ground (arith, kept-keys (add seen (key x)) xs k, includes-add seen (key x) k))
  ]

  keys-insert :
      (c : Comparator A) (x : A) (xs : List A) (k : Text)
      → includes (map key (insert c x xs)) k ≡ (key x == k || includes (map key xs) k)
  keys-insert c x [] k = refl
  keys-insert c x (y ∷ ys) k = ground (arith, keys-insert c x ys k)

  keys-sort :
      (c : Comparator A) (xs : List A) (k : Text)
      → includes (map key (sort c xs)) k ≡ includes (map key xs) k
  keys-sort c [] k = refl
  keys-sort c (x ∷ xs) k = keys-insert c x (sort c xs) k ∙ ground (arith, keys-sort c xs k)

  pub kept-All {κ} :
      (P : A → Type κ) (seen : List Text) (xs : List A)
      → All P xs
      → All P (first_of_each key seen xs)
  unfolding first_of_each
  kept-All P seen [] _ = tt
  kept-All P seen (x ∷ xs) (p, ps) = elim (Bool-cases (includes seen (key x))) [
    | inl old ↦ rw (first_old seen x xs old) (kept-All P seen xs ps)
    | inr new ↦ rw (first_new seen x xs new) (p, kept-All P (add seen (key x)) xs ps)
  ]

-- Deduped claims have different keys, and their keys are those of all claims.
pub dedupe_claims-IsDistinct :
    (claims : List SsmRelationshipClaim)
    → IsDistinct (map claim_key (dedupe_claims claims))
      × ((k : Text)
          → includes (map claim_key (dedupe_claims claims)) k ≡ includes (map claim_key claims) k)
unfolding dedupe_claims
dedupe_claims-IsDistinct claims = (
  kept-IsDistinct claim_key [] (sort compare_assembled claims),
  λ k.
      kept-keys claim_key [] (sort compare_assembled claims) k
      ∙ keys-sort claim_key compare_assembled claims k,
)
