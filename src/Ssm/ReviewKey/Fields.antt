-- ===== src/Ssm/ReviewKey/Fields.antt =====
-- packages/ssm-compiler/src/order.ts, `field`: the escaping of a field of a review key.
use matchline.Base.{
  ◌≡◌, ◌≢◌, refl, sym, ap₂, ◌∙◌, inl, inr, ℕ, [], ◌∷◌, if◌then◌else◌, nat_beq, nat_beq_iff, arith,
  Text, All, Bool-cases,
}
use matchline.Ssm.ReviewKey.{field, replace_all, key_separator, list_separator}

-- One code unit, escaped, before the rest.
abbrev coded : ℕ → Text → Text
coded c rest =
    if nat_beq c 37
    then 37 ∷ 50 ∷ 53 ∷ rest
    else if nat_beq c 0x241f
    then 37 ∷ 49 ∷ 70 ∷ rest
    else if nat_beq c 44
    then 37 ∷ 50 ∷ 67 ∷ rest
    else c ∷ rest

-- The three passes of `field` escape a string unit by unit.
field-cons : (c : ℕ) (s : Text) → field (c ∷ s) ≡ coded c (field s)
unfolding field replace_all
field-cons c s = elim (Bool-cases (nat_beq c 37)) [
  | inl p ↦ rw p refl
  | inr np ↦ elim (Bool-cases (nat_beq c 0x241f)) [
    | inl k ↦ rw (np, k) refl
    | inr nk ↦ elim (Bool-cases (nat_beq c 44)) [
      | inl m ↦ rw (np, nk, m) refl
      | inr nm ↦ rw (np, nk, nm) refl
    ]
  ]
]

coded-injective : (c d : ℕ) (r q : Text) → coded c r ≡ coded d q → (c ≡ d) × (r ≡ q)
coded-injective c d r q e = ground (
  arith,
  nat_beq_iff c 37,
  nat_beq_iff c 0x241f,
  nat_beq_iff c 44,
  nat_beq_iff d 37,
  nat_beq_iff d 0x241f,
  nat_beq_iff d 44,
)

field-nil : field [] ≡ []
unfolding field replace_all
field-nil = refl

coded-nonempty : (c : ℕ) (s : Text) → coded c s ≢ []
coded-nonempty c s e = ground arith

-- An escaped field keeps the string apart from every other.
pub field-injective : (s t : Text) → field s ≡ field t → s ≡ t
field-injective [] [] e = refl
field-injective [] (d ∷ t) e =
    absurd (coded-nonempty d (field t) (sym (field-cons d t) ∙ sym e ∙ field-nil))
field-injective (c ∷ s) [] e =
    absurd (coded-nonempty c (field s) (sym (field-cons c s) ∙ e ∙ field-nil))
field-injective (c ∷ s) (d ∷ t) e =
    let (f, g) =
      coded-injective c d (field s) (field t) (sym (field-cons c s) ∙ e ∙ field-cons d t) in
    ap₂ (λ x y. x ∷ y) f (field-injective s t g)

-- The code unit is not in the text.
abbrev pub Lacks : ℕ → Text → Type 0
Lacks c = All (λ d. d ≢ c)

coded-Lacks :
    (c : ℕ) (s : Text)
    → Lacks key_separator s × Lacks list_separator s
    → Lacks key_separator (coded c s) × Lacks list_separator (coded c s)
coded-Lacks c s h = ground (arith, nat_beq_iff c key_separator, nat_beq_iff c list_separator)

pub field-Lacks : (s : Text) → Lacks key_separator (field s) × Lacks list_separator (field s)
field-Lacks [] = rw field-nil (tt, tt)
field-Lacks (c ∷ s) = rw (field-cons c s) (coded-Lacks c (field s) (field-Lacks s))
