-- ===== src/Tags/Separators.antt =====
-- packages/tag-anatomy/src/tokens.ts, `tokenize`: the separators that are used, and which one is hit.
use matchline.Base.{
  ◌≡◌, ◌≢◌, ◌↔◌, refl, sym, ◌∙◌, inl, inr, Bool, true, false, ◌&&◌, some_injective, ◌==◌, List, [],
  ◌∷◌, none, some, arith, Text, starts_with, Bool-cases, keep_if, includes, includes-sort, text_eq,
  text_beq_iff, subst,
}
use matchline.Tags.Tokens.{active_separators, is_used, hit_at}

-- One of the listed separators, and it is not empty.
abbrev pub IsListed : List Text → Text → Type 0
IsListed separators s = (includes separators s ≡ true) × (s ≢ [])

is_used_iff : (s : Text) → (is_used s ≡ true) ↔ (s ≢ [])
is_used_iff [] = (λ e. cc, λ n. absurd (n refl))
is_used_iff (c ∷ s) = (λ e f. cc, λ n. ground arith)

includes-keep_if_used :
    (xs : List Text) (s : Text) → includes (keep_if is_used xs) s ≡ (includes xs s && is_used s)
includes-keep_if_used [] s = refl
includes-keep_if_used (x ∷ xs) s = elim (Bool-cases (is_used x)) [
  | inl used ↦ elim (Bool-cases (x == s)) [
    | inl same ↦
        let u : is_used s ≡ true = subst (λ t. is_used t ≡ true) ((text_beq_iff x s).0 same) used in
        rw (used, same, u) refl
    | inr other ↦ rw (used, other) (includes-keep_if_used xs s)
  ]
  | inr blank ↦ elim (Bool-cases (x == s)) [
    | inl same ↦
        let u : is_used s ≡ false =
          subst (λ t. is_used t ≡ false) ((text_beq_iff x s).0 same) blank in
        rw (blank, same, includes-keep_if_used xs s, u) (and_false (includes xs s))
    | inr other ↦ rw (blank, other) (includes-keep_if_used xs s)
  ]
]
  where
    and_false : (b : Bool) → (b && false) ≡ (true && false)
    and_false true = refl
    and_false false = refl

-- The separators that are used are those that are listed and not empty.
pub active-IsListed :
    (separators : List Text) (s : Text)
    → (includes (active_separators separators) s ≡ true) ↔ IsListed separators s
unfolding active_separators
active-IsListed separators s =
    let same : includes (active_separators separators) s ≡ (includes separators s && is_used s) =
      includes-sort _ (keep_if is_used separators) s ∙ includes-keep_if_used separators s in
    (
      λ h.
          let b : (includes separators s && is_used s) ≡ true = sym same ∙ h in
          let u : is_used s ≡ true = ground arith in (ground arith, (is_used_iff s).0 u),
      λ (m, n). let u : is_used s ≡ true = (is_used_iff s).1 n in same ∙ rw (m, u) refl,
    )

pub hit_at-some :
    (active : List Text) (r s : Text)
    → hit_at active r ≡ some s
    → (includes active s ≡ true) × (starts_with r s ≡ true)
hit_at-some [] r s e = cc
hit_at-some (p ∷ active) r s e = elim (Bool-cases (starts_with r p)) [
  | inl on ↦
      let same : p ≡ s = some_injective (rw on at e) in
      let t : (p == s) ≡ true = (text_beq_iff p s).1 same in
      (rw t refl, subst (λ q. starts_with r q ≡ true) same on)
  | inr off ↦ let (m, k) = hit_at-some active r s (rw off at e) in (ground arith, k)
]

pub hit_at-none :
    (active : List Text) (r s : Text)
    → hit_at active r ≡ none
    → includes active s ≡ true
    → starts_with r s ≡ false
hit_at-none [] r s e m = cc
hit_at-none (p ∷ active) r s e m = elim (Bool-cases (starts_with r p)) [
  | inl on ↦ let f : some p ≡ none = rw on at e in cc
  | inr off ↦ elim (Bool-cases (p == s)) [
    | inl same ↦ subst (λ q. starts_with r q ≡ false) ((text_beq_iff p s).0 same) off
    | inr other ↦ hit_at-none active r s (rw off at e) (rw other at m)
  ]
]
