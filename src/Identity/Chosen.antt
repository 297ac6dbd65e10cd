-- ===== src/Identity/Chosen.antt =====
-- packages/identity/src/resolve.ts, `chooseCandidate`: the chosen asset is one of the candidates.
use matchline.Base.{
  ◌≡◌, refl, sym, inl, inr, ◌⊎◌, List, [], ◌∷◌, ◌++◌, ltb, arith, Text, text_eq, text_beq_iff,
  compare_text, length, Map, has, put_new, put_of_new, values, All-put, All, All-sort, sort,
  Bool-cases, subst, List-cases, includes-sort,
}
use matchline.Identity.Build.{IdentityAsset}
use matchline.Identity.Tiers.{
  hit, refused, unique_from, ids_of, tags_from, decided, first_hit, choose_candidate,
}

module _ (Q : IdentityAsset → Type 0) where
  pub put_new-All :
      (m : Map Text IdentityAsset) (k : Text) (e : IdentityAsset)
      → All Q (values m)
      → Q e
      → All Q (values (put_new m k e))
  put_new-All m k e all q = elim (Bool-cases (has m k)) [
    | inl old ↦ rw old all
    | inr new ↦ rw new (All-put Q m k e all q)
  ]

  pub unique_from-All :
      (m : Map Text IdentityAsset) (entries : List IdentityAsset)
      → All Q (values m)
      → All Q entries
      → All Q (values (unique_from m entries))
  unfolding unique_from
  unique_from-All m [] all _ = all
  unique_from-All m (e ∷ entries) all (q, qs) =
      unique_from-All (put_new m e.asset_id e) entries (put_new-All m e.asset_id e all q) qs

All-ids :
    (P : Text → Type 0) (es : List IdentityAsset) → All (λ e. P e.asset_id) es → All P (ids_of es)
All-ids P [] _ = tt
All-ids P (e ∷ es) (p, ps) = (p, All-ids P es ps)

first_hit-All :
    (P : Text → Type 0) (ids : List Text) (a : Text) → All P ids → first_hit ids ≡ hit a → P a
first_hit-All P [] a _ e = cc
first_hit-All P (i ∷ ids) a (p, _) e = subst P (cc) p

decided-All :
    (P : Text → Type 0) (es : List IdentityAsset) (a : Text)
    → All (λ e. P e.asset_id) es
    → decided es ≡ hit a
    → P a
decided-All P [] a _ e = cc
decided-All P (c ∷ es) a all e = elim (Bool-cases (ltb 1 (length (tags_from [] (c ∷ es))))) [
  | inl many ↦ absurd (several (rw many at e))
  | inr one ↦
      first_hit-All P (sort compare_text (ids_of (c ∷ es))) a
        (All-sort compare_text P (ids_of (c ∷ es)) (All-ids P (c ∷ es) all)) (rw one at e)
]
  where
    several : refused (sort compare_text (ids_of (c ∷ es))) ≡ hit a → ⊥
    several f = cc

-- What holds of all candidates holds of the asset that is chosen.
pub choose_candidate-All :
    (P : Text → Type 0) (entries : List IdentityAsset) (a : Text)
    → All (λ e. P e.asset_id) entries
    → choose_candidate entries ≡ hit a
    → P a
unfolding choose_candidate
choose_candidate-All P entries a all e =
    decided-All P (values (unique_from [] entries)) a
      (unique_from-All (λ e. P e.asset_id) [] entries tt all) e

-- Candidates of one tag are no ambiguity.
module _ (tag : Text) where
  abbrev pub HasTag : IdentityAsset → Type 0
  HasTag e = e.canonical_tag ≡ tag

  tags_from-one : (es : List IdentityAsset) → All HasTag es → tags_from (tag ∷ []) es ≡ tag ∷ []
  unfolding tags_from
  tags_from-one [] _ = refl
  tags_from-one (e ∷ es) (h, hs) =
      rw (h, (text_beq_iff tag tag).1 refl, tags_from) (tags_from-one es hs)

  decided-one :
      (c : IdentityAsset) (es : List IdentityAsset)
      → All HasTag (c ∷ es)
      → (a : Text) × (decided (c ∷ es) ≡ hit a)
  unfolding tags_from
  decided-one c es (h, hs) =
      let one : tags_from [] (c ∷ es) ≡ tag ∷ [] = rw h (tags_from-one es hs) in
      rw one (sorted (List-cases (sort compare_text (ids_of (c ∷ es)))))
    where
      sorted :
          (sort compare_text (ids_of (c ∷ es)) ≡ [])
            ⊎ ((x : Text) × (rest : List Text) × (sort compare_text (ids_of (c ∷ es)) ≡ x ∷ rest))
          → (a : Text) × (first_hit (sort compare_text (ids_of (c ∷ es))) ≡ hit a)
      sorted (inl e) = absurd (
          ground (
            arith,
            includes-sort compare_text (ids_of (c ∷ es)) c.asset_id,
            text_beq_iff c.asset_id c.asset_id,
            sym e,
          ))
      sorted (inr (x, rest, e)) = (x, rw e)

  put_new-head :
      (k : Text) (e : IdentityAsset) (m : Map Text IdentityAsset) (j : Text) (x : IdentityAsset)
      → (m' : Map Text IdentityAsset) × (put_new ((k, e) ∷ m) j x ≡ (k, e) ∷ m')
  put_new-head k e m j x = elim (Bool-cases (has ((k, e) ∷ m) j)) [
    | inl old ↦ (m, rw old)
    | inr new ↦ (m ++ (j, x) ∷ [], rw (new, put_of_new ((k, e) ∷ m) j x new) refl)
  ]

  unique_from-nonempty :
      (k : Text) (e : IdentityAsset) (m : Map Text IdentityAsset) (entries : List IdentityAsset)
      → (c : IdentityAsset) × (rest : List IdentityAsset) × (values
            (unique_from ((k, e) ∷ m) entries)
          ≡ c ∷ rest)
  unfolding unique_from
  unique_from-nonempty k e m [] = (e, values m, refl)
  unique_from-nonempty k e m (x ∷ entries) =
      let (m', p) = put_new-head k e m x.asset_id x in rw p (unique_from-nonempty k e m' entries)

  pub choose_candidate-one :
      (e : IdentityAsset) (entries : List IdentityAsset)
      → All HasTag (e ∷ entries)
      → (a : Text) × (choose_candidate (e ∷ entries) ≡ hit a)
  unfolding choose_candidate
  choose_candidate-one e entries all =
      let (c, rest, v) = unique_from-nonempty e.asset_id e [] entries in
      rw (v, decided)
        (decided-one c rest (subst (All HasTag) v (unique_from-All HasTag [] (e ∷ entries) tt all)))
