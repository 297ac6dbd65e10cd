-- ===== src/Identity/OwnTag.antt =====
-- packages/identity/src/build.ts and resolve.ts: what the index lists under a tag, and the spelling of the
-- model itself.
use matchline.Base.{
  ◌≡◌, ◌≢◌, refl, sym, ap, ◌∙◌, inl, inr, Bool, true, false, ◌&&◌, List, [], ◌∷◌, ◌++◌,
  if◌then◌else◌, ◌==◌, arith, Text, text_eq, text_beq_iff, Map, get, get-put, keep_if, any, All-imp,
  All, Bool-cases, found, append_assoc, append-nil, subst,
}
use matchline.Domain.Identity.{exact, matching, tier_beq, matched}
use matchline.Identity.Normalize.{normalize_tag}
use matchline.Identity.Build.{
  IdentityAsset, IdentityConfig, IdentityIndex, listed_under, push_under, tagged, indexed,
  index_all, empty_index, enabled, build_identity_index, is_blank,
}
use matchline.Identity.Tiers.{choose_candidate, run_tier}
use matchline.Identity.Resolve.{resolve_tag, is_enabled}
use matchline.Identity.Chosen.{choose_candidate-All, choose_candidate-one, HasTag}
use matchline.Identity.Ladder.{Decides, Finds, Finds-Decides, resolve_tag-matched_iff}

listed_under-push_under {ℓ} :
    {A : Type ℓ} (m : Map Text (List A)) (k j : Text) (x : A)
    → listed_under (get (push_under m k x) j)
      ≡ (if k == j then listed_under (get m j) ++ x ∷ [] else listed_under (get m j))
unfolding push_under
listed_under-push_under m k j x = elim (Bool-cases (k == j)) [
  | inl same ↦
      rw (get-put m k j (listed_under (get m k) ++ x ∷ []), same)
        (ap (λ i. listed_under (get m i) ++ x ∷ []) ((text_beq_iff k j).0 same))
  | inr other ↦ rw (get-put m k j (listed_under (get m k) ++ x ∷ []), other)
]

listed_step {ℓ} :
    {A : Type ℓ} (b : Bool) (xs : List A) (x : A) (ys : List A)
    → (if b then xs ++ x ∷ [] else xs) ++ ys ≡ xs ++ (if b then x ∷ ys else ys)
listed_step true xs x ys = append_assoc xs (x ∷ []) ys
listed_step false xs x ys = refl

module _ (upper : Text → Text) (config : IdentityConfig) where
  abbrev pub spelling : IdentityAsset → Text
  spelling e = normalize_tag upper e.canonical_tag config.tag_normalization

  index_all-exact :
      (entries : List IdentityAsset) (index : IdentityIndex) (t : Text)
      → listed_under (get (index_all upper config entries index).by_exact_tag t)
        ≡ listed_under (get index.by_exact_tag t) ++ keep_if (λ e. e.canonical_tag == t) entries
  unfolding index_all
  index_all-exact [] index t = sym (append-nil _)
  index_all-exact (x ∷ entries) index t =
      index_all-exact entries (indexed upper config x index) t
      ∙ rw (listed_under-push_under index.by_exact_tag x.canonical_tag t x)
          (listed_step (x.canonical_tag == t) (listed_under (get index.by_exact_tag t)) x _)

  index_all-normal :
      (entries : List IdentityAsset) (index : IdentityIndex) (t : Text)
      → listed_under (get (index_all upper config entries index).by_normalized_tag t)
        ≡ listed_under (get index.by_normalized_tag t) ++ keep_if (λ e. spelling e == t) entries
  unfolding index_all
  index_all-normal [] index t = sym (append-nil _)
  index_all-normal (x ∷ entries) index t =
      index_all-normal entries (indexed upper config x index) t
      ∙ rw (listed_under-push_under index.by_normalized_tag (spelling x) t x)
          (listed_step (spelling x == t) (listed_under (get index.by_normalized_tag t)) x _)

  pub build_identity_index-listed_under :
      (assets : List IdentityAsset) (t : Text)
      → (listed_under (get (build_identity_index upper config assets).by_exact_tag t)
          ≡ keep_if (λ e. e.canonical_tag == t) (tagged assets))
        × (listed_under (get (build_identity_index upper config assets).by_normalized_tag t)
            ≡ keep_if (λ e. spelling e == t) (tagged assets))
  unfolding build_identity_index
  build_identity_index-listed_under assets t = (
    index_all-exact (tagged assets) (empty_index upper config (tagged assets)) t,
    index_all-normal (tagged assets) (empty_index upper config (tagged assets)) t,
  )

  index_all-enabled :
      (entries : List IdentityAsset) (index : IdentityIndex)
      → (index_all upper config entries index).enabled_tiers ≡ index.enabled_tiers
  unfolding index_all
  index_all-enabled [] index = refl
  index_all-enabled (x ∷ entries) index = index_all-enabled entries (indexed upper config x index)

nil_of_blank : (s : Text) → is_blank s ≡ true → s ≡ []
nil_of_blank [] e = refl
nil_of_blank (c ∷ s) e = cc

any-tagged :
    (t : Text) (assets : List IdentityAsset)
    → t ≢ []
    → any (λ e. e.canonical_tag == t) assets ≡ true
    → any (λ e. e.canonical_tag == t) (tagged assets) ≡ true
any-tagged t [] n h = h
any-tagged t (x ∷ assets) n h = elim (Bool-cases (x.canonical_tag == t)) [
  | inl here ↦ elim (Bool-cases (is_blank x.canonical_tag)) [
    | inl blank ↦
        absurd
          (n (sym ((text_beq_iff x.canonical_tag t).0 here) ∙ nil_of_blank x.canonical_tag blank))
    | inr used ↦ rw (used, here) refl
  ]
  | inr there ↦
      let rest : any (λ e. e.canonical_tag == t) (tagged assets) ≡ true =
        any-tagged t assets n (rw there at h) in
      elim (Bool-cases (is_blank x.canonical_tag)) [
        | inl blank ↦ rw blank rest
        | inr used ↦ rw (used, there) rest
      ]
]

keep_if-nonempty :
    (t : Text) (es : List IdentityAsset)
    → any (λ e. e.canonical_tag == t) es ≡ true
    → (x : IdentityAsset) × (rest : List IdentityAsset) × (keep_if (λ e. e.canonical_tag == t) es
        ≡ x ∷ rest)
keep_if-nonempty t [] h = cc
keep_if-nonempty t (x ∷ es) h = elim (Bool-cases (x.canonical_tag == t)) [
  | inl here ↦ (x, keep_if (λ e. e.canonical_tag == t) es, rw here)
  | inr there ↦ let (y, rest, k) = keep_if-nonempty t es (rw there at h) in (y, rest, rw there k)
]

keep_if-HasTag :
    (t : Text) (es : List IdentityAsset) → All (HasTag t) (keep_if (λ e. e.canonical_tag == t) es)
keep_if-HasTag t [] = tt
keep_if-HasTag t (x ∷ es) = elim (Bool-cases (x.canonical_tag == t)) [
  | inl here ↦ rw here ((text_beq_iff x.canonical_tag t).0 here, keep_if-HasTag t es)
  | inr there ↦ rw there (keep_if-HasTag t es)
]

-- An asset of the tag, by its id.
abbrev pub carries : List IdentityAsset → Text → Text → Bool
carries assets t a = any (λ e. (e.asset_id == a) && (e.canonical_tag == t)) assets

carries-kept :
    (t : Text) (assets es : List IdentityAsset)
    → All (λ e. carries assets e.canonical_tag e.asset_id ≡ true) es
    → All (λ e. carries assets t e.asset_id ≡ true) (keep_if (λ e. e.canonical_tag == t) es)
carries-kept t assets [] _ = tt
carries-kept t assets (x ∷ es) (c, cs) = elim (Bool-cases (x.canonical_tag == t)) [
  | inl here ↦ rw here (
    subst (λ u. carries assets u x.asset_id ≡ true) ((text_beq_iff x.canonical_tag t).0 here) c,
    carries-kept t assets es cs,
  )
  | inr there ↦ rw there (carries-kept t assets es cs)
]

all_carried :
    (assets : List IdentityAsset)
    → All (λ e. carries assets e.canonical_tag e.asset_id ≡ true) (tagged assets)
all_carried [] = tt
all_carried (x ∷ assets) =
    let rest =
      All-imp {P = λ e. carries assets e.canonical_tag e.asset_id ≡ true}
        {Q = λ e. carries (x ∷ assets) e.canonical_tag e.asset_id ≡ true} (λ e c. ground arith)
        (tagged assets) (all_carried assets) in
    elim (Bool-cases (is_blank x.canonical_tag)) [
      | inl blank ↦ rw blank rest
      | inr used ↦ rw used (
        ground (
          arith,
          text_beq_iff x.asset_id x.asset_id,
          text_beq_iff x.canonical_tag x.canonical_tag,
        ),
        rest,
      )
    ]

-- A tag that an asset of the universe carries is matched by the exact tier, if that is enabled, to an asset
-- that carries it, whatever else the profile teaches.
pub resolve_tag-own :
    (upper : Text → Text) (config : IdentityConfig) (assets : List IdentityAsset) (t : Text)
    → any (tier_beq (matching exact)) (enabled config.enabled_tiers) ≡ true
    → t ≢ []
    → any (λ e. e.canonical_tag == t) assets ≡ true
    → (a : Text) × (resolve_tag upper (build_identity_index upper config assets) t
        ≡ matched t a (matching exact))
      × (carries assets t a ≡ true)
unfolding build_identity_index run_tier
resolve_tag-own upper config assets t on n h =
    let index = build_identity_index upper config assets in
    let (x, rest, kept) = keep_if-nonempty t (tagged assets) (any-tagged t assets n h) in
    let list : listed_under (get index.by_exact_tag t) ≡ x ∷ rest =
      (build_identity_index-listed_under upper config assets t).0 ∙ kept in
    let (a, chosen) =
      choose_candidate-one t x rest
        (subst (All (HasTag t)) kept (keep_if-HasTag t (tagged assets))) in
    let finds : Finds upper index t (matching exact) a = ap choose_candidate list ∙ chosen in
    let is_on : is_enabled upper index (matching exact) ≡ true =
      ap (any (tier_beq (matching exact)))
        (index_all-enabled upper config (tagged assets) (empty_index upper config (tagged assets)))
      ∙ on in
    let decides : Decides upper index t (matching exact) =
      Finds-Decides upper index t exact a is_on finds in
    (
      a,
      (resolve_tag-matched_iff upper index t a (matching exact) n).1 (found decides, finds),
      choose_candidate-All (λ b. carries assets t b ≡ true) (x ∷ rest) a
          (subst (All (λ e. carries assets t e.asset_id ≡ true)) kept
            (carries-kept t assets (tagged assets) (all_carried assets)))
          chosen,
    )
