-- ===== src/Identity/Universe.antt =====
-- packages/identity/src/build.ts and resolve.ts: only assets of the universe are matched.
use matchline.Base.{
  ◌≡◌, ◌≢◌, inl, inr, true, not, List, [], ◌∷◌, ◌++◌, map, Option, none, some, ◌==◌, arith, Text,
  text_eq, text_beq_iff, length, nat_beq, Map, get, put_new, values, includes, All, All-append,
  All-put, All_get, All-keep_if, Option-cases, Bool-cases,
}
use matchline.Domain.Identity.{
  MatchingTier, exact, normalized, by_alias, by_anatomy, suffix_unambiguous, IdentityTier, matching,
  fuzzy_proposal, matched,
}
use matchline.Identity.Boundary.{BoundaryCut, boundary_cuts}
use matchline.Identity.AnatomyKey.{anatomy_identity_key}
use matchline.Identity.Build.{
  IdentityAsset, IdentityConfig, IdentityIndex, BoundaryPrefixEntry, listed_under, push_under,
  push_known, push_cuts, tagged, indexed, index_all, empty_index, build_identity_index, anatomy_key,
  identifying,
}
use matchline.Identity.Tiers.{
  missed, hit, find_all, find_cuts, run_tier, named_by, decomposed, alias_tier, anatomy_tier,
}
use matchline.Identity.Resolve.{resolve_tag, resolve_one}
use matchline.Identity.Chosen.{choose_candidate-All, put_new-All}
use matchline.Identity.Ladder.{Finds, resolve_tag-matched_iff}

abbrev AllListed {ℓ} : {A : Type ℓ} → (A → Type 0) → Map Text (List A) → Type 0
AllListed Q m = All (All Q) (values m)

listed_under-All {ℓ} :
    {A : Type ℓ} (Q : A → Type 0) (m : Map Text (List A)) (k : Text)
    → AllListed Q m
    → All Q (listed_under (get m k))
listed_under-All Q m k all = elim (Option-cases (get m k)) [
  | inl away ↦ rw away tt
  | inr (xs, there) ↦ rw there (All_get (All Q) m k xs all there)
]

push_under-AllListed {ℓ} :
    {A : Type ℓ} (Q : A → Type 0) (m : Map Text (List A)) (k : Text) (x : A)
    → AllListed Q m
    → Q x
    → AllListed Q (push_under m k x)
unfolding push_under
push_under-AllListed Q m k x all q =
    All-put (All Q) m k (listed_under (get m k) ++ x ∷ []) all
      (All-append Q (listed_under (get m k)) (x ∷ []) (listed_under-All Q m k all) (q, tt))

module _ (Q : IdentityAsset → Type 0) where
  abbrev OfEntry : BoundaryPrefixEntry → Type 0
  OfEntry b = Q b.entry

  -- Every asset that the index lists has the property.
  pub record IsOver (index : IdentityIndex) : Type 0 where
    pub by_exact : AllListed Q index.by_exact_tag
    pub by_normal : AllListed Q index.by_normalized_tag
    pub by_key : AllListed Q index.by_anatomy_key
    pub by_prefix : AllListed OfEntry index.by_boundary_prefix

  push_known-AllListed :
      (m : Map Text (List IdentityAsset)) (k : Option Text) (x : IdentityAsset)
      → AllListed Q m
      → Q x
      → AllListed Q (push_known m k x)
  push_known-AllListed m none x all q = all
  push_known-AllListed m (some k) x all q = push_under-AllListed Q m k x all q

  push_cuts-AllListed :
      (x : IdentityAsset) (cuts : List BoundaryCut) (m : Map Text (List BoundaryPrefixEntry))
      → AllListed OfEntry m
      → Q x
      → AllListed OfEntry (push_cuts x cuts m)
  unfolding push_cuts
  push_cuts-AllListed x [] m all q = all
  push_cuts-AllListed x (cut ∷ cuts) m all q =
      push_cuts-AllListed x cuts
        (push_under m cut.prefix (record { entry = x; separator = cut.separator }))
        (push_under-AllListed OfEntry m cut.prefix (record { entry = x; separator = cut.separator })
          all q)
        q

  module _ (upper : Text → Text) (config : IdentityConfig) where
    index_all-IsOver :
        (entries : List IdentityAsset) (index : IdentityIndex)
        → All Q entries
        → IsOver index
        → IsOver (index_all upper config entries index)
    unfolding index_all
    index_all-IsOver [] index _ o = o
    index_all-IsOver (x ∷ entries) index (q, qs) o =
        index_all-IsOver entries (indexed upper config x index) qs (record {
          by_exact = push_under-AllListed Q index.by_exact_tag x.canonical_tag x o.by_exact q;
          by_normal = push_under-AllListed Q index.by_normalized_tag _ x o.by_normal q;
          by_key =
              push_known-AllListed index.by_anatomy_key
                (anatomy_key (identifying config.anatomy) x.canonical_tag) x o.by_key q;
          by_prefix =
              push_cuts-AllListed x (boundary_cuts x.canonical_tag index.separators)
                index.by_boundary_prefix o.by_prefix q;
        })

  find_all-All :
      (upper : Text → Text) (index : IdentityIndex) (entries : List IdentityAsset)
      (m : Map Text IdentityAsset)
      → All Q entries
      → All Q (values m)
      → All Q (values (find_all upper index entries m))
  unfolding find_all
  find_all-All upper index [] m _ all = all
  find_all-All upper index (x ∷ entries) m (q, qs) all =
      find_all-All upper index entries (put_new m x.asset_id x) qs
        (put_new-All Q m x.asset_id x all q)

  find_cuts-All :
      (upper : Text → Text) (index : IdentityIndex) (cuts : List BoundaryCut)
      (m : Map Text IdentityAsset)
      → IsOver index
      → All Q (values m)
      → All Q (values (find_cuts upper index cuts m))
  unfolding find_cuts
  find_cuts-All upper index [] m o all = all
  find_cuts-All upper index (cut ∷ cuts) m o all =
      find_cuts-All upper index cuts
        (find_all upper index (listed_under (get index.by_exact_tag cut.prefix)) m) o
        (find_all-All upper index (listed_under (get index.by_exact_tag cut.prefix)) m
          (listed_under-All Q index.by_exact_tag cut.prefix o.by_exact) all)

  entries-All : (bs : List BoundaryPrefixEntry) → All OfEntry bs → All Q (map (λ b. b.entry) bs)
  entries-All [] _ = tt
  entries-All (b ∷ bs) (q, qs) = (q, entries-All bs qs)

module _ (P : Text → Type 0) (upper : Text → Text) (index : IdentityIndex)
    (o : IsOver (λ e. P e.asset_id) index) where
  abbrev Q : IdentityAsset → Type 0
  Q e = P e.asset_id

  named-All :
      (canonical a : Text) (entries : List IdentityAsset)
      → All Q entries
      → named_by upper index canonical entries ≡ hit a
      → P a
  named-All canonical a [] all e = cc
  named-All canonical a (x ∷ es) all e = choose_candidate-All P (x ∷ es) a all e

  alias_tier-All : (tag a : Text) → alias_tier upper index tag ≡ hit a → P a
  alias_tier-All tag a e = elim (Option-cases (get index.config.aliases tag)) [
    | inl away ↦ absurd (no_hit (rw (away, alias_tier) at e))
    | inr (canonical, there) ↦
        named-All canonical a (listed_under (get index.by_exact_tag canonical))
          (listed_under-All Q index.by_exact_tag canonical o.by_exact) (rw (there, alias_tier) at e)
  ]
    where
      no_hit : missed ≡ hit a → ⊥
      no_hit f = cc

  decomposed-All : (tag a : Text) (key : Option Text) → decomposed upper index tag key ≡ hit a → P a
  decomposed-All tag a none e = cc
  decomposed-All tag a (some key) e =
      choose_candidate-All P _ a
        (All-keep_if Q (λ entry. not (entry.canonical_tag == tag))
          (listed_under (get index.by_anatomy_key key))
          (listed_under-All Q index.by_anatomy_key key o.by_key))
        e

  anatomy_tier-All : (tag a : Text) → anatomy_tier upper index tag ≡ hit a → P a
  anatomy_tier-All tag a e = elim (Option-cases index.config.anatomy) [
    | inl away ↦ absurd (no_hit (rw away at e))
    | inr (anatomy, there) ↦ elim (Bool-cases (nat_beq (length index.by_anatomy_key) 0)) [
      | inl blank ↦ absurd (no_hit (rw (there, blank) at e))
      | inr full ↦ decomposed-All tag a (anatomy_identity_key anatomy tag) (rw (there, full) at e)
    ]
  ]
    where
      no_hit : missed ≡ hit a → ⊥
      no_hit f = cc

  -- A tier finds only assets that the index lists.
  run_tier-All :
      (tag : Text) (m : MatchingTier) (a : Text) → run_tier upper index tag m ≡ hit a → P a
  unfolding run_tier
  run_tier-All tag exact a e =
      choose_candidate-All P (listed_under (get index.by_exact_tag tag)) a
        (listed_under-All Q index.by_exact_tag tag o.by_exact) e
  run_tier-All tag normalized a e =
      choose_candidate-All P _ a (listed_under-All Q index.by_normalized_tag _ o.by_normal) e
  run_tier-All tag by_alias a e = alias_tier-All tag a e
  run_tier-All tag by_anatomy a e = anatomy_tier-All tag a e
  run_tier-All tag suffix_unambiguous a e =
      choose_candidate-All P _ a
        (find_all-All Q upper index _
          (find_cuts upper index (boundary_cuts tag index.separators) [])
          (entries-All Q _ (listed_under-All (OfEntry Q) index.by_boundary_prefix tag o.by_prefix))
          (find_cuts-All Q upper index (boundary_cuts tag index.separators) [] o tt))
        e

  Finds-All : (tag : Text) (tier : IdentityTier) (a : Text) → Finds upper index tag tier a → P a
  Finds-All tag (matching m) a f = run_tier-All tag m a f
  Finds-All tag fuzzy_proposal a f = absurd f

abbrev pub ids : List IdentityAsset → List Text
ids assets = map (λ e. e.asset_id) assets

listed_ids :
    (xs : List IdentityAsset) (P : Text → Type 0)
    → ((a : Text) → includes (ids xs) a ≡ true → P a)
    → All (λ e. P e.asset_id) xs
listed_ids [] P h = tt
listed_ids (x ∷ xs) P h = (
  h x.asset_id (ground (arith, text_beq_iff x.asset_id x.asset_id)),
  listed_ids xs P (λ a i. h a (ground arith)),
)

blank_unmatched :
    (upper : Text → Text) (index : IdentityIndex) (a : Text) (tier : IdentityTier)
    → resolve_tag upper index [] ≢ matched [] a tier
unfolding resolve_one
blank_unmatched upper index a tier f = cc

-- Whatever the profile teaches, a tag is matched only to an asset of the universe that has a tag.
pub resolve_tag-known :
    (upper : Text → Text) (config : IdentityConfig) (assets : List IdentityAsset)
    (tag asset_id : Text) (tier : IdentityTier)
    → resolve_tag upper (build_identity_index upper config assets) tag ≡ matched tag asset_id tier
    → includes (ids (tagged assets)) asset_id ≡ true
unfolding build_identity_index
resolve_tag-known upper config assets [] asset_id tier e =
    absurd (blank_unmatched upper _ asset_id tier e)
resolve_tag-known upper config assets (c ∷ s) asset_id tier e =
    let P : Text → Type 0 = λ a. includes (ids (tagged assets)) a ≡ true in
    let over =
      index_all-IsOver (λ x. P x.asset_id) upper config (tagged assets)
        (empty_index upper config (tagged assets)) (listed_ids (tagged assets) P (λ a i. i))
        (record { by_exact = tt; by_normal = tt; by_key = tt; by_prefix = tt }) in
    let (_, finds) =
      (resolve_tag-matched_iff upper (build_identity_index upper config assets) (c ∷ s) asset_id
          tier (λ f. cc)).0
        e in
    Finds-All P upper (build_identity_index upper config assets) over (c ∷ s) tier asset_id finds
