-- ===== src/Identity/Ladder.antt =====
-- packages/identity/src/resolve.ts, `resolveOne`: which tier decides.
use matchline.Base.{
  ◌≡◌, ◌≢◌, ◌↔◌, ◌⊎◌, ℕ, zero, suc, nat_beq_iff, any, refl, sym, ap, ◌∙◌, inl, inr, true, List, [],
  ◌∷◌, Option, none, some, if◌then◌else◌, arith, Text, text_eq, Bool-cases, Option-cases, First,
  found, later, subst,
}
use matchline.Domain.Identity.{
  MatchingTier, IdentityTier, matching, exact, normalized, by_alias, by_anatomy, suffix_unambiguous,
  fuzzy_proposal, identity_tier_order, matched, tier_number, tier_beq, IdentityCandidate,
}
use matchline.Identity.Build.{IdentityIndex}
use matchline.Identity.Tiers.{TierResult, missed, hit, refused, dead_alias, run_tier}
use matchline.Identity.Resolve.{
  Resolution, proposed, settled_by, tier_says, is_enabled, fuzzy_candidates, ladder_from,
  resolve_one, resolve_tag,
}

-- The tier is one of the list.
abbrev Among : IdentityTier → List IdentityTier → Type 0
Among tier [] = ⊥
Among tier (t ∷ ts) = (t ≡ tier) ⊎ Among tier ts

abbrev tier_at : ℕ → IdentityTier
tier_at zero = matching exact
tier_at (suc zero) = matching normalized
tier_at (suc (suc zero)) = matching by_alias
tier_at (suc (suc (suc zero))) = matching by_anatomy
tier_at (suc (suc (suc (suc zero)))) = matching suffix_unambiguous
tier_at n = fuzzy_proposal

tier_at-tier_number : (t : IdentityTier) → tier_at (tier_number t) ≡ t
tier_at-tier_number (matching exact) = refl
tier_at-tier_number (matching normalized) = refl
tier_at-tier_number (matching by_alias) = refl
tier_at-tier_number (matching by_anatomy) = refl
tier_at-tier_number (matching suffix_unambiguous) = refl
tier_at-tier_number fuzzy_proposal = refl

tier_beq_iff : (t u : IdentityTier) → (tier_beq t u ≡ true) ↔ (u ≡ t)
tier_beq_iff t u = (
  λ e.
      sym (tier_at-tier_number u)
      ∙ ap tier_at (sym ((nat_beq_iff (tier_number t) (tier_number u)).0 e))
      ∙ tier_at-tier_number t,
  λ e. (nat_beq_iff (tier_number t) (tier_number u)).1 (ap tier_number (sym e)),
)

Among-iff :
    (tier : IdentityTier) (ts : List IdentityTier) → Among tier ts ↔ (any (tier_beq tier) ts ≡ true)
Among-iff tier [] = (λ k. absurd k, λ e. cc)
Among-iff tier (t ∷ ts) = (
  λ k. elim k [
    | inl same ↦ let h : tier_beq tier t ≡ true = (tier_beq_iff tier t).1 same in rw h
    | inr later_on ↦
        let h : any (tier_beq tier) ts ≡ true = (Among-iff tier ts).0 later_on in ground arith
  ],
  λ e. elim (Bool-cases (tier_beq tier t)) [
    | inl same ↦ inl ((tier_beq_iff tier t).0 same)
    | inr apart ↦ inr ((Among-iff tier ts).1 (rw apart at e))
  ],
)

module _ (upper : Text → Text) (index : IdentityIndex) (tag : Text) where
  -- What a tier makes of the tag, if it is enabled.
  abbrev pub says : IdentityTier → Option Resolution
  says tier = if is_enabled upper index tier then tier_says upper index tag tier else none

  -- The tier is in the configured list, and it does not miss: it finds an asset, refuses, or ends at
  -- a dead alias. The fuzzy tier, which comes last, never misses.
  abbrev pub Decides : IdentityTier → Type 0
  Decides (matching m) =
      Among (matching m) index.enabled_tiers × (run_tier upper index tag m ≢ missed)
  Decides fuzzy_proposal = Among fuzzy_proposal index.enabled_tiers

  -- The tier finds this asset.
  abbrev pub Finds : IdentityTier → Text → Type 0
  Finds (matching tier) asset_id = run_tier upper index tag tier ≡ hit asset_id
  Finds fuzzy_proposal asset_id = ⊥

  matched-Finds :
      (tier : IdentityTier) (r : Resolution) (a : Text) (t : IdentityTier)
      → says tier ≡ some r
      → r.outcome ≡ matched tag a t
      → (t ≡ tier) × Finds tier a
  matched-Finds (matching m) r a t e o = elim (Bool-cases (is_enabled upper index (matching m))) [
    | inr off ↦ absurd (ground arith)
    | inl on ↦ go (run_tier upper index tag m) refl (rw on at e)
  ]
    where
      go :
          (res : TierResult)
          → run_tier upper index tag m ≡ res
          → settled_by upper index tag m res ≡ some r
          → (t ≡ matching m) × (run_tier upper index tag m ≡ hit a)
      go missed q f = cc
      go (hit b) q f = (cc, cc)
      go (refused ids) q f = cc
      go (dead_alias target) q f = cc
  matched-Finds fuzzy_proposal r a t e o =
      elim (Bool-cases (is_enabled upper index fuzzy_proposal)) [
        | inr off ↦ absurd (ground arith)
        | inl on ↦ absurd (go (fuzzy_candidates upper index tag) (rw on at e))
      ]
    where
      go : (cs : List IdentityCandidate) → some (proposed tag cs) ≡ some r → ⊥
      go [] f = cc
      go (c ∷ cs) f = cc

  says-Decides : (tier : IdentityTier) → says tier ≢ none → Decides tier
  says-Decides tier n = elim (Bool-cases (is_enabled upper index tier)) [
    | inr off ↦ absurd (n (rw off))
    | inl on ↦ go tier ((Among-iff tier index.enabled_tiers).1 on) (λ e. n (rw on e))
  ]
    where
      go :
          (tier : IdentityTier)
          → Among tier index.enabled_tiers
          → tier_says upper index tag tier ≢ none
          → Decides tier
      go (matching m) k n = (k, λ e. n (rw e))
      go fuzzy_proposal k n = k

  settled_by-final :
      (m : MatchingTier) (res : TierResult) → res ≢ missed → settled_by upper index tag m res ≢ none
  settled_by-final m missed n e = n refl
  settled_by-final m (hit a) n e = cc
  settled_by-final m (refused ids) n e = cc
  settled_by-final m (dead_alias target) n e = cc

  Decides-says : (tier : IdentityTier) → Decides tier → says tier ≢ none
  Decides-says (matching m) (k, n) e =
      let on : is_enabled upper index (matching m) ≡ true =
        (Among-iff (matching m) index.enabled_tiers).0 k in
      settled_by-final m (run_tier upper index tag m) n (rw on at e)
  Decides-says fuzzy_proposal k e =
      let on : is_enabled upper index fuzzy_proposal ≡ true =
        (Among-iff fuzzy_proposal index.enabled_tiers).0 k in
      let f : some (proposed tag (fuzzy_candidates upper index tag)) ≡ none = rw on at e in cc

  Finds-says :
      (tier : IdentityTier) (a : Text)
      → Decides tier
      → Finds tier a
      → says tier ≡ some (record { outcome = matched tag a tier; review_items = [] })
  Finds-says fuzzy_proposal a d f = absurd f
  Finds-says (matching m) a (k, _) f =
      let on : is_enabled upper index (matching m) ≡ true =
        (Among-iff (matching m) index.enabled_tiers).0 k in
      rw (on, f)

  pub Finds-Decides :
      (m : MatchingTier) (a : Text)
      → is_enabled upper index (matching m) ≡ true
      → Finds (matching m) a
      → Decides (matching m)
  Finds-Decides m a on f = (
    (Among-iff (matching m) index.enabled_tiers).1 on,
    λ e. let g : hit a ≡ missed = sym f ∙ e in cc,
  )

  ladder_from-matched :
      (tiers : List IdentityTier) (a : Text) (t : IdentityTier)
      → (ladder_from upper index tag tiers).outcome ≡ matched tag a t
      → First Decides tiers t × Finds t a
  unfolding ladder_from
  ladder_from-matched [] a t e = cc
  ladder_from-matched (tier ∷ tiers) a t e = elim (Option-cases (says tier)) [
    | inl silent ↦
        let (f, g) = ladder_from-matched tiers a t (rw (silent, ladder_from) at e) in
        (later (λ d. Decides-says tier d silent) f, g)
    | inr (r, says_r) ↦
        let (same, g) = matched-Finds tier r a t says_r (rw (says_r, ladder_from) at e) in
        (
          subst (First Decides (tier ∷ tiers)) (sym same) (found (says-Decides tier (λ s. cc))),
          subst (λ u. Finds u a) (sym same) g,
        )
  ]

  ladder_from-First :
      (tiers : List IdentityTier) (a : Text) {t : IdentityTier}
      → First Decides tiers t
      → Finds t a
      → (ladder_from upper index tag tiers).outcome ≡ matched tag a t
  unfolding ladder_from
  ladder_from-First [] a first f = elim first [ ]
  ladder_from-First (tier ∷ tiers) a (found d) f = rw (Finds-says tier a d f, ladder_from)
  ladder_from-First (tier ∷ tiers) a (later n first) f = elim (Option-cases (says tier)) [
    | inl silent ↦ rw (silent, ladder_from) (ladder_from-First tiers a first f)
    | inr (r, says_r) ↦ absurd (n (says-Decides tier (λ s. cc)))
  ]

-- A tag that is not blank is matched to an asset by a tier exactly if the tier is the first of the
-- ladder that is in the configured list and does not miss the tag, and it finds that asset. A refusal
-- and a dead alias are no misses: with one of them on a stronger tier, no weaker tier matches. The
-- fuzzy tier never matches.
pub resolve_tag-matched_iff :
    (upper : Text → Text) (index : IdentityIndex) (tag asset_id : Text) (tier : IdentityTier)
    → tag ≢ []
    → (resolve_tag upper index tag ≡ matched tag asset_id tier) ↔ (
        First (Decides upper index tag) identity_tier_order tier
        × Finds upper index tag tier asset_id)
unfolding resolve_one
resolve_tag-matched_iff upper index [] asset_id tier n = absurd (n refl)
resolve_tag-matched_iff upper index (c ∷ s) asset_id tier n = (
  ladder_from-matched upper index (c ∷ s) identity_tier_order asset_id tier,
  λ (first, f). ladder_from-First upper index (c ∷ s) identity_tier_order asset_id first f,
)
