-- ===== src/Relate/Pairs.antt =====
-- packages/relationship-claims/src/assemble.ts: the pairs of assets that the tiers accept.
use matchline.Base.{
  ◌≡◌, refl, ◌≢◌, inl, inr, ℕ, suc, All-imp, true, List, [], ◌∷◌, Option, none, some, arith, Text,
  text_eq, text_beq_iff, Map, get, has, keys, values, put_new, put_of_new, includes, All,
  All-concat, Bool-cases,
}
use matchline.Domain.Ladder.{LadderSourceKind}
use matchline.Domain.Claim.{SsmRelationshipClaim}
use matchline.Relate.Types.{
  ClaimSubject, SkipReason, unresolvable_child_tag, unresolvable_parent_tag, TagPair,
}
use matchline.Relate.Assemble.{
  Assembly, push, pair_fault, checked, Pairing, pair, fault, paired, resolve_pair, for_each,
}
use matchline.Relate.Output.{index_claim_subjects, subjects_of}

-- Two different known assets.
abbrev pub IsPair : List Text → Text → Text → Type 0
IsPair known child parent =
    (includes known child ≡ true) × (includes known parent ≡ true) × (child ≢ parent)

-- A claim about two different known assets.
abbrev pub IsPairClaim : List Text → SsmRelationshipClaim → Type 0
IsPairClaim known c = IsPair known c.subject_asset_id c.target_asset_id

-- All claims so far are about pairs.
abbrev pub Sound : List Text → Assembly → Type 0
Sound known a = All (IsPairClaim known) a.structural × All (IsPairClaim known) a.dependencies

pub pair_fault-none :
    (known : List Text) (child parent : Text)
    → pair_fault known child parent ≡ none
    → IsPair known child parent
unfolding pair_fault
pair_fault-none known child parent e =
    (ground arith, ground arith, λ same. ground (arith, text_beq_iff child parent))

-- A pairing, if there is one, is a pair.
abbrev pub IsSoundPairing : List Text → Pairing → Type 0
IsSoundPairing known (pair child parent) = IsPair known child parent
IsSoundPairing known (fault reason) = Unit

paired-IsSoundPairing :
    (known : List Text) (c p : Text) (o : Option SkipReason)
    → pair_fault known c p ≡ o
    → IsSoundPairing known (paired o c p)
paired-IsSoundPairing known c p none e = pair_fault-none known c p e
paired-IsSoundPairing known c p (some reason) e = tt

pub resolve_pair-IsSoundPairing :
    (resolve_tag : Text → Option Text) (known : List Text) (tags : TagPair)
    → IsSoundPairing known (resolve_pair resolve_tag known tags)
unfolding resolve_pair
resolve_pair-IsSoundPairing resolve_tag known tags =
    go (resolve_tag tags.child_tag) (resolve_tag tags.parent_tag)
  where
    go :
        (o p : Option Text)
        → IsSoundPairing known (elim o [
          | none ↦ fault unresolvable_child_tag
          | some c ↦ elim p [
            | none ↦ fault unresolvable_parent_tag
            | some q ↦ paired (pair_fault known c q) c q
          ]
        ])
    go none p = tt
    go (some c) none = tt
    go (some c) (some q) = paired-IsSoundPairing known c q (pair_fault known c q) refl

-- What `checked` guards holds only for pairs.
pub checked-Sound :
    (known : List Text) (o : Option SkipReason) (l : LadderSourceKind) (c p : Text)
    (accepted a : Assembly)
    → Sound known a
    → (o ≡ none → Sound known accepted)
    → Sound known (checked o l c p accepted a)
checked-Sound known none l c p accepted a s h = h refl
checked-Sound known (some reason) l c p accepted a s h = s

pub push-Sound :
    (known : List Text) (c : SsmRelationshipClaim) (a : Assembly)
    → Sound known a
    → IsPairClaim known c
    → Sound known (push c a)
push-Sound known c a (s, d) p = (All-concat (IsPairClaim known) a.structural s p, d)

-- What every turn of a loop keeps, the loop keeps.
pub for_each-keeps {ℓ κ μ} :
    {A : Type ℓ} {S : Type κ} (P : S → Type μ) (f : ℕ → A → S → S)
    → ((n : ℕ) (x : A) (s : S) → P s → P (f n x s))
    → (n : ℕ) (xs : List A) (s : S) → P s
    → P (for_each f n xs s)
for_each-keeps P f h n [] s p = p
for_each-keeps P f h n (x ∷ xs) s p = for_each-keeps P f h (suc n) xs (f n x s) (h n x s p)

-- Each asset stands under its own id.
abbrev pub AreKeyed : Map Text ClaimSubject → Type 0
AreKeyed = All (λ e. e.1.asset_id ≡ e.0)

put_new-AreKeyed :
    (m : Map Text ClaimSubject) (s : ClaimSubject) → AreKeyed m → AreKeyed (put_new m s.asset_id s)
put_new-AreKeyed m s all = elim (Bool-cases (has m s.asset_id)) [
  | inl old ↦ rw old all
  | inr new ↦
      rw (new, put_of_new m s.asset_id s new)
        (All-concat (λ e. e.1.asset_id ≡ e.0) m {x = (s.asset_id, s)} all refl)
]

index-AreKeyed :
    (m : Map Text ClaimSubject) (subjects : List ClaimSubject)
    → AreKeyed m
    → AreKeyed (index_claim_subjects m subjects)
unfolding index_claim_subjects
index-AreKeyed m [] k = k
index-AreKeyed m (s ∷ subjects) k =
    index-AreKeyed (put_new m s.asset_id s) subjects (put_new-AreKeyed m s k)

pub subjects_of-AreKeyed : (subjects : List ClaimSubject) → AreKeyed (subjects_of subjects)
subjects_of-AreKeyed subjects = index-AreKeyed [] subjects tt

pub get-keyed :
    (m : Map Text ClaimSubject) (x : Text) (s : ClaimSubject)
    → AreKeyed m
    → get m x ≡ some s
    → s.asset_id ≡ x
get-keyed [] x s k e = cc
get-keyed ((y, t) ∷ m) x s (k, ks) e = ground (arith, text_beq_iff y x, get-keyed m x s ks)

pub values-known :
    (m : Map Text ClaimSubject)
    → AreKeyed m
    → All (λ s. includes (keys m) s.asset_id ≡ true) (values m)
values-known [] _ = tt
values-known ((y, t) ∷ m) (k, ks) = (
  ground (arith, text_beq_iff y t.asset_id),
  All-imp (λ s h. ground arith) (values m) (values-known m ks),
)
