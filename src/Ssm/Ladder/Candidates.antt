-- ===== src/Ssm/Ladder/Candidates.antt =====
-- packages/ssm-compiler/src/compile.ts, `indexCandidates`: the claims that stand under a rung.
use matchline.Base.{
  ◌≡◌, refl, subst, inl, inr, true, ◌&&◌, List, [], ◌∷◌, Option, none, some, if◌then◌else◌, ◌==◌,
  arith, Text, text_eq, Map, get, has, get-put, put_of_new, All, Bool-cases, All-concat,
}
use matchline.Domain.Ladder.{LadderSourceKind, source_eq, source_beq_iff}
use matchline.Ssm.Ladder.{
  WalkContext, Held, Candidates, grown, add_candidate, index_from, index_candidates,
}

-- The rung of a claim that names a known parent gains it, and nothing else changes.
pub get-add_candidate :
    (ctx : WalkContext) (by_tier : Candidates) (h : Held) (tier : LadderSourceKind)
    → get (add_candidate ctx by_tier h) tier ≡ (
        if has ctx.subject_by_id h.claim.target_asset_id && h.claim.ladder_source == tier
        then some (grown (get by_tier tier) h)
        else get by_tier tier)
unfolding add_candidate
get-add_candidate ctx by_tier h tier = ground (
  arith,
  get-put by_tier h.claim.ladder_source tier (grown (get by_tier h.claim.ladder_source) h),
  source_beq_iff h.claim.ladder_source tier,
)

module _ (ctx : WalkContext) (Q : Held → Type 0) where
  -- An entry of one rung's candidates: it stands under its own parent and rung, and it is one of the
  -- claims that `Q` describes.
  pub record IsCandidate (tier : LadderSourceKind) (entry : Text × Held) : Type 0 where
    pub target : entry.1.claim.target_asset_id ≡ entry.0
    pub rung : entry.1.claim.ladder_source ≡ tier
    pub known : has ctx.subject_by_id entry.0 ≡ true
    pub held : Q entry.1

  abbrev pub AreCandidates : Candidates → Type 0
  AreCandidates by_tier =
      (tier : LadderSourceKind) (cands : Map Text Held)
      → get by_tier tier ≡ some cands
      → All (IsCandidate tier) cands

  grown-AreCandidates :
      (tier : LadderSourceKind) (o : Option (Map Text Held)) (h : Held)
      → IsCandidate tier (h.claim.target_asset_id, h)
      → ((cands : Map Text Held) → o ≡ some cands → All (IsCandidate tier) cands)
      → All (IsCandidate tier) (grown o h)
  grown-AreCandidates tier none h this all = (this, tt)
  grown-AreCandidates tier (some old) h this all =
      elim (Bool-cases (has old h.claim.target_asset_id)) [
        | inl there ↦ rw there (all old refl)
        | inr new ↦
            rw (new, put_of_new old h.claim.target_asset_id h new)
              (All-concat _ old (all old refl) this)
      ]

  add_candidate-AreCandidates :
      (by_tier : Candidates) (h : Held)
      → Q h
      → AreCandidates by_tier
      → AreCandidates (add_candidate ctx by_tier h)
  add_candidate-AreCandidates by_tier h q all tier cands e =
      elim (Bool-cases
        (has ctx.subject_by_id h.claim.target_asset_id && h.claim.ladder_source == tier)) [
          | inr other ↦ all tier cands (rw (get-add_candidate ctx by_tier h tier, other) at e)
          | inl this ↦
              let known : has ctx.subject_by_id h.claim.target_asset_id ≡ true = ground arith in
              let rung : h.claim.ladder_source ≡ tier =
                ground (arith, source_beq_iff h.claim.ladder_source tier) in
              let now : grown (get by_tier tier) h ≡ cands =
                ground (arith, get-add_candidate ctx by_tier h tier) in
              subst (All (IsCandidate tier)) now (
                grown-AreCandidates tier (get by_tier tier) h
                  (record { target = refl; rung = rung; known = known; held = q }) (all tier))
        ]

  index_from-AreCandidates :
      (by_tier : Candidates) (hs : List Held)
      → All Q hs
      → AreCandidates by_tier
      → AreCandidates (index_from ctx by_tier hs)
  unfolding index_from
  index_from-AreCandidates by_tier [] _ all = all
  index_from-AreCandidates by_tier (h ∷ hs) (q, qs) all =
      index_from-AreCandidates (add_candidate ctx by_tier h) hs qs
        (add_candidate-AreCandidates by_tier h q all)

  -- Whatever holds of the pool's claims holds of every candidate.
  pub index_candidates-AreCandidates :
      (pool : List Held) → All Q pool → AreCandidates (index_candidates pool ctx)
  unfolding index_candidates
  index_candidates-AreCandidates pool q = index_from-AreCandidates [] pool q (λ tier cands e. cc)
