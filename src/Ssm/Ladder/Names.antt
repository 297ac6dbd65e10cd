-- ===== src/Ssm/Ladder/Names.antt =====
-- packages/ssm-compiler/src/compile.ts, `indexCandidates`: the parents that stand under a rung.
use matchline.Base.{
  ◌≡◌, refl, Bool, false, ◌||◌, ◌&&◌, List, [], ◌∷◌, Option, none, some, ◌==◌, arith, Text, text_eq,
  text_beq_iff, Map, get, has, keys, has-put, IsDistinct, any, put_new-IsDistinct,
}
use matchline.Domain.Ladder.{LadderSourceKind, source_eq}
use matchline.Ssm.Ladder.{
  WalkContext, Held, Candidates, grown, add_candidate, index_from, index_candidates,
}
use matchline.Ssm.Ladder.Candidates.{get-add_candidate}

abbrev pub stands_in : Option (Map Text Held) → Text → Bool
stands_in none p = false
stands_in (some cands) p = has cands p

-- `p` is a candidate of the rung.
abbrev pub is_candidate : Candidates → LadderSourceKind → Text → Bool
is_candidate by_tier tier p = stands_in (get by_tier tier) p

-- The claim names the known parent `p` on the rung.
abbrev pub names : WalkContext → LadderSourceKind → Text → Held → Bool
names ctx tier p h =
    (has ctx.subject_by_id h.claim.target_asset_id && h.claim.ladder_source == tier)
    && h.claim.target_asset_id == p

stands_in-grown :
    (o : Option (Map Text Held)) (h : Held) (p : Text)
    → stands_in (some (grown o h)) p ≡ (stands_in o p || h.claim.target_asset_id == p)
stands_in-grown none h p = ground arith
stands_in-grown (some cands) h p =
    ground
      (arith, has-put cands h.claim.target_asset_id p h, text_beq_iff h.claim.target_asset_id p)

module _ (ctx : WalkContext) where
  is_candidate-add :
      (by_tier : Candidates) (h : Held) (tier : LadderSourceKind) (p : Text)
      → is_candidate (add_candidate ctx by_tier h) tier p
        ≡ (is_candidate by_tier tier p || names ctx tier p h)
  is_candidate-add by_tier h tier p =
      rw (get-add_candidate ctx by_tier h tier)
        (ground (arith, stands_in-grown (get by_tier tier) h p))

  is_candidate-index_from :
      (by_tier : Candidates) (hs : List Held) (tier : LadderSourceKind) (p : Text)
      → is_candidate (index_from ctx by_tier hs) tier p
        ≡ (is_candidate by_tier tier p || any (names ctx tier p) hs)
  unfolding index_from
  is_candidate-index_from by_tier [] tier p = ground arith
  is_candidate-index_from by_tier (h ∷ hs) tier p = ground (
    arith,
    is_candidate-index_from (add_candidate ctx by_tier h) hs tier p,
    is_candidate-add by_tier h tier p,
  )

  -- The ladder offers a parent on a rung exactly if some claim of the pool names it on that rung and
  -- the compile knows it.
  pub is_candidate-eq-names :
      (pool : List Held) (tier : LadderSourceKind) (p : Text)
      → is_candidate (index_candidates pool ctx) tier p ≡ any (names ctx tier p) pool
  unfolding index_candidates
  is_candidate-eq-names pool tier p = is_candidate-index_from [] pool tier p

  abbrev AreDistinct : Option (Map Text Held) → Type 0
  AreDistinct none = Unit {0}
  AreDistinct (some cands) = IsDistinct (keys cands)

  grown-AreDistinct :
      (o : Option (Map Text Held)) (h : Held) → AreDistinct o → IsDistinct (keys (grown o h))
  grown-AreDistinct none h d = (refl, tt)
  grown-AreDistinct (some cands) h d = put_new-IsDistinct cands h.claim.target_asset_id h d

  add_candidate-AreDistinct :
      (by_tier : Candidates) (h : Held) (tier : LadderSourceKind)
      → AreDistinct (get by_tier tier)
      → AreDistinct (get (add_candidate ctx by_tier h) tier)
  add_candidate-AreDistinct by_tier h tier d =
      rw (get-add_candidate ctx by_tier h tier)
        (ground (arith, grown-AreDistinct (get by_tier tier) h d))

  index_from-AreDistinct :
      (by_tier : Candidates) (hs : List Held) (tier : LadderSourceKind)
      → AreDistinct (get by_tier tier)
      → AreDistinct (get (index_from ctx by_tier hs) tier)
  unfolding index_from
  index_from-AreDistinct by_tier [] tier d = d
  index_from-AreDistinct by_tier (h ∷ hs) tier d =
      index_from-AreDistinct (add_candidate ctx by_tier h) hs tier
        (add_candidate-AreDistinct by_tier h tier d)

  pub candidates-IsDistinct :
      (pool : List Held) (tier : LadderSourceKind) (cands : Map Text Held)
      → get (index_candidates pool ctx) tier ≡ some cands
      → IsDistinct (keys cands)
  unfolding index_candidates
  candidates-IsDistinct pool tier cands e = ground (arith, index_from-AreDistinct [] pool tier tt)
