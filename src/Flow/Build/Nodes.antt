-- ===== src/Flow/Build/Nodes.antt =====
-- packages/electrical-flow/src/build.ts, `buildElectricalFlow`: the nodes, the roots and the counters.
use matchline.Base.{
  ◌≡◌, ◌↔◌, refl, ap, ◌∙◌, sym, inl, inr, ℕ, ◌+◌, Bool, true, false, ◌||◌, ◌&&◌, List, [], ◌∷◌,
  ◌++◌, Option, none, some, if◌then◌else◌, arith, Text, text_eq, text_beq_iff, ◌==◌, includes,
  includes-append, IsDistinct, Map, get, has, put, get-put, has-put, get-some_of_has,
  get-none_of_has, Bool-cases, some_injective, has_of_get, subst,
}
use matchline.Flow.Types.{
  FlowMatchStatus, model_confirmed, flow_only, pmd_only, FlowEnrichment, FlowNode,
}
use matchline.Flow.Nodes.{NodeDraft}
use matchline.Flow.Walk.Cover.{IsKeyed}
use matchline.Flow.Build.{
  EdgeRefs, FlowBuilding, is_source, is_multi_fed, counted, flow_node, node_added, build_nodes,
}
use matchline.Flow.Build.Counting.{
  number_of, same_status, has_status, number_of-put, number_of-put_status,
}

abbrev is_some : Option NodeDraft → Bool
is_some none = false
is_some (some d) = true

or_comm : (a b : Bool) → (a || b) ≡ (b || a)
or_comm a b = ground arith

-- The nodes that are made stand under their ids, the counters count them, and the roots are those of them
-- that feed and are not fed.
pub record IsBuilt (b : FlowBuilding) : Type 0 where
  pub keyed : IsKeyed b.nodes
  pub confirmed : b.model_confirmed_count ≡ number_of (has_status model_confirmed) b.nodes
  pub flow_side : b.flow_only_count ≡ number_of (has_status flow_only) b.nodes
  pub pmd_side : b.pmd_only_count ≡ number_of (has_status pmd_only) b.nodes
  pub multi_fed : b.multi_feed_node_count ≡ number_of is_multi_fed b.nodes
  pub rooted :
      (x : Text)
      → (includes b.roots x ≡ true)
        ↔ ((n : FlowNode) × (get b.nodes x ≡ some n) × (is_source n ≡ true))

module _ (node_id : Text) (n : FlowNode) (b : FlowBuilding) (new : has b.nodes node_id ≡ false)
    (own : n.node_id ≡ node_id) (built : IsBuilt b) where
  put-IsKeyed : IsKeyed (put b.nodes node_id n)
  put-IsKeyed x m e = ground (
    arith,
    get-put b.nodes node_id x n,
    built.keyed x m,
    text_beq_iff node_id x,
    λ (u : some n ≡ some m). ap (λ (v : FlowNode). v.node_id) (some_injective u),
  )

  abbrev roots_after : List Text
  roots_after = if is_source n then b.roots ++ node_id ∷ [] else b.roots

  -- The roots after the node, as a test.
  roots_after-includes :
      (x : Text) → includes roots_after x ≡ (includes b.roots x || (is_source n && (node_id == x)))
  roots_after-includes x = elim (Bool-cases (is_source n)) [
    | inl root ↦ rw root (ground (arith, includes-append b.roots (node_id ∷ []) x))
    | inr other ↦ rw other (ground arith)
  ]

  not_root_yet : includes b.roots node_id ≡ false
  not_root_yet = elim (Bool-cases (includes b.roots node_id)) [
    | inl h ↦
        let (m, found, _) = (built.rooted node_id).0 h in
        let known = has_of_get b.nodes node_id m found in cc
    | inr h ↦ h
  ]

  roots_after-rooted :
      (x : Text)
      → (includes roots_after x ≡ true)
        ↔ ((m : FlowNode) × (get (put b.nodes node_id n) x ≡ some m) × (is_source m ≡ true))
  roots_after-rooted x = elim (Bool-cases (node_id == x)) [
    | inl here ↦
        let found : get (put b.nodes node_id n) x ≡ some n =
          get-put b.nodes node_id x n ∙ rw here refl in
        let not_yet : includes b.roots x ≡ false =
          subst (λ y. includes b.roots y ≡ false) ((text_beq_iff node_id x).0 here) not_root_yet in
        let spec = roots_after-includes x in
        (
          λ h. (n, found, ground (arith, h, spec, not_yet, here)),
          λ (m, e, root).
              let same : n ≡ m = some_injective (sym found ∙ e) in
              let is : is_source n ≡ true = ap is_source same ∙ root in
              ground (arith, spec, is, here),
        )
    | inr there ↦
        let found : get (put b.nodes node_id n) x ≡ get b.nodes x =
          get-put b.nodes node_id x n ∙ rw there refl in
        let spec = roots_after-includes x in
        (
          λ h.
              let (m, e, root) = (built.rooted x).0 (ground (arith, h, spec, there)) in
              (m, found ∙ e, root),
          λ (m, e, root).
              let before = (built.rooted x).1 (m, sym found ∙ e, root) in
              ground (arith, before, spec),
        )
  ]

  abbrev added_to : FlowBuilding
  added_to = record b {
    nodes = put b.nodes node_id n;
    roots = roots_after;
    multi_feed_node_count =
        if is_multi_fed n then b.multi_feed_node_count + 1 else b.multi_feed_node_count;
  }

  multi_fed_after : added_to.multi_feed_node_count ≡ number_of is_multi_fed (put b.nodes node_id n)
  multi_fed_after =
      let put_count = number_of-put is_multi_fed b.nodes node_id n new in
      ground (arith, built.multi_fed, put_count)

  count_after :
      (s t : FlowMatchStatus) (c : ℕ)
      → c ≡ number_of (has_status s) b.nodes
      → n.match_status ≡ t
      → (if same_status s t then c + 1 else c) ≡ number_of (has_status s) (put b.nodes node_id n)
  count_after s t c h e =
      let put_count = number_of-put_status s t b.nodes node_id n new e in ground (arith, put_count)

  counted-IsBuilt : (s : FlowMatchStatus) → n.match_status ≡ s → IsBuilt (counted s added_to)
  counted-IsBuilt model_confirmed e = record {
    keyed = put-IsKeyed;
    confirmed = count_after model_confirmed model_confirmed _ built.confirmed e;
    flow_side = count_after flow_only model_confirmed _ built.flow_side e;
    pmd_side = count_after pmd_only model_confirmed _ built.pmd_side e;
    multi_fed = multi_fed_after;
    rooted = roots_after-rooted;
  }
  counted-IsBuilt flow_only e = record {
    keyed = put-IsKeyed;
    confirmed = count_after model_confirmed flow_only _ built.confirmed e;
    flow_side = count_after flow_only flow_only _ built.flow_side e;
    pmd_side = count_after pmd_only flow_only _ built.pmd_side e;
    multi_fed = multi_fed_after;
    rooted = roots_after-rooted;
  }
  counted-IsBuilt pmd_only e = record {
    keyed = put-IsKeyed;
    confirmed = count_after model_confirmed pmd_only _ built.confirmed e;
    flow_side = count_after flow_only pmd_only _ built.flow_side e;
    pmd_side = count_after pmd_only pmd_only _ built.pmd_side e;
    multi_fed = multi_fed_after;
    rooted = roots_after-rooted;
  }

pub counted-nodes : (s : FlowMatchStatus) (b : FlowBuilding) → (counted s b).nodes ≡ b.nodes
counted-nodes model_confirmed b = refl
counted-nodes flow_only b = refl
counted-nodes pmd_only b = refl

module _ (enrichment : Map Text FlowEnrichment) (drafts : Map Text NodeDraft) (r : EdgeRefs) where
  node_added-IsBuilt :
      (node_id : Text) (o : Option NodeDraft) (b : FlowBuilding)
      → has b.nodes node_id ≡ false
      → IsBuilt b
      → IsBuilt (node_added enrichment drafts r node_id o b)
  unfolding flow_node
  node_added-IsBuilt node_id none b new built = built
  node_added-IsBuilt node_id (some draft) b new built =
      let n : FlowNode = flow_node enrichment r node_id draft in
      counted-IsBuilt node_id n b new refl built n.match_status refl

  node_added-has :
      (node_id : Text) (o : Option NodeDraft) (b : FlowBuilding) (x : Text)
      → has (node_added enrichment drafts r node_id o b).nodes x
        ≡ (has b.nodes x || (is_some o && (node_id == x)))
  node_added-has node_id none b x = ground arith
  node_added-has node_id (some draft) b x =
      let n : FlowNode = flow_node enrichment r node_id draft in
      ap (λ m. has m x) (counted-nodes n.match_status _)
      ∙ has-put b.nodes node_id x n
      ∙ or_comm (node_id == x) (has b.nodes x)

  has-is_some : (x : Text) → is_some (get drafts x) ≡ has drafts x
  has-is_some x = elim (Bool-cases (has drafts x)) [
    | inl known ↦ let (d, found) = get-some_of_has drafts x known in rw (found, known) refl
    | inr new ↦ rw (get-none_of_has drafts x new, new) refl
  ]

  pub build_nodes-IsBuilt :
      (ids : List Text) (b : FlowBuilding)
      → IsDistinct ids
      → ((x : Text) → includes ids x ≡ true → has b.nodes x ≡ false)
      → IsBuilt b
      → IsBuilt (build_nodes enrichment drafts r ids b)
        × ((x : Text)
            → has (build_nodes enrichment drafts r ids b).nodes x
              ≡ (has b.nodes x || (includes ids x && has drafts x)))
  unfolding build_nodes
  build_nodes-IsBuilt [] b d fresh built = (built, λ x. ground arith)
  build_nodes-IsBuilt (i ∷ ids) b (new, d) fresh built =
      let o : Option NodeDraft = get drafts i in
      let next : FlowBuilding = node_added enrichment drafts r i o b in
      let (done, nodes) =
        build_nodes-IsBuilt ids next d
          (λ x h.
            ground
              (arith, h, new, fresh x, node_added-has i o b x, text_beq_iff i x, ap (includes ids)))
          (node_added-IsBuilt i o b (fresh i (ground (arith, text_beq_iff i i))) built) in
      (
        done,
        λ x. ground (
          arith,
          nodes x,
          node_added-has i o b x,
          has-is_some i,
          text_beq_iff i x,
          ap (has drafts),
        ),
      )
