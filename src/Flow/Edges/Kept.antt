-- ===== src/Flow/Edges/Kept.antt =====
-- packages/electrical-flow/src/build.ts: what the edges keep of the observations.
use matchline.Base.{
  ◌≡◌, refl, ap, ◌∙◌, sym, inl, inr, ℕ, suc, ◌+◌, true, false, ◌||◌, List, [], ◌∷◌, Option, some,
  arith, Text, text_eq, text_beq_iff, ◌==◌, includes, length, length-append, length_of_perm, sort,
  sort-perm, All, All-concat, All-sort, All-imp, Map, get, has, keys, get-put, has-put,
  get-some_of_has, Bool-cases, some_injective, subst,
}
use matchline.Domain.Connectivity.{EdgeKind, ConnectivityObservation}
use matchline.Domain.Identity.{IdentityTier}
use matchline.Flow.Types.{FlowEdge, SelfLoopAnomaly, FlowIdentity}
use matchline.Flow.Order.{compare_edges}
use matchline.Flow.Nodes.{
  TagAppearance, note_tag, or_unseen, seen_in, appearances_from, collect_appearances, Drafting,
  placed_by, node_id_of, drafted, draft_tag, draft_all, build_node_drafts,
}
use matchline.Flow.Edges.{
  EdgePass, connect, connect_all, loop_at, edge_between, numbered_edges, compare_self_loops,
  build_edges,
}

-- `appearances` has both tags of the observation.
abbrev Covers : Map Text TagAppearance → ConnectivityObservation → Type 0
Covers m o = (has m o.from_tag ≡ true) × (has m o.to_tag ≡ true)

note_tag-has :
    (m : Map Text TagAppearance) (tag x : Text) (kind : EdgeKind)
    → has (note_tag m tag kind) x ≡ (tag == x || has m x)
note_tag-has m tag x kind = has-put m tag x (seen_in kind (or_unseen (get m tag)))

appearances_from-has :
    (m : Map Text TagAppearance) (observations : List ConnectivityObservation) (x : Text)
    → has m x ≡ true
    → has (appearances_from m observations) x ≡ true
unfolding appearances_from
appearances_from-has m [] x h = h
appearances_from-has m (o ∷ observations) x h =
    appearances_from-has (note_tag (note_tag m o.from_tag o.kind) o.to_tag o.kind) observations x (
      ground (
        arith,
        h,
        note_tag-has (note_tag m o.from_tag o.kind) o.to_tag x o.kind,
        note_tag-has m o.from_tag x o.kind,
      ))

appearances_from-Covers :
    (m : Map Text TagAppearance) (observations : List ConnectivityObservation)
    → All (Covers (appearances_from m observations)) observations
unfolding appearances_from
appearances_from-Covers m [] = tt
appearances_from-Covers m (o ∷ observations) =
    let noted = note_tag (note_tag m o.from_tag o.kind) o.to_tag o.kind in
    (
      (
        appearances_from-has noted observations o.from_tag (
            ground (
              arith,
              note_tag-has (note_tag m o.from_tag o.kind) o.to_tag o.from_tag o.kind,
              note_tag-has m o.from_tag o.from_tag o.kind,
              text_beq_iff o.from_tag o.from_tag,
            )),
        appearances_from-has noted observations o.to_tag (
            ground (
              arith,
              note_tag-has (note_tag m o.from_tag o.kind) o.to_tag o.to_tag o.kind,
              text_beq_iff o.to_tag o.to_tag,
            )),
      ),
      appearances_from-Covers noted observations,
    )

-- Every tag that has a node id has a draft under it.
abbrev IsDrafting : Drafting → Type 0
IsDrafting d = (tag id : Text) → get d.node_id_by_tag tag ≡ some id → has d.drafts id ≡ true

module _ (identity : FlowIdentity) (appearances : Map Text TagAppearance) where
  draft_tag-IsDrafting :
      (tag : Text) (d : Drafting) → IsDrafting d → IsDrafting (draft_tag identity appearances tag d)
  draft_tag-IsDrafting tag d ok t id found =
      let placed : Option (Text × IdentityTier) = placed_by (identity.outcomes tag) in
      let node_id : Text = node_id_of tag placed in
      let draft = drafted tag placed (get appearances tag) (get d.drafts node_id) in
      elim (Bool-cases (tag == t)) [
        | inl here ↦
            let same : some node_id ≡ some id =
              sym (get-put d.node_id_by_tag tag t node_id ∙ rw here refl) ∙ found in
            ground (
              arith,
              has-put d.drafts node_id id draft,
              text_beq_iff node_id id,
              some_injective same,
            )
        | inr there ↦
            let before : get d.node_id_by_tag t ≡ some id =
              sym (get-put d.node_id_by_tag tag t node_id ∙ rw there refl) ∙ found in
            ground (arith, has-put d.drafts node_id id draft, ok t id before)
      ]

  draft_all-IsDrafting :
      (tags : List Text) (d : Drafting)
      → IsDrafting d
      → IsDrafting (draft_all identity appearances tags d)
        × ((x : Text)
            → (includes tags x || has d.node_id_by_tag x) ≡ true
            → has (draft_all identity appearances tags d).node_id_by_tag x ≡ true)
  unfolding draft_all
  draft_all-IsDrafting [] d ok = (ok, λ x h. h)
  draft_all-IsDrafting (tag ∷ tags) d ok =
      let (done, covered) =
        draft_all-IsDrafting tags (draft_tag identity appearances tag d)
          (draft_tag-IsDrafting tag d ok) in
      (
        done,
        λ x h. covered x (
            ground (
              arith,
              h,
              has-put d.node_id_by_tag tag x (node_id_of tag (placed_by (identity.outcomes tag))),
            )),
      )

-- Both tags of the observation have a node id.
abbrev Placed : Drafting → ConnectivityObservation → Type 0
Placed d o = (has d.node_id_by_tag o.from_tag ≡ true) × (has d.node_id_by_tag o.to_tag ≡ true)

pub build_node_drafts-IsDrafting :
    (observations : List ConnectivityObservation) (identity : FlowIdentity)
    → IsDrafting (build_node_drafts observations identity)
      × All (Placed (build_node_drafts observations identity)) observations
unfolding build_node_drafts collect_appearances
build_node_drafts-IsDrafting observations identity =
    let appearances = appearances_from [] observations in
    let (done, covered) =
      draft_all-IsDrafting identity appearances (keys appearances)
        (record { node_id_by_tag = []; drafts = [] }) (λ tag id h. cc) in
    (
      done,
      All-imp
          (λ o (from, to).
            (covered o.from_tag (ground (arith, from)), covered o.to_tag (ground (arith, to))))
          observations (appearances_from-Covers [] observations),
    )

-- The edge joins two nodes.
abbrev pub Joins : Drafting → FlowEdge → Type 0
Joins d e =
    ((e.from_node_id == e.to_node_id) ≡ false)
    × (has d.drafts e.from_node_id ≡ true)
    × (has d.drafts e.to_node_id ≡ true)

abbrev pub LoopsAt : Drafting → SelfLoopAnomaly → Type 0
LoopsAt d l = has d.drafts l.node_id ≡ true

-- What the pass over the observations keeps to.
pub record Accounts (d : Drafting) (n : ℕ) (p : EdgePass) : Type 0 where
  pub total : length p.edges + length p.self_loops ≡ n
  pub joined : All (Joins d) p.edges
  pub looped : All (LoopsAt d) p.self_loops

connect-Accounts :
    (d : Drafting) (n : ℕ) (o : ConnectivityObservation) (a b : Text) (p : EdgePass)
    → has d.drafts a ≡ true
    → has d.drafts b ≡ true
    → Accounts d n p
    → Accounts d (suc n) (connect o (some a) (some b) p)
connect-Accounts d n o a b p from to acc = elim (Bool-cases (a == b)) [
  | inl same ↦ rw same (record {
    total = omega (arith, acc.total, length-append p.self_loops (loop_at o a ∷ []));
    joined = acc.joined;
    looped = All-concat (LoopsAt d) p.self_loops acc.looped from;
  })
  | inr other ↦ rw other (record {
    total = omega (arith, acc.total, length-append p.edges (edge_between o a b ∷ []));
    joined = All-concat (Joins d) p.edges acc.joined (other, from, to);
    looped = acc.looped;
  })
]

module _ (d : Drafting) (ok : IsDrafting d) where
  connect_all-Accounts :
      (n : ℕ) (observations : List ConnectivityObservation) (p : EdgePass)
      → All (Placed d) observations
      → Accounts d n p
      → Accounts d (length observations + n) (connect_all d.node_id_by_tag observations p)
  unfolding connect_all
  connect_all-Accounts n [] p _ acc =
      let same : n ≡ 0 + n = omega arith in subst (λ m. Accounts d m p) same acc
  connect_all-Accounts n (o ∷ observations) p ((from, to), placed) acc =
      let (a, has_from) = get-some_of_has d.node_id_by_tag o.from_tag from in
      let (b, has_to) = get-some_of_has d.node_id_by_tag o.to_tag to in
      let step =
        connect-Accounts d n o a b p (ok o.from_tag a has_from) (ok o.to_tag b has_to) acc in
      let moved : length observations + suc n ≡ suc (length observations) + n = omega arith in
      rw (has_from, has_to, connect_all)
        (subst
          (λ m.
            Accounts d m
              (connect_all d.node_id_by_tag observations (connect o (some a) (some b) p)))
          moved (connect_all-Accounts (suc n) observations _ placed step))

numbered_edges-Accounts :
    (d : Drafting) (k : ℕ) (edges : List FlowEdge)
    → All (Joins d) edges
    → All (Joins d) (numbered_edges k edges)
unfolding numbered_edges
numbered_edges-Accounts d k [] _ = tt
numbered_edges-Accounts d k (e ∷ edges) (j, js) = (j, numbered_edges-Accounts d (k + 1) edges js)

length-numbered_edges :
    (k : ℕ) (edges : List FlowEdge) → length (numbered_edges k edges) ≡ length edges
unfolding numbered_edges
length-numbered_edges k [] = refl
length-numbered_edges k (e ∷ edges) = ap suc (length-numbered_edges (k + 1) edges)

-- Every observation becomes an edge or a self-loop, and none is left out: all tags of the observations have
-- nodes. An edge joins two nodes that are different and both drafted, and a self-loop stands at a drafted
-- node. This holds for whatever identity makes of the tags.
pub build_edges-Accounts :
    (observations : List ConnectivityObservation) (identity : FlowIdentity)
    → Accounts
        (build_node_drafts observations identity)
        (length observations)
        (build_edges observations (build_node_drafts observations identity).node_id_by_tag)
unfolding build_edges
build_edges-Accounts observations identity =
    let d : Drafting = build_node_drafts observations identity in
    let (ok, placed) = build_node_drafts-IsDrafting observations identity in
    let p : EdgePass =
      connect_all d.node_id_by_tag observations (record { edges = []; self_loops = [] }) in
    let acc =
      connect_all-Accounts d ok 0 observations (record { edges = []; self_loops = [] }) placed
        (record { total = refl; joined = tt; looped = tt }) in
    record {
      total = omega (
        arith,
        acc.total,
        length-numbered_edges 0 (sort compare_edges p.edges),
        length_of_perm (sort-perm compare_edges p.edges),
        length_of_perm (sort-perm compare_self_loops p.self_loops),
      );
      joined =
          numbered_edges-Accounts d 0 (sort compare_edges p.edges)
            (All-sort compare_edges (Joins d) p.edges acc.joined);
      looped = All-sort compare_self_loops (LoopsAt d) p.self_loops acc.looped;
    }
