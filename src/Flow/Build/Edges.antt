-- ===== src/Flow/Build/Edges.antt =====
-- packages/electrical-flow/src/build.ts, `buildElectricalFlow`: how many feed edges go out of a node and
-- into it, counted on the edges and on the references that hang on the nodes.
use matchline.Base.{
  ◌≡◌, append-nil, append_assoc, refl, ap, ◌∙◌, sym, subst, inl, inr, ℕ, suc, Bool, true, false,
  not, ◌&&◌, List, [], ◌∷◌, ◌++◌, map, none, some, if◌then◌else◌, leb, nat_beq, arith, Text,
  text_eq, text_beq_iff, ◌==◌, includes, any, length, IsDistinct, put-IsDistinct, All, Map, get,
  keys, has_of_get, Option, Bool-cases,
}
use matchline.Domain.Connectivity.{EdgeKind, feed, pmd_relation}
use matchline.Flow.Types.{
  FlowEnrichment, FlowEdgeRef, outgoing, incoming, FlowEdge, FlowNode, FlowAnomaly, SelfLoopAnomaly,
  self_loop, cycle,
}
use matchline.Flow.Nodes.{NodeDraft}
use matchline.Flow.Build.{
  RefMap, refs_of, push_ref, EdgeRefs, outgoing_ref, incoming_ref, hung, hang_all, FlowBuilding,
  flow_node, node_added, build_nodes,
}
use matchline.Flow.Build.Counting.{number_of}
use matchline.Flow.Build.Nodes.{counted-nodes}
use matchline.Flow.Build.Refs.{refs_of-put}

-- How many elements a test picks.
abbrev pub count_if {ℓ} : {A : Type ℓ} → (A → Bool) → List A → ℕ
count_if p [] = 0
count_if p (x ∷ xs) = if p x then suc (count_if p xs) else count_if p xs

abbrev feeding : EdgeKind → Bool
feeding feed = true
feeding pmd_relation = false

-- The feed edges that go out of a node, and those that go into it.
abbrev pub leaves : Text → FlowEdge → Bool
leaves x e = feeding e.kind && e.from_node_id == x

abbrev pub enters : Text → FlowEdge → Bool
enters x e = feeding e.kind && e.to_node_id == x

abbrev pub is_cycle : FlowAnomaly → Bool
is_cycle (self_loop a) = false
is_cycle (cycle path) = true

abbrev pub is_loop : FlowAnomaly → Bool
is_loop (self_loop a) = true
is_loop (cycle path) = false

pub anomalies-counts :
    (loops : List SelfLoopAnomaly) (cycles : List (List Text))
    → (count_if is_loop (map self_loop loops ++ map cycle cycles) ≡ length loops)
      × (count_if is_cycle (map self_loop loops ++ map cycle cycles) ≡ length cycles)
anomalies-counts [] [] = (refl, refl)
anomalies-counts [] (c ∷ cycles) = let (l, k) = anomalies-counts [] cycles in (l, ap suc k)
anomalies-counts (a ∷ loops) cycles = let (l, k) = anomalies-counts loops cycles in (ap suc l, k)

module _ {ℓ} {A : Type ℓ} (p : A → Bool) where
  pub some_picked : (xs : List A) → leb 1 (count_if p xs) ≡ any p xs
  some_picked [] = refl
  some_picked (x ∷ xs) = ground (arith, some_picked xs)

  pub none_picked : (xs : List A) → nat_beq (count_if p xs) 0 ≡ not (any p xs)
  none_picked [] = refl
  none_picked (x ∷ xs) = ground (arith, none_picked xs)

-- The references that the edges ask for: one to the target of each feed edge out of the node, and one to
-- the source of each feed edge into it.
abbrev pub refs_out : Text → List FlowEdge → List FlowEdgeRef
refs_out x [] = []
refs_out x (e ∷ edges) =
    let rest = refs_out x edges in
    if leaves x e
    then record { edge_id = e.edge_id; node_id = e.to_node_id; direction = outgoing } ∷ rest
    else rest

abbrev pub refs_in : Text → List FlowEdge → List FlowEdgeRef
refs_in x [] = []
refs_in x (e ∷ edges) =
    let rest = refs_in x edges in
    if enters x e
    then record { edge_id = e.edge_id; node_id = e.from_node_id; direction = incoming } ∷ rest
    else rest

pub length-refs :
    (x : Text) (edges : List FlowEdge)
    → (length (refs_out x edges) ≡ count_if (leaves x) edges)
      × (length (refs_in x edges) ≡ count_if (enters x) edges)
length-refs x [] = (refl, refl)
length-refs x (e ∷ edges) =
    let (out, into) = length-refs x edges in (ground (arith, out), ground (arith, into))

refs_of-push :
    (m : RefMap) (k a : Text) (ref : FlowEdgeRef)
    → refs_of (push_ref m k ref) a ≡ refs_of m a ++ (if k == a then ref ∷ [] else [])
refs_of-push m k a ref = refs_of-put m k a (refs_of m k ++ ref ∷ []) ∙ elim (Bool-cases (k == a)) [
  | inl here ↦ rw here (ap (λ x. refs_of m x ++ ref ∷ []) ((text_beq_iff k a).0 here))
  | inr there ↦ rw there (sym (append-nil (refs_of m a)))
]

-- What hangs at a node after the edges is what was there and their references.
abbrev AreHung : EdgeRefs → EdgeRefs → List FlowEdge → Text → Type 0
AreHung r r' edges a =
    (refs_of r'.feeds a ≡ refs_of r.feeds a ++ refs_out a edges)
    × (refs_of r'.fed_by a ≡ refs_of r.fed_by a ++ refs_in a edges)

hung-AreHung :
    (k : EdgeKind) (e : FlowEdge) (r : EdgeRefs) (a : Text)
    → e.kind ≡ k
    → AreHung r (hung k e r) (e ∷ []) a
hung-AreHung feed e r a same = rw same (
  refs_of-push r.feeds e.from_node_id a (outgoing_ref e),
  refs_of-push r.fed_by e.to_node_id a (incoming_ref e),
)
hung-AreHung pmd_relation e r a same =
    rw same (sym (append-nil (refs_of r.feeds a)), sym (append-nil (refs_of r.fed_by a)))

refs_out-cons :
    (x : Text) (e : FlowEdge) (edges : List FlowEdge)
    → refs_out x (e ∷ edges) ≡ refs_out x (e ∷ []) ++ refs_out x edges
refs_out-cons x e edges = elim (Bool-cases (leaves x e)) [
  | inl on ↦ rw on refl
  | inr off ↦ rw off refl
]

refs_in-cons :
    (x : Text) (e : FlowEdge) (edges : List FlowEdge)
    → refs_in x (e ∷ edges) ≡ refs_in x (e ∷ []) ++ refs_in x edges
refs_in-cons x e edges = elim (Bool-cases (enters x e)) [
  | inl on ↦ rw on refl
  | inr off ↦ rw off refl
]

pub hang_all-AreHung :
    (edges : List FlowEdge) (r : EdgeRefs) (a : Text) → AreHung r (hang_all edges r) edges a
unfolding hang_all
hang_all-AreHung [] r a =
    (sym (append-nil (refs_of r.feeds a)), sym (append-nil (refs_of r.fed_by a)))
hang_all-AreHung (e ∷ edges) r a =
    let (f, b) = hang_all-AreHung edges (hung e.kind e r) a in
    let (f', b') = hung-AreHung e.kind e r a refl in
    (
      f
          ∙ ap (λ l. l ++ refs_out a edges) f'
          ∙ append_assoc (refs_of r.feeds a) (refs_out a (e ∷ [])) (refs_out a edges)
          ∙ ap (λ l. refs_of r.feeds a ++ l) (sym (refs_out-cons a e edges)),
      b
          ∙ ap (λ l. l ++ refs_in a edges) b'
          ∙ append_assoc (refs_of r.fed_by a) (refs_in a (e ∷ [])) (refs_in a edges)
          ∙ ap (λ l. refs_of r.fed_by a ++ l) (sym (refs_in-cons a e edges)),
    )

module _ (enrichment : Map Text FlowEnrichment) (drafts : Map Text NodeDraft) (r : EdgeRefs) where
  node_added-IsDistinct :
      (i : Text) (o : Option NodeDraft) (b : FlowBuilding)
      → IsDistinct (keys b.nodes)
      → IsDistinct (keys (node_added enrichment drafts r i o b).nodes)
  node_added-IsDistinct i none b d = d
  node_added-IsDistinct i (some draft) b d =
      let n : FlowNode = flow_node enrichment r i draft in
      subst (λ (m : Map Text FlowNode). IsDistinct (keys m)) (sym (counted-nodes n.match_status _))
        (put-IsDistinct b.nodes i n d)

  pub build_nodes-IsDistinct :
      (ids : List Text) (b : FlowBuilding)
      → IsDistinct (keys b.nodes)
      → IsDistinct (keys (build_nodes enrichment drafts r ids b).nodes)
  unfolding build_nodes
  build_nodes-IsDistinct [] b d = d
  build_nodes-IsDistinct (i ∷ ids) b d =
      build_nodes-IsDistinct ids (node_added enrichment drafts r i (get drafts i) b)
        (node_added-IsDistinct i (get drafts i) b d)

-- What holds of all nodes that are found holds of all entries.
pub All-of_get {κ} :
    (P : Text → FlowNode → Type κ) (m : Map Text FlowNode)
    → IsDistinct (keys m)
    → ((x : Text) (n : FlowNode) → get m x ≡ some n → P x n)
    → All (λ e. P e.0 e.1) m
All-of_get P [] d h = tt
All-of_get P ((k, n) ∷ m) (new, d) h = (
  h k n (let own = (text_beq_iff k k).1 refl in rw own refl),
  All-of_get P m d λ x l e. elim (Bool-cases (k == x)) [
    | inl same ↦
        let there : includes (keys m) k ≡ true =
          ap (includes (keys m)) ((text_beq_iff k x).0 same) ∙ has_of_get m x l e in
        let f : true ≡ false = sym there ∙ new in cc
    | inr other ↦ h x l (rw other e)
  ],
)

-- A test on the nodes and a test on their ids that agree pick equally many.
pub number_of-keys :
    (p : FlowNode → Bool) (q : Text → Bool) (m : Map Text FlowNode)
    → All (λ e. p e.1 ≡ q e.0) m
    → number_of p m ≡ count_if q (keys m)
number_of-keys p q [] _ = refl
number_of-keys p q ((k, n) ∷ m) (same, all) =
    let ih = number_of-keys p q m all in ground (arith, same, ih)
