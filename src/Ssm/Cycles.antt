-- ===== src/Ssm/Cycles.antt =====
-- packages/ssm-compiler/src/compile.ts, `findCycles`, `weakestMember` and `downgrade`. The `while`
-- loop runs on fuel: one unit per node, and one for the test that ends it.
pub mod Climb
pub mod Roots
pub mod Found
pub mod Links
pub mod Weakest
use matchline.Base.{
  ℕ, zero, suc, Bool, true, false, not, ◌&&◌, ◌||◌, List, [], ◌∷◌, ◌++◌, Option, none, some,
  if◌then◌else◌, ◌==◌, nat_beq, ltb, Text, text_eq, compare_text, Ordering, Map, get, has, put,
  length, includes, add, sort,
}
use matchline.Domain.Ladder.{LadderSourceKind, ParentLadderConfig}
use matchline.Domain.Snapshot.{ResolvedAssetNode, unresolved}
use matchline.Domain.Claim.{SsmRelationshipClaim}
use matchline.Ssm.Order.{tier_index, compare_claims}

-- The body of the loop that fills `parentOf`: parents outside the compile are left out.
abbrev pub link : Map Text ResolvedAssetNode → Map Text Text → Text → Option Text → Map Text Text
link nodes parent_of asset_id none = parent_of
link nodes parent_of asset_id (some parent_id) =
    if has nodes parent_id then put parent_of asset_id parent_id else parent_of

unfoldable pub links_from :
    Map Text ResolvedAssetNode → Map Text ResolvedAssetNode → Map Text Text → Map Text Text
links_from nodes [] parent_of = parent_of
links_from nodes ((asset_id, node) ∷ rest) parent_of =
    links_from nodes rest (link nodes parent_of asset_id node.parent.parent_asset_id)

-- The variables of the `while` loop.
pub record Climbing : Type 0 where
  pub path : List Text
  pub position_in_path : Map Text ℕ
  pub current : Option Text

-- `current !== undefined && !settled.has(current) && !positionInPath.has(current)`
unfoldable pub climbs_on : List Text → Climbing → Option Text → Bool
climbs_on settled s none = false
climbs_on settled s (some current) =
    not (includes settled current) && not (has s.position_in_path current)

abbrev pub stepped : Map Text Text → Climbing → Option Text → Climbing
stepped parent_of s none = s
stepped parent_of s (some current) = record {
  path = s.path ++ current ∷ [];
  position_in_path = put s.position_in_path current (length s.path);
  current = get parent_of current;
}

-- The `while` loop.
unfoldable pub climb : ℕ → Map Text Text → List Text → Climbing → Climbing
unfolding climbs_on
climb zero parent_of settled s = s
climb (suc fuel) parent_of settled s =
    let rest = climb fuel parent_of settled (stepped parent_of s s.current) in
    if climbs_on settled s s.current then rest else s

-- `xs.slice(n)`
unfoldable pub slice : List Text → ℕ → List Text
slice xs zero = xs
slice [] (suc n) = []
slice (x ∷ xs) (suc n) = slice xs n

pub record Search : Type 0 where
  pub settled : List Text
  pub cycles : List (List Text)

-- `if (current !== undefined) { const start = positionInPath.get(current); if (start !== undefined) … }`
unfoldable pub closed : Climbing → Option Text → List (List Text)
unfolding slice
closed s none = []
closed s (some current) = elim (get s.position_in_path current) [
  | none ↦ []
  | some start ↦ slice s.path start ∷ []
]

unfoldable pub add_all : List Text → List Text → List Text
add_all settled [] = settled
add_all settled (visited ∷ path) = add_all (add settled visited) path

abbrev pub finished : Search → Climbing → Search
finished state s = record {
  settled = add_all state.settled s.path;
  cycles = state.cycles ++ closed s s.current;
}

abbrev pub start_path : Text → Climbing
start_path start_id = record { path = []; position_in_path = []; current = some start_id }

-- The body of the loop over `orderedIds`.
unfoldable pub search_from : ℕ → Map Text Text → Search → Text → Search
search_from fuel parent_of state start_id =
    if includes state.settled start_id
    then state
    else finished state (climb fuel parent_of state.settled (start_path start_id))

unfoldable pub search_all : ℕ → Map Text Text → Search → List Text → Search
unfolding search_from
search_all fuel parent_of state [] = state
search_all fuel parent_of state (start_id ∷ ids) =
    search_all fuel parent_of (search_from fuel parent_of state start_id) ids

unfoldable pub find_cycles : Map Text ResolvedAssetNode → List Text → List (List Text)
unfolding search_all links_from
find_cycles nodes ordered_ids =
    (search_all (suc (length nodes)) (links_from nodes nodes [])
      (record { settled = []; cycles = [] }) ordered_ids).cycles

-- `chosen` and `chosenRank`, which are set together.
abbrev pub Chosen : Type 0
Chosen = Option (Text × ℕ)

abbrev pub is_gt : Ordering → Bool
is_gt Ordering.lt = false
is_gt Ordering.eq = false
is_gt Ordering.gt = true

abbrev pub rank_of : ParentLadderConfig → Option LadderSourceKind → ℕ
rank_of ladder none = length ladder.tiers
rank_of ladder (some source) = tier_index ladder source

abbrev pub outweighed : Text → ℕ → Chosen → Chosen
outweighed asset_id rank none = some (asset_id, rank)
outweighed asset_id rank (some (chosen, chosen_rank)) =
    if ltb chosen_rank rank
    then some (asset_id, rank)
    else if nat_beq rank chosen_rank && is_gt (compare_text asset_id chosen)
    then some (asset_id, chosen_rank)
    else some (chosen, chosen_rank)

-- The body of the loop in `weakestMember`.
abbrev pub weighed : ParentLadderConfig → Chosen → Text → Option ResolvedAssetNode → Chosen
weighed ladder chosen asset_id none = chosen
weighed ladder chosen asset_id (some node) =
    outweighed asset_id (rank_of ladder node.parent.ladder_source) chosen

unfoldable pub weakest_from :
    Map Text ResolvedAssetNode → ParentLadderConfig → Chosen → List Text → Chosen
weakest_from nodes ladder chosen [] = chosen
weakest_from nodes ladder chosen (asset_id ∷ cycle) =
    weakest_from nodes ladder (weighed ladder chosen asset_id (get nodes asset_id)) cycle

abbrev pub chosen_id : Chosen → Option Text
chosen_id none = none
chosen_id (some (chosen, rank)) = some chosen

unfoldable pub weakest_member :
    List Text → Map Text ResolvedAssetNode → ParentLadderConfig → Option Text
unfolding weakest_from
weakest_member cycle nodes ladder = chosen_id (weakest_from nodes ladder none cycle)

abbrev pub with_rejected :
    ParentLadderConfig
    → List SsmRelationshipClaim
    → Option SsmRelationshipClaim
    → List SsmRelationshipClaim
with_rejected ladder losing_claims none = losing_claims
with_rejected ladder losing_claims (some rejected) =
    sort (compare_claims ladder) (losing_claims ++ rejected ∷ [])

unfoldable pub downgrade : ResolvedAssetNode → ParentLadderConfig → ResolvedAssetNode
downgrade node ladder = record node {
  parent = record {
    parent_asset_id = none;
    ladder_source = none;
    winning_claim = none;
    demoted_from = node.parent.demoted_from;
    status = unresolved;
  };
  losing_claims = with_rejected ladder node.losing_claims node.parent.winning_claim;
}
