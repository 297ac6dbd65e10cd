-- ===== src/Flow/Cycles/Work.antt =====
-- packages/electrical-flow/src/cycles.ts, `stronglyConnectedComponents`: the work that is left to its `while` loop.
use matchline.Base.{
  ◌≡◌, refl, ◌∙◌, inl, inr, ℕ, zero, suc, ◌+◌, ◌*◌, ◌-◌, ◌≤◌, ◌<◌, false, ◌||◌, List, [], ◌∷◌,
  Option, none, some, arith, Text, text_eq, ◌==◌, includes, length, get_elem?, Map, get, has, put,
  has-put, Bool-cases, Option-cases, List-cases, get-some_of_has,
}
use matchline.Flow.Weights.{weight_left, weight_left-more, weight_left-seen}
use matchline.Flow.Cycles.{
  FeedAdjacency, targets_of, TarjanFrame, Tarjan, same_number, follow, lower_parent,
  close_component, tarjan_step, explore,
}

pub has-false_of_get : (m : Map Text ℕ) (k : Text) → get m k ≡ none → has m k ≡ false
has-false_of_get m k e = elim (Bool-cases (has m k)) [
  | inl known ↦ let (v, found) = get-some_of_has m k known in cc
  | inr new ↦ new
]

module _ (adjacency : FeedAdjacency) where
  -- A frame is popped once, and each arc that is left to it can push a frame.
  abbrev pub frame_work : TarjanFrame → ℕ
  frame_work frame = suc (2 * (length (targets_of adjacency frame.node_id) - frame.next))

  abbrev pub frames_work : List TarjanFrame → ℕ
  frames_work [] = 0
  frames_work (frame ∷ frames) = frame_work frame + frames_work frames

  abbrev pub arc_work : List Text → ℕ
  arc_work targets = 2 * length targets

  abbrev pub work_left : Map Text ℕ → List TarjanFrame → ℕ
  work_left index frames = frames_work frames + weight_left arc_work (has index) adjacency

  length-some_lt : (xs : List Text) (i : ℕ) (x : Text) → get_elem? xs i ≡ some x → i < length xs
  length-some_lt [] i x e = cc
  length-some_lt (y ∷ xs) zero x e = omega arith
  length-some_lt (y ∷ xs) (suc i) x e = omega (arith, length-some_lt xs i x e)

  -- Entering a node costs its frame, beside the arcs that are paid for.
  pub weight-entered :
      (index : Map Text ℕ) (node_id : Text) (n : ℕ)
      → has index node_id ≡ false
      → 2 * length (targets_of adjacency node_id)
          + weight_left arc_work (has (put index node_id n)) adjacency
        ≤ weight_left arc_work (has index) adjacency
  weight-entered index node_id n new = elim (Option-cases (get adjacency node_id)) [
    | inl missing ↦ rw (missing, length) (weight-more index node_id n)
    | inr (targets, found) ↦
        rw (found, length)
          (omega (
            arith,
            weight_left-seen arc_work (has index) (has (put index node_id n)) node_id targets
                adjacency (extends index node_id n) new found,
          ))
  ]
    where
      extends :
          (i : Map Text ℕ) (k : Text) (m : ℕ) (x : Text) → has (put i k m) x ≡ (has i x || (k == x))
      extends i k m x = ground (arith, has-put i k x m)

      weight-more :
          (i : Map Text ℕ) (k : Text) (m : ℕ)
          → 2 * 0 + weight_left arc_work (has (put i k m)) adjacency
            ≤ weight_left arc_work (has i) adjacency
      weight-more i k m =
          omega
            (arith, weight_left-more arc_work (has i) (has (put i k m)) k adjacency (extends i k m))

  pub close_component-frames :
      (node_id : Text) (t : Tarjan)
      → ((close_component node_id t).frames ≡ t.frames)
        × ((close_component node_id t).index ≡ t.index)
  unfolding close_component
  close_component-frames node_id t =
      elim (Bool-cases (same_number (get t.low_link node_id) (get t.index node_id))) [
        | inl same ↦ rw same (refl, refl)
        | inr other ↦ rw other (refl, refl)
      ]

  pub lower_parent-frames :
      (node_id : Text) (frames : List TarjanFrame) (t : Tarjan)
      → ((lower_parent node_id frames t).frames ≡ t.frames)
        × ((lower_parent node_id frames t).index ≡ t.index)
  lower_parent-frames node_id [] t = (refl, refl)
  lower_parent-frames node_id (parent ∷ frames) t = (refl, refl)

  follow-work :
      (node_id target : Text) (o : Option ℕ) (t : Tarjan)
      → get t.index target ≡ o
      → work_left (follow node_id target o t).index (follow node_id target o t).frames
        ≤ suc (work_left t.index t.frames)
  follow-work node_id target none t e =
      omega (arith, weight-entered t.index target t.counter (has-false_of_get t.index target e))
  follow-work node_id target (some n) t e = elim (Bool-cases (includes t.on_stack target)) [
    | inl waiting ↦ rw waiting (omega arith)
    | inr closed ↦ rw closed (omega arith)
  ]

  tarjan_step-work :
      (o : Option Text) (frame : TarjanFrame) (frames : List TarjanFrame) (t : Tarjan)
      → get_elem? (targets_of adjacency frame.node_id) frame.next ≡ o
      → suc (work_left (tarjan_step o frame frames t).index (tarjan_step o frame frames t).frames)
        ≤ work_left t.index (frame ∷ frames)
  tarjan_step-work (some target) frame frames t e =
      let next : List TarjanFrame = record frame { next = frame.next + 1 } ∷ frames in
      let followed =
        follow-work frame.node_id target (get t.index target) (record t { frames = next }) refl in
      omega
        (arith, followed, length-some_lt (targets_of adjacency frame.node_id) frame.next target e)
  tarjan_step-work none frame frames t e =
      let u : Tarjan = lower_parent frame.node_id frames (record t { frames = frames }) in
      let (closed_frames, closed_index) = close_component-frames frame.node_id u in
      let (same_frames, same_index) =
        lower_parent-frames frame.node_id frames (record t { frames = frames }) in
      rw (closed_frames ∙ same_frames, closed_index ∙ same_index) (omega arith)

  pub explore-ends :
      (fuel : ℕ) (t : Tarjan)
      → work_left t.index t.frames ≤ fuel
      → (explore adjacency fuel t).frames ≡ []
  unfolding explore
  explore-ends zero t le = elim (List-cases t.frames) [
    | inl none_left ↦ none_left
    | inr (frame, frames, e) ↦
        let over : work_left t.index (frame ∷ frames) ≤ 0 = rw e at le in absurd (omega arith)
  ]
  explore-ends (suc fuel) t le = elim (List-cases t.frames) [
    | inl none_left ↦ rw (none_left, explore) none_left
    | inr (frame, frames, e) ↦
        let before : work_left t.index (frame ∷ frames) ≤ suc fuel = rw e at le in
        let step =
          tarjan_step-work (get_elem? (targets_of adjacency frame.node_id) frame.next) frame frames
            t refl in
        rw (e, explore) (explore-ends fuel _ (omega arith))
  ]
