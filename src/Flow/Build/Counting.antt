-- ===== src/Flow/Build/Counting.antt =====
-- packages/electrical-flow/src/build.ts, `buildElectricalFlow`: how many nodes have a status.
use matchline.Base.{
  ◌≡◌, ap, ◌∙◌, ℕ, suc, ◌+◌, Bool, true, false, [], ◌∷◌, ◌++◌, if◌then◌else◌, arith, Text, text_eq,
  length, Map, has, put, put_of_new,
}
use matchline.Flow.Types.{FlowMatchStatus, model_confirmed, flow_only, pmd_only, FlowNode}

-- How many nodes a test picks.
abbrev pub number_of : (FlowNode → Bool) → Map Text FlowNode → ℕ
number_of p [] = 0
number_of p ((k, n) ∷ m) = if p n then suc (number_of p m) else number_of p m

number_of-concat :
    (p : FlowNode → Bool) (m : Map Text FlowNode) (k : Text) (n : FlowNode)
    → number_of p (m ++ (k, n) ∷ []) ≡ number_of p m + (if p n then 1 else 0)
number_of-concat p [] k n = ground arith
number_of-concat p ((j, l) ∷ m) k n = ground (arith, number_of-concat p m k n)

abbrev pub same_status : FlowMatchStatus → FlowMatchStatus → Bool
same_status model_confirmed model_confirmed = true
same_status flow_only flow_only = true
same_status pmd_only pmd_only = true
same_status s t = false

abbrev pub has_status : FlowMatchStatus → FlowNode → Bool
has_status s n = same_status s n.match_status

pub number_of-put :
    (p : FlowNode → Bool) (m : Map Text FlowNode) (k : Text) (n : FlowNode)
    → has m k ≡ false
    → number_of p (put m k n) ≡ number_of p m + (if p n then 1 else 0)
number_of-put p m k n new = ap (number_of p) (put_of_new m k n new) ∙ number_of-concat p m k n

pub number_of-put_status :
    (s t : FlowMatchStatus) (m : Map Text FlowNode) (k : Text) (n : FlowNode)
    → has m k ≡ false
    → n.match_status ≡ t
    → number_of (has_status s) (put m k n)
      ≡ number_of (has_status s) m + (if same_status s t then 1 else 0)
number_of-put_status s t m k n new e =
    number_of-put (has_status s) m k n new
    ∙ ap (λ u. number_of (has_status s) m + (if same_status s u then 1 else 0)) e

-- The three statuses share the nodes out.
pub number_of_all :
    (m : Map Text FlowNode)
    → number_of (has_status model_confirmed) m
        + number_of (has_status flow_only) m
        + number_of (has_status pmd_only) m
      ≡ length m
number_of_all [] = omega arith
number_of_all ((k, n) ∷ m) =
    of_status n.match_status (number_of (has_status model_confirmed) m)
      (number_of (has_status flow_only) m) (number_of (has_status pmd_only) m) (length m)
      (number_of_all m)
  where
    of_status :
        (s : FlowMatchStatus) (a b c l : ℕ)
        → a + b + c ≡ l
        → (if same_status model_confirmed s then suc a else a)
            + (if same_status flow_only s then suc b else b)
            + (if same_status pmd_only s then suc c else c)
          ≡ suc l
    of_status model_confirmed a b c l h = omega arith
    of_status flow_only a b c l h = omega arith
    of_status pmd_only a b c l h = omega arith
