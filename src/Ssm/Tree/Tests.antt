-- ===== src/Ssm/Tree/Tests.antt =====
-- packages/ssm-compiler/src/tree.ts: the tree of a small plant.
use matchline.Base.{◌≡◌, text}
use matchline.Ssm.Plant.{looped}
use matchline.Ssm.Snapshot.{compile_snapshot}
use matchline.Ssm.Tree.Whole.{hierarchy_tree}
use matchline.Ssm.Tree.Filed.{occurs_in}
use matchline.Ssm.Tree.Once.{hierarchy_tree-once}

hierarchy_tree-once_example :
    occurs_in
      (text "BRK")
      (hierarchy_tree (compile_snapshot looped) looped.hierarchy looped.subjects)
    ≡ 1
hierarchy_tree-once_example = hierarchy_tree-once looped (text "BRK")
