-- ===== src/Launch/Contract/Trees.antt =====
-- src/launch/spec.rs, `workspace_shares`: the workspaces among the shares, told of their plans.
use vivarium.Prelude.{
  ◌≡◌, refl, ap, ◌∙◌, if◌then◌else◌, Option, none, some, List, [], ◌∷◌, Bytes, map,
}
use vivarium.Launch.Spec.{MountPlanKind, MountPlan, ShareSpec}
use vivarium.Launch.Contract.Shares.{kind_is_tree, is_tree}
use vivarium.Launch.Contract.Validate.{workspace_shares}

-- The source of a share in front of those of others, where it is a workspace.
abbrev pub with_kind : MountPlanKind → Bytes → List Bytes → List Bytes
with_kind MountPlanKind.file source rest = rest
with_kind MountPlanKind.dir source rest = rest
with_kind MountPlanKind.tree source rest = source ∷ rest

abbrev pub with_tree : Option MountPlan → Bytes → List Bytes → List Bytes
with_tree none source rest = rest
with_tree (some plan) source rest = with_kind plan.kind source rest

abbrev pub trees : List ShareSpec → List Bytes
trees [] = []
trees (share ∷ more) = with_tree share.mount_plan share.source (trees more)

with_kind-is_tree :
    (kind : MountPlanKind) (share : ShareSpec) (more : List ShareSpec)
    → with_kind kind share.source (map (λ s. s.source) more)
      ≡ map (λ s. s.source) (if kind_is_tree kind then share ∷ more else more)
with_kind-is_tree MountPlanKind.file share more = refl
with_kind-is_tree MountPlanKind.dir share more = refl
with_kind-is_tree MountPlanKind.tree share more = refl

with_tree-is_tree :
    (plan : Option MountPlan) (share : ShareSpec) (more : List ShareSpec)
    → with_tree plan share.source (map (λ s. s.source) more)
      ≡ map (λ s. s.source) (if is_tree plan then share ∷ more else more)
with_tree-is_tree none share more = refl
with_tree-is_tree (some plan) share more = with_kind-is_tree plan.kind share more

pub trees-workspace_shares :
    (shares : List ShareSpec) → trees shares ≡ map (λ share. share.source) (workspace_shares shares)
unfolding workspace_shares
trees-workspace_shares [] = refl
trees-workspace_shares (share ∷ more) =
    ap (with_tree share.mount_plan share.source) (trees-workspace_shares more)
    ∙ with_tree-is_tree share.mount_plan share (workspace_shares more)
