-- ===== src/Launch/Contract/Validate.antt =====
-- src/launch/spec.rs, `LaunchSpec::validate`: the whole of it.
use vivarium.Prelude.{
  ◌||◌, not, List, [], ◌∷◌, ◌++◌, Bytes, codes, ◌==◌, map, is_some, err, ok, if◌then◌else◌,
}
use vivarium.Net.Address.{Addresses}
use vivarium.Net.Allowlist.{parse}
use vivarium.Net.Text.{is_empty}
use vivarium.Launch.Spec.{ShareSpec, LaunchSpec}
use vivarium.Launch.Paths.{path_eq}
use vivarium.Launch.Workspace.{nested_pair}
use vivarium.Launch.Checks.{schema_skew, Check, all_ok, guest_allowance, require_absolute_resolved}
use vivarium.Launch.Contract.{
  HostDisk, launch_schema_version, refuse_if, allowance_check, in_store, store_programs, parses,
  network_checks, runtime_checks, leg_sockets, met, sockets_fresh, credentials_ok,
}
use vivarium.Launch.Contract.Shares.{is_tree, shares_ok, volumes_ok}

-- `workspace_shares`.
unfoldable pub workspace_shares : List ShareSpec → List ShareSpec
workspace_shares [] = []
workspace_shares (share ∷ more) =
    let rest = workspace_shares more in if is_tree share.mount_plan then share ∷ rest else rest

-- The sockets met when the credentials begin, and when the shares do.
abbrev pub legs_met : LaunchSpec → List Bytes
legs_met spec = met [] (leg_sockets spec)

abbrev pub credential_sockets : LaunchSpec → List Bytes
credential_sockets spec = map (λ credential. credential.host_socket) spec.socket_legs.credentials

module _ (lib : Addresses) (disk : HostDisk) where
  unfoldable pub head_checks : LaunchSpec → List Check
  unfolding guest_allowance
  head_checks spec =
      (if spec.schema_version == launch_schema_version
          then ok tt
          else err (schema_skew spec.schema_version launch_schema_version))
        ∷ refuse_if (is_empty spec.sandbox_id || is_empty spec.target || is_empty spec.shares)
            (codes "sandbox id, target, and shares are required")
        ∷ allowance_check (guest_allowance spec.descriptor_budget)
        ∷ map in_store (store_programs spec.backend_programs)
      ++ (require_absolute_resolved spec.backend_programs.supervisor
          ∷ refuse_if (not (parses (parse lib spec.egress.allow)))
              (codes "egress allowlist entry is malformed")
          ∷ [])

  unfoldable pub session_checks : LaunchSpec → List Check
  session_checks spec =
      refuse_if (is_empty spec.guest_session.user || is_empty spec.guest_session.path)
        (codes "guest session user and path are required")
      ∷ require_absolute_resolved spec.guest_session.home
      ∷ require_absolute_resolved spec.guest_session.shell
      ∷ refuse_if
          (not (path_eq spec.socket_legs.api spec.runtime_paths.api_socket)
            || not (path_eq spec.socket_legs.console spec.runtime_paths.console_socket))
          (codes "socket legs must name exact runtime sockets")
      ∷ []

  unfoldable pub row_checks : LaunchSpec → List Check
  unfolding sockets_fresh credentials_ok shares_ok volumes_ok workspace_shares nested_pair
  row_checks spec =
      sockets_fresh [] (leg_sockets spec)
      ∷ credentials_ok disk [] (legs_met spec) spec.socket_legs.credentials
      ∷ shares_ok disk spec.runtime_paths.root [] (met (legs_met spec) (credential_sockets spec))
          spec.shares
      ∷ refuse_if
          (is_some (nested_pair (map (λ share. share.source) (workspace_shares spec.shares))))
          (codes "workspace paths overlap")
      ∷ volumes_ok [] [] spec.volumes
      ∷ []

  unfoldable pub validate : LaunchSpec → Check
  unfolding head_checks session_checks row_checks
  validate spec = all_ok (
      all_ok (head_checks spec)
      ∷ all_ok (network_checks spec.network)
      ∷ all_ok (runtime_checks spec.runtime_paths)
      ∷ all_ok (session_checks spec)
      ∷ all_ok (row_checks spec)
      ∷ [])
