-- ===== src/Launch/Policy/Accepted.antt =====
-- src/launch/policy.rs: the validation of what the profile renders.
use mathlib.Core.Option.{some-injective}
use vivarium.Prelude.{
  ℕ, ◌≡◌, refl, ◌∙◌, sym, ap, ◌≢◌, Bool, true, false, Option, none, some, List, [], ◌∷◌, ◌++◌,
  Bytes, codes, ◌==◌, bytes_eq, arith, inl, inr, Bool-cases, Option-cases, any, any-append_right,
  any-cons, drop, map, All, is_some, ok,
}
use vivarium.Net.Text.{strip_prefix}
use vivarium.Net.Netns.{enter_pair_args}
use vivarium.Launch.Spec.{
  ShareSpec, LaunchSpec, CommandSpec, stage_dir, staged_as, staged_kind, join, MountPlan,
  MountPlanKind,
}
use vivarium.Launch.Policy.{
  setpriv_policy, bounding_args, wrapped, entered, virtiofsd_args, virtiofsd, vmm_args, staged,
  staged_prefix, vmm, shares,
}
use vivarium.Launch.Policy.Check.{
  has_pair, contains, validate_share, validate_shares, validate_rendered, validate_wrapper,
  validate_staging, require_pair, wrapper_incomplete,
}
use vivarium.Launch.Policy.Arguments.{IsRooted, has_pair-append_right, has_pair-cons, has_pair-drop}
use vivarium.Launch.Policy.Daemon.{
  require_legs_mono, own_args, daemon_socket, daemon_shared_dir, daemon_sandbox, daemon_seccomp,
  daemon_handles, daemon_limit, wrapped-contains, wrapped-has_pair, wrapped-legs,
}
use vivarium.Launch.Policy.Unstaged.{IsPlaced, IsServable, own-no_word, wrapped-no_word}
use vivarium.Launch.Policy.Staged.{staged-valid, wrapped-shared_dir}

-- The facts that make up an accepted share.
validate_share_lem :
    (drop : Bool) (c : CommandSpec)
    → validate_wrapper c drop ≡ ok tt
    → validate_staging c ≡ ok tt
    → has_pair (codes "--sandbox") (codes "namespace") c.args ≡ true
    → has_pair (codes "--seccomp") (codes "kill") c.args ≡ true
    → has_pair (codes "--shared-dir") [] c.args ≡ true
    → has_pair (codes "--socket-path") [] c.args ≡ true
    → contains c.args (codes "--inode-file-handles=never") ≡ true
    → any (λ arg. is_some (strip_prefix (codes "--rlimit-nofile=") arg)) c.args ≡ true
    → validate_share drop c ≡ ok tt
unfolding validate_share require_pair
validate_share_lem drop c w s p q r t u v = rw (w, s, p, q, r, t, u, v)

module _ (show : ℕ → Bytes) (spec : LaunchSpec) (drop : Bool) (share : ShareSpec)
    (dir : Bytes) where
  abbrev daemon : CommandSpec
  daemon =
      wrapped spec.backend_programs.setpriv spec.backend_programs.virtiofsd
        (own_args show spec share dir) drop

  -- Everything but the staging, for a command that holds the daemon's arguments.
  around-daemon :
      (c : CommandSpec)
      → ((p : Bytes → Bool) → any p daemon.args ≡ true → any p c.args ≡ true)
      → ((flag value : Bytes)
          → has_pair flag value daemon.args ≡ true
          → has_pair flag value c.args ≡ true)
      → validate_staging c ≡ ok tt
      → validate_share drop c ≡ ok tt
  unfolding validate_wrapper
  around-daemon c holds pairs staging =
      validate_share_lem drop c
        (require_legs_mono wrapper_incomplete daemon.args c.args
          (setpriv_policy ++ bounding_args drop) (λ leg. holds (bytes_eq leg))
          (wrapped-legs setpriv virtiofsd own drop wrapper_incomplete))
        staging (pair (codes "--sandbox") (codes "namespace") (daemon_sandbox show spec share dir))
        (pair (codes "--seccomp") (codes "kill") (daemon_seccomp show spec share dir))
        (pair (codes "--shared-dir") [] (daemon_shared_dir show spec share dir))
        (pair (codes "--socket-path") [] (daemon_socket show spec share dir))
        (held (bytes_eq (codes "--inode-file-handles=never")) (daemon_handles show spec share dir))
        (held _ (daemon_limit show spec share dir))
    where
      setpriv : Bytes
      setpriv = spec.backend_programs.setpriv

      virtiofsd : Bytes
      virtiofsd = spec.backend_programs.virtiofsd

      own : List Bytes
      own = own_args show spec share dir

      pair :
          (flag value : Bytes) → has_pair flag value own ≡ true → has_pair flag value c.args ≡ true
      pair flag value h =
          pairs flag value (wrapped-has_pair setpriv virtiofsd own drop flag value h)

      held : (p : Bytes → Bool) → any p own ≡ true → any p c.args ≡ true
      held p h = holds p (wrapped-contains setpriv virtiofsd own drop p h)

join-IsRooted : (base part : Bytes) → IsRooted base → IsRooted (join base part)
unfolding join
join-IsRooted [] part h = absurd h
join-IsRooted (c ∷ cs) [] h = ground (arith, h)
join-IsRooted (c ∷ cs) (d ∷ part) h = elim (Bool-cases (d == b'/')) [
  | inl same ↦ rw same (ground arith)
  | inr other ↦ rw other (ground (arith, h))
]

staged_kind-IsRooted :
    (kind : MountPlanKind) (stage dir : Bytes)
    → IsRooted stage
    → staged_kind kind stage ≡ some dir
    → IsRooted dir
staged_kind-IsRooted MountPlanKind.file stage dir h e = rw (sym (some-injective stage dir e)) h
staged_kind-IsRooted MountPlanKind.dir stage dir h e = absurd (ground arith)
staged_kind-IsRooted MountPlanKind.tree stage dir h e = absurd (ground arith)

staged_as-IsRooted :
    (plan : Option MountPlan) (stage dir : Bytes)
    → IsRooted stage
    → staged_as plan stage ≡ some dir
    → IsRooted dir
staged_as-IsRooted (some plan) stage dir h e = staged_kind-IsRooted plan.kind stage dir h e
staged_as-IsRooted none stage dir h e = absurd (ground arith)

stage_dir-IsRooted :
    (share : ShareSpec) (root dir : Bytes)
    → IsRooted root
    → stage_dir share root ≡ some dir
    → IsRooted dir
unfolding stage_dir
stage_dir-IsRooted share root dir h e =
    let part = share.tag ++ codes ".stage" in
    staged_as-IsRooted share.mount_plan (join root part) dir (join-IsRooted root part h) e

module _ (show : ℕ → Bytes) (spec : LaunchSpec) (placed : IsPlaced spec) where
  -- A daemon that serves its source itself.
  unstaged-accepted :
      (drop : Bool) (share : ShareSpec)
      → IsServable show spec share
      → validate_share drop (daemon show spec drop share share.source) ≡ ok tt
  unfolding validate_staging
  unstaged-accepted drop share s =
      around-daemon show spec drop share share.source (daemon show spec drop share share.source)
        (λ p h. h) (λ flag value h. h)
        (rw (
          wrapped-no_word spec.backend_programs.setpriv spec.backend_programs.virtiofsd
            (own_args show spec share share.source) drop placed.virtiofsd
            (own-no_word show spec share share.source s s.source)))

  -- A daemon that serves the stage its supervisor binds the source to.
  staged-accepted :
      (dropped : Bool) (share : ShareSpec) (dir : Bytes)
      → IsServable show spec share
      → IsRooted dir
      → dir ≢ share.source
      → validate_share dropped (
          staged spec.backend_programs.unshare spec.backend_programs.supervisor share dir
            (daemon show spec dropped share dir))
        ≡ ok tt
  unfolding staged virtiofsd_args wrapped
  staged-accepted dropped share dir s d apart =
      let inner = daemon show spec dropped share dir in
      let front = staged_prefix spec.backend_programs.supervisor share dir in
      around-daemon show spec dropped share dir
        (staged spec.backend_programs.unshare spec.backend_programs.supervisor share dir inner)
        (λ p h.
          any-append_right p front (inner.program ∷ inner.args)
            (any-cons p inner.program inner.args h))
        (λ flag value h.
          has_pair-append_right flag value front (inner.program ∷ inner.args)
            (has_pair-cons flag value inner.program inner.args h))
        (staged-valid spec.backend_programs.supervisor share dir inner.program inner.args
          spec.backend_programs.unshare placed.supervisor s.source d placed.setpriv apart
          (wrapped-shared_dir spec.backend_programs.setpriv spec.backend_programs.virtiofsd
            share.socket dir (drop 4 (own_args show spec share dir)) dropped placed.virtiofsd
            s.socket))

  share-accepted :
      (dropped : Bool) (share : ShareSpec)
      → IsServable show spec share
      → validate_share dropped (virtiofsd show spec dropped share) ≡ ok tt
  unfolding virtiofsd
  share-accepted dropped share s = elim (Option-cases (stage_dir share spec.runtime_paths.root)) [
    | inl e ↦ rw (virtiofsd, e, e) (unstaged-accepted dropped share s)
    | inr (dir, e) ↦
        rw (virtiofsd, e, e)
          (staged-accepted dropped share dir s
            (stage_dir-IsRooted share spec.runtime_paths.root dir placed.root e)
            (λ same. s.apart (e ∙ ap some same)))
  ]

  shares-accepted :
      (dropped : Bool) (list : List ShareSpec)
      → All (IsServable show spec) list
      → validate_shares dropped (map (virtiofsd show spec dropped) list) ≡ ok tt
  unfolding validate_shares
  shares-accepted dropped [] h = refl
  shares-accepted dropped (share ∷ more) h =
      rw (share-accepted dropped share h.0) (shares-accepted dropped more h.1)

-- The VMM's wrapper is complete in whatever namespaces it is entered.
vmm-accepted :
    (show : ℕ → Bytes) (spec : LaunchSpec) (holder_pid : ℕ)
    → validate_wrapper (vmm show spec holder_pid) false ≡ ok tt
      × require_pair (vmm show spec holder_pid).args (codes "--seccomp") (codes "true") ≡ ok tt
unfolding vmm entered wrapped enter_pair_args validate_wrapper require_pair has_pair bytes_eq
vmm-accepted show spec holder_pid =
    let inner =
      wrapped spec.backend_programs.setpriv spec.backend_programs.cloud_hypervisor
        (vmm_args show spec) false in
    (
      require_legs_mono wrapper_incomplete inner.args (vmm show spec holder_pid).args
          (setpriv_policy ++ bounding_args false)
          (λ leg h.
            any-append_right (bytes_eq leg) (enter_pair_args show holder_pid [])
              (inner.program ∷ inner.args) (any-cons (bytes_eq leg) inner.program inner.args h))
          (wrapped-legs spec.backend_programs.setpriv spec.backend_programs.cloud_hypervisor
            (vmm_args show spec) false wrapper_incomplete),
      rw (has_pair-drop (codes "--seccomp") (codes "true") 13 (vmm show spec holder_pid).args refl)
          refl,
    )

-- The validation accepts the monitor and every daemon the profile renders, staged or not, whether
-- or not the bounding set is dropped, for a launch whose programs and runtime directory are paths
-- from the root and whose shares are servable.
pub validate_rendered-profile :
    (show : ℕ → Bytes) (spec : LaunchSpec) (holder_pid : ℕ) (dropped : Bool)
    → IsPlaced spec
    → All (IsServable show spec) spec.shares
    → validate_rendered (vmm show spec holder_pid) (shares show spec dropped) dropped ≡ ok tt
unfolding validate_rendered shares
validate_rendered-profile show spec holder_pid dropped placed servable =
    let monitor = vmm-accepted show spec holder_pid in
    rw (monitor.0, monitor.1) (shares-accepted show spec placed dropped spec.shares servable)
