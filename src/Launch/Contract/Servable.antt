-- ===== src/Launch/Contract/Servable.antt =====
-- src/launch/spec.rs with src/launch/policy.rs: a validated contract is one the profile can serve.
use mathlib.Core.Path.{subst}
use vivarium.Prelude.{
  ℕ, ◌≡◌, refl, sym, ◌≢◌, Bool, true, false, not, some, List, [], ◌∷◌, Bytes, codes, bytes_eq,
  bytes_eq_sound, bytes_eq_refl, any, all, All, All-drop, arith, Bool-cases, Option-cases, inl, inr,
  ok, >>-eq-ok,
}
use vivarium.Net.Address.{Addresses}
use vivarium.Launch.Spec.{ShareSpec, LaunchSpec, stage_dir}
use vivarium.Launch.Mounts.{slash, components, is_absolute, path_starts_with, is_prefix, overlaps}
use vivarium.Launch.Paths.{parent, parts_eq, without_last}
use vivarium.Launch.Policy.{stage_share, vmm, shares}
use vivarium.Launch.Policy.Check.{contains, validate_rendered}
use vivarium.Launch.Policy.Arguments.{IsRooted}
use vivarium.Launch.Policy.Unstaged.{IsPlaced, IsServable}
use vivarium.Launch.Policy.Accepted.{validate_rendered-profile}
use vivarium.Launch.Checks.{
  is_digit, require_absolute_resolved, require_exact_child, reject_session_source,
}
use vivarium.Launch.Checks.Facts.{
  Passes, all_ok-All, require_absolute_resolved-is_absolute, require_exact_child-absolute,
}
use vivarium.Launch.Contract.{HostDisk, refuse_if, in_store, runtime_checks}
use vivarium.Launch.Contract.Shares.{caches, stage_check, share_checks, shares_ok}
use vivarium.Launch.Contract.Validate.{head_checks, row_checks, validate}

absolute-IsRooted : (path : Bytes) → is_absolute path ≡ true → IsRooted path
absolute-IsRooted [] h = absurd (ground arith)
absolute-IsRooted (c ∷ cs) h = ground (arith, h)

resolved-IsRooted : (path : Bytes) → Passes (require_absolute_resolved path) → IsRooted path
resolved-IsRooted path h = absolute-IsRooted path (require_absolute_resolved-is_absolute path h)

in_store-IsRooted : (path : Bytes) → Passes (in_store path) → IsRooted path
in_store-IsRooted path h = resolved-IsRooted path (>>-eq-ok (require_absolute_resolved path) _ h).0

-- The components of a parent stand in front of those of its child.
parent-is_prefix :
    (xs ys front : List Bytes)
    → without_last xs ≡ some front
    → parts_eq front ys ≡ true
    → is_prefix ys xs ≡ true
parent-is_prefix [] ys front h k = absurd (cc h)
parent-is_prefix (x ∷ xs) [] front h k = refl
parent-is_prefix (x ∷ []) (z ∷ ys) [] h k = absurd (ground (arith, k))
parent-is_prefix (x ∷ []) (z ∷ ys) (f ∷ front) h k = absurd (ground (arith, h))
parent-is_prefix (x ∷ y ∷ xs) (z ∷ ys) front h k = elim (Option-cases (without_last (y ∷ xs))) [
  | inl e ↦ absurd (ground (arith, e, h))
  | inr (behind, e) ↦ elim (Bool-cases (bytes_eq x z)) [
    | inr f ↦ absurd (ground (arith, e, f, h, k))
    | inl f ↦
        rw (sym (bytes_eq_sound x z f), bytes_eq_refl x)
          (parent-is_prefix (y ∷ xs) ys behind e (ground (arith, e, f, h, k)))
  ]
]

-- An exact child of the runtime directory is one of the sources that a session keeps to itself.
child-overlaps :
    (path root : Bytes) → Passes (require_exact_child path root) → overlaps path root ≡ true
unfolding require_exact_child parent path_starts_with
child-overlaps path root h = elim (Option-cases (without_last (components path))) [
  | inl e ↦ absurd (ground (arith, e, (>>-eq-ok (require_absolute_resolved path) _ h).1))
  | inr (front, e) ↦
      let (first, second) = >>-eq-ok (require_absolute_resolved path) _ h in
      let same : parts_eq front (components root) ≡ true = ground (arith, e, second) in
      let rooted : is_absolute root ≡ true = ground (arith, e, second) in
      let absolute = require_absolute_resolved-is_absolute path first in
      rw (absolute, rooted, bytes_eq_refl (slash ∷ []))
        (ground (arith, parent-is_prefix (components path) (components root) front e same))
]

stage-apart :
    (share : ShareSpec) (root : Bytes)
    → Passes (stage_check root (stage_dir share root))
    → Passes (reject_session_source share.source root)
    → stage_dir share root ≢ some share.source
unfolding reject_session_source
stage-apart share root staged kept e =
    let child : Passes (require_exact_child share.source root) =
      subst (λ o. Passes (stage_check root o)) e staged in
    ground (arith, child-overlaps share.source root child, kept)

digits-no_word : (text : Bytes) → all is_digit text ≡ true → bytes_eq stage_share text ≡ false
unfolding bytes_eq
digits-no_word [] h = refl
digits-no_word (c ∷ cs) h = ground (arith, h)

caches-no_word :
    (cache : Bytes) → any (bytes_eq cache) caches ≡ true → bytes_eq stage_share cache ≡ false
unfolding bytes_eq
caches-no_word [] h = refl
caches-no_word (c ∷ cs) h = ground (arith, h)

caches-eq-any : (b : Bool) → Passes (refuse_if (not b) (codes "unsupported share cache")) → b ≡ true
caches-eq-any true h = refl
caches-eq-any false h = cc

-- No free argument of a share is the word of the staging subcommand.
abbrev pub IsWordless : ShareSpec → Type 0
IsWordless share = contains share.extra_args stage_share ≡ false

module _ (show : ℕ → Bytes) (decimal : (n : ℕ) → all is_digit (show n) ≡ true) (disk : HostDisk)
    (spec : LaunchSpec) where
  share-IsServable :
      (tags sockets : List Bytes) (share : ShareSpec)
      → All Passes (share_checks disk spec.runtime_paths.root tags sockets share)
      → IsWordless share
      → IsServable show spec share
  unfolding share_checks
  share-IsServable tags sockets share h free = record {
    source = resolved-IsRooted share.source h.1.1.0;
    socket =
        resolved-IsRooted share.socket
          (require_exact_child-absolute share.socket spec.runtime_paths.root h.1.1.1.1.0);
    no_word =
        rw
          (
            caches-no_word share.cache (
                caches-eq-any (any (bytes_eq share.cache) caches)
                  (All-drop Passes 12 (share_checks disk spec.runtime_paths.root tags sockets share)
                    h).0),
            digits-no_word (show spec.descriptor_budget.worker_pool_size)
                (decimal spec.descriptor_budget.worker_pool_size),
          )
          free;
    apart =
        stage-apart share spec.runtime_paths.root h.1.1.1.1.1.0
          (All-drop Passes 7 (share_checks disk spec.runtime_paths.root tags sockets share) h).0;
  }

  shares-IsServable :
      (tags sockets : List Bytes) (list : List ShareSpec)
      → Passes (shares_ok disk spec.runtime_paths.root tags sockets list)
      → All IsWordless list
      → All (IsServable show spec) list
  unfolding shares_ok
  shares-IsServable tags sockets [] h free = tt
  shares-IsServable tags sockets (s ∷ more) h free =
      let (row, after) =
        >>-eq-ok _ (shares_ok disk spec.runtime_paths.root (s.tag ∷ tags) (s.socket ∷ sockets) more)
          h in
      (
        share-IsServable tags sockets s (all_ok-All _ row) free.0,
        shares-IsServable (s.tag ∷ tags) (s.socket ∷ sockets) more after free.1,
      )

head-IsPlaced :
    (lib : Addresses) (disk : HostDisk) (spec : LaunchSpec)
    → All Passes (head_checks lib disk spec)
    → All Passes (runtime_checks spec.runtime_paths)
    → IsPlaced spec
unfolding head_checks
head-IsPlaced lib disk spec h k =
    let tests = head_checks lib disk spec in
    record {
      root = resolved-IsRooted spec.runtime_paths.root k.0;
      virtiofsd = in_store-IsRooted spec.backend_programs.virtiofsd (All-drop Passes 5 tests h).0;
      setpriv = in_store-IsRooted spec.backend_programs.setpriv (All-drop Passes 6 tests h).0;
      supervisor =
          resolved-IsRooted spec.backend_programs.supervisor (All-drop Passes 16 tests h).0;
    }

-- A contract that the validation accepts, no free argument of which is the word of the staging
-- subcommand, renders to commands that the check of the rendering accepts, whether or not the
-- bounding set is dropped, for every printing of numbers in decimal digits.
pub validate-rendered :
    (show : ℕ → Bytes) (lib : Addresses) (disk : HostDisk) (spec : LaunchSpec)
    → ((n : ℕ) → all is_digit (show n) ≡ true)
    → validate lib disk spec ≡ ok tt
    → All IsWordless spec.shares
    → (holder_pid : ℕ) (dropped : Bool)
    → validate_rendered (vmm show spec holder_pid) (shares show spec dropped) dropped ≡ ok tt
unfolding validate row_checks
validate-rendered show lib disk spec decimal h free holder_pid dropped =
    let parts = all_ok-All _ h in
    let rows = all_ok-All (row_checks lib disk spec) parts.1.1.1.1.0 in
    validate_rendered-profile show spec holder_pid dropped
      (head-IsPlaced lib disk spec (all_ok-All _ parts.0) (all_ok-All _ parts.1.1.0))
      (shares-IsServable show decimal disk spec _ _ spec.shares rows.1.1.0 free)
