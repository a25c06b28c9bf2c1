-- ===== src/Launch/Policy/Daemon.antt =====
-- src/launch/policy.rs: the arguments of a daemon, whatever its paths and numbers.
use vivarium.Prelude.{
  ℕ, ◌≡◌, refl, Bool, true, false, List, [], ◌∷◌, ◌++◌, Bytes, codes, bytes_eq, arith, inl, inr,
  Bool-cases, any, any-cons, any-append_right, any-drop, is_some, ok,
}
use vivarium.Net.Text.{strip_prefix}
use vivarium.Launch.Spec.{ShareSpec, LaunchSpec}
use vivarium.Launch.Policy.{setpriv_policy, bounding_args, wrapped, virtiofsd_args}
use vivarium.Launch.Policy.Check.{PolicyError, has_pair, contains, require_legs}
use vivarium.Launch.Policy.Arguments.{has_pair-append_right, has_pair-cons, has_pair-drop}

-- Legs that one list of arguments holds, a list that holds all of it does too.
pub require_legs_mono :
    (e : PolicyError) (as' bs legs : List Bytes)
    → ((leg : Bytes) → contains as' leg ≡ true → contains bs leg ≡ true)
    → require_legs e as' legs ≡ ok tt
    → require_legs e bs legs ≡ ok tt
require_legs_mono e as' bs [] more h = refl
require_legs_mono e as' bs (leg ∷ legs) more h = elim (Bool-cases (contains as' leg)) [
  | inl hit ↦ rw (more leg hit) (require_legs_mono e as' bs legs more (ground arith))
  | inr miss ↦ absurd (ground arith)
]

module _ (show : ℕ → Bytes) (spec : LaunchSpec) (share : ShareSpec) (dir : Bytes) where
  abbrev pub own_args : List Bytes
  own_args = virtiofsd_args show spec share dir

  pub daemon_socket : has_pair (codes "--socket-path") [] own_args ≡ true
  unfolding virtiofsd_args has_pair bytes_eq
  daemon_socket = refl

  pub daemon_shared_dir : has_pair (codes "--shared-dir") [] own_args ≡ true
  unfolding virtiofsd_args has_pair bytes_eq
  daemon_shared_dir = has_pair-drop (codes "--shared-dir") [] 2 own_args refl

  pub daemon_sandbox : has_pair (codes "--sandbox") (codes "namespace") own_args ≡ true
  unfolding virtiofsd_args has_pair bytes_eq
  daemon_sandbox = has_pair-drop (codes "--sandbox") (codes "namespace") 4 own_args refl

  pub daemon_seccomp : has_pair (codes "--seccomp") (codes "kill") own_args ≡ true
  unfolding virtiofsd_args has_pair bytes_eq
  daemon_seccomp = has_pair-drop (codes "--seccomp") (codes "kill") 6 own_args refl

  pub daemon_handles : contains own_args (codes "--inode-file-handles=never") ≡ true
  unfolding virtiofsd_args bytes_eq
  daemon_handles = any-drop (bytes_eq (codes "--inode-file-handles=never")) 8 own_args refl

  pub daemon_limit :
      any (λ arg. is_some (strip_prefix (codes "--rlimit-nofile=") arg)) own_args ≡ true
  unfolding virtiofsd_args strip_prefix
  daemon_limit =
      any-drop (λ arg. is_some (strip_prefix (codes "--rlimit-nofile=") arg)) 13 own_args refl

-- The arguments of the wrapper hold its legs and those of the child.
module _ (setpriv child : Bytes) (own : List Bytes) (drop : Bool) where
  pub wrapped-contains :
      (p : Bytes → Bool) → any p own ≡ true → any p (wrapped setpriv child own drop).args ≡ true
  unfolding wrapped
  wrapped-contains p h = any-append_right p setpriv_policy _ (
      any-append_right p (bounding_args drop) _
        (any-cons p (codes "--") (child ∷ own) (any-cons p child own h)))

  pub wrapped-has_pair :
      (flag value : Bytes)
      → has_pair flag value own ≡ true
      → has_pair flag value (wrapped setpriv child own drop).args ≡ true
  unfolding wrapped
  wrapped-has_pair flag value h = has_pair-append_right flag value setpriv_policy _ (
      has_pair-append_right flag value (bounding_args drop) _ (
        has_pair-cons flag value (codes "--") (child ∷ own) (has_pair-cons flag value child own h)))

  pub wrapped-legs :
      (e : PolicyError)
      → require_legs e (wrapped setpriv child own drop).args (setpriv_policy ++ bounding_args drop)
        ≡ ok tt
  unfolding wrapped bytes_eq
  wrapped-legs e = legs drop
    where
      legs :
          (d : Bool)
          → require_legs e (wrapped setpriv child own d).args (setpriv_policy ++ bounding_args d)
            ≡ ok tt
      legs true = refl
      legs false = refl
