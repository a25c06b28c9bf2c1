-- ===== src/Launch/Policy/Staged.antt =====
-- src/launch/policy.rs: the staging check of a staged daemon's command.
use vivarium.Prelude.{
  ◌≡◌, refl, ◌∙◌, ◌≢◌, Bool, true, false, some, List, [], ◌∷◌, ◌++◌, Bytes, codes, bytes_eq,
  bytes_eq_refl, bytes_eq_iff, inl, inr, Bool-cases, any, any-drop, ok,
}
use vivarium.Launch.Spec.{ShareSpec}
use vivarium.Launch.Policy.{stage_share, staging_namespace, wrapped, read_only_args, staged_prefix}
use vivarium.Launch.Policy.Check.{
  contains, require_legs, find_value, validate_staging, staging_namespace_incomplete,
}
use vivarium.Launch.Policy.Arguments.{IsRooted, rooted-ne, find_value-append}

-- What is in front of `--shared-dir` in a wrapped daemon.
pub wrapped-shared_dir :
    (setpriv child socket dir : Bytes) (more : List Bytes) (drop : Bool)
    → IsRooted child
    → IsRooted socket
    → find_value
        (codes "--shared-dir")
        (wrapped setpriv child
          (codes "--socket-path" ∷ socket ∷ codes "--shared-dir" ∷ dir ∷ more)
          drop).args
      ≡ some dir
unfolding wrapped find_value bytes_eq
wrapped-shared_dir setpriv child socket dir more true h k =
    let flag = codes "--shared-dir" in
    rw (rooted-ne child flag h refl, rooted-ne socket flag k refl)
wrapped-shared_dir setpriv child socket dir more false h k =
    let flag = codes "--shared-dir" in
    rw (rooted-ne child flag h refl, rooted-ne socket flag k refl)

read_only-clear :
    (b : Bool)
    → any (λ x. bytes_eq x (codes "--shared-dir")) (read_only_args b ++ (codes "--" ∷ [])) ≡ false
unfolding bytes_eq
read_only-clear true = refl
read_only-clear false = refl

bytes-apart : (a b : Bytes) → a ≢ b → bytes_eq a b ≡ false
bytes-apart a b h = elim (Bool-cases (bytes_eq a b)) [
  | inl same ↦ absurd (h ((bytes_eq_iff a b).0 same))
  | inr other ↦ other
]

module _ (supervisor : Bytes) (share : ShareSpec) (stage first : Bytes) (rest : List Bytes) where
  abbrev staged_args : List Bytes
  staged_args = staged_prefix supervisor share stage ++ (first ∷ rest)

  staged-word : contains staged_args stage_share ≡ true
  unfolding staged_prefix bytes_eq
  staged-word = any-drop (bytes_eq stage_share) 8 staged_args refl

  staged-namespace : require_legs staging_namespace_incomplete staged_args staging_namespace ≡ ok tt
  unfolding staged_prefix bytes_eq
  staged-namespace = refl

  staged-stage :
      IsRooted supervisor
      → IsRooted share.source
      → find_value (codes "--stage") staged_args ≡ some stage
  unfolding staged_prefix find_value bytes_eq
  staged-stage h k =
      let flag = codes "--stage" in
      rw (rooted-ne supervisor flag h refl, rooted-ne share.source flag k refl)

  staged-source :
      IsRooted supervisor → find_value (codes "--source") staged_args ≡ some share.source
  unfolding staged_prefix find_value bytes_eq
  staged-source h = rw (rooted-ne supervisor (codes "--source") h refl)

  prefix-clear :
      IsRooted supervisor
      → IsRooted share.source
      → IsRooted stage
      → any (λ x. bytes_eq x (codes "--shared-dir")) (staged_prefix supervisor share stage) ≡ false
  unfolding staged_prefix bytes_eq
  prefix-clear h k i =
      let flag = codes "--shared-dir" in
      rw (
        rooted-ne supervisor flag h refl,
        rooted-ne share.source flag k refl,
        rooted-ne stage flag i refl,
        read_only-clear share.read_only,
      )

  staged-shared_dir :
      IsRooted supervisor
      → IsRooted share.source
      → IsRooted stage
      → IsRooted first
      → find_value (codes "--shared-dir") staged_args ≡ find_value (codes "--shared-dir") rest
  staged-shared_dir h k i f =
      let flag = codes "--shared-dir" in
      find_value-append flag (staged_prefix supervisor share stage) (first ∷ rest)
        (prefix-clear h k i)
      ∙ find_value-append flag (first ∷ []) rest (rw (rooted-ne first flag f refl))

  -- The staging check over such arguments, where the daemon's `--shared-dir` is the stage.
  pub staged-valid :
      (unshare : Bytes)
      → IsRooted supervisor
      → IsRooted share.source
      → IsRooted stage
      → IsRooted first
      → stage ≢ share.source
      → find_value (codes "--shared-dir") rest ≡ some stage
      → validate_staging (record { program = unshare; args = staged_args }) ≡ ok tt
  unfolding validate_staging
  staged-valid unshare h k i f apart served = rw (
    staged-word,
    staged-namespace,
    staged-stage h k,
    staged-source h,
    staged-shared_dir h k i f,
    served,
    bytes_eq_refl stage,
    bytes-apart stage share.source apart,
  )
