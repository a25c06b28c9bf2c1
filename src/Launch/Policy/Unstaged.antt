-- ===== src/Launch/Policy/Unstaged.antt =====
-- src/launch/policy.rs: what a launch must provide, and the staging check of an unstaged daemon's
-- command.
use vivarium.Prelude.{
  ℕ, ◌≡◌, refl, ◌≢◌, Bool, true, false, some, List, [], ◌∷◌, Bytes, codes, bytes_eq, arith,
  any-append,
}
use vivarium.Launch.Spec.{ShareSpec, LaunchSpec, stage_dir}
use vivarium.Launch.Policy.{
  stage_share, wrapped, virtiofsd_args, flagged, show_rule, TranslationRule, map_one, forbid_guest,
  squash_host, add_translation, translation_rules, read_only_args,
}
use vivarium.Launch.Policy.Check.{contains}
use vivarium.Launch.Policy.Arguments.{IsRooted}
use vivarium.Launch.Policy.Daemon.{own_args}

-- The programs of a launch are paths from the root, and so is its runtime directory.
pub record IsPlaced (spec : LaunchSpec) : Type 0 where
  pub root : IsRooted spec.runtime_paths.root
  pub setpriv : IsRooted spec.backend_programs.setpriv
  pub virtiofsd : IsRooted spec.backend_programs.virtiofsd
  pub supervisor : IsRooted spec.backend_programs.supervisor

-- A share's paths are from the root, no free argument of it spells the staging subcommand, and its
-- source is not its own export root.
pub record IsServable (show : ℕ → Bytes) (spec : LaunchSpec) (share : ShareSpec) : Type 0 where
  pub source : IsRooted share.source
  pub socket : IsRooted share.socket
  pub no_word :
      contains
        (share.cache ∷ show spec.descriptor_budget.worker_pool_size ∷ share.extra_args)
        stage_share
      ≡ false
  pub apart : stage_dir share spec.runtime_paths.root ≢ some share.source

pub rooted-ne-word : (p : Bytes) → IsRooted p → bytes_eq stage_share p ≡ false
unfolding bytes_eq
rooted-ne-word [] h = absurd h
rooted-ne-word (c ∷ p) h = ground arith

flagged-no_word :
    (show : ℕ → Bytes) (flag : Bytes) (rs : List TranslationRule)
    → bytes_eq stage_share flag ≡ false
    → contains (flagged show flag rs) stage_share ≡ false
unfolding bytes_eq show_rule
flagged-no_word show flag [] h = refl
flagged-no_word show flag (map_one g i ∷ rs) h = rw h (flagged-no_word show flag rs h)
flagged-no_word show flag (forbid_guest b n ∷ rs) h = rw h (flagged-no_word show flag rs h)
flagged-no_word show flag (squash_host b o n ∷ rs) h = rw h (flagged-no_word show flag rs h)

add_translation-no_word :
    (show : ℕ → Bytes) (flag : Bytes) (guest host overflow id_max : ℕ)
    → bytes_eq stage_share flag ≡ false
    → contains (add_translation show flag guest host overflow id_max) stage_share ≡ false
unfolding add_translation
add_translation-no_word show flag guest host overflow id_max h =
    flagged-no_word show flag (translation_rules guest host overflow id_max) h

read_only-no_word : (b : Bool) → contains (read_only_args b) stage_share ≡ false
unfolding bytes_eq
read_only-no_word true = refl
read_only-no_word false = refl

pub own-no_word :
    (show : ℕ → Bytes) (spec : LaunchSpec) (share : ShareSpec) (dir : Bytes)
    → IsServable show spec share
    → IsRooted dir
    → contains (own_args show spec share dir) stage_share ≡ false
unfolding virtiofsd_args bytes_eq
own-no_word show spec share dir v d =
    let p = bytes_eq stage_share in
    let uid = codes "--translate-uid" in
    let gid = codes "--translate-gid" in
    rw
      (
        rooted-ne-word share.socket v.socket,
        rooted-ne-word dir d,
        any-append p,
        add_translation-no_word show uid _ _ _ _ refl,
        any-append p,
        add_translation-no_word show gid _ _ _ _ refl,
        any-append p,
        read_only-no_word share.read_only,
      )
      (ground (arith, v.no_word))

pub wrapped-no_word :
    (setpriv child : Bytes) (own : List Bytes) (drop : Bool)
    → IsRooted child
    → contains own stage_share ≡ false
    → contains (wrapped setpriv child own drop).args stage_share ≡ false
unfolding wrapped bytes_eq
wrapped-no_word setpriv child own true h k = rw (rooted-ne-word child h, k)
wrapped-no_word setpriv child own false h k = rw (rooted-ne-word child h, k)
