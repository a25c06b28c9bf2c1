-- ===== src/Tests/Retention.antt =====
-- The theorems on src/cli/generations.rs at concrete inputs.
use vivarium.Prelude.{ℕ, ◌≡◌, refl, true, false, none, some, [], ◌∷◌, codes, inl, ◌⊎◌}
use vivarium.Config.Files.{lookup, keys, insert, insert_all}
use vivarium.Config.Generations.{Profile, gone, numbers, list, unlink, set_current}
use vivarium.Cli.Generations.{select, unlink_all, prune, retained, activate}
use vivarium.Cli.Generations.Pruned.{prune-pinned}
use vivarium.Cli.Generations.Spared.{IsRemoved, prune-ok}
use vivarium.Cli.Generations.Switched.{IsPrevious, rollback-ok}
use vivarium.Tests.State.{disk}

-- Three generations, the last of which is current; the machine booted from the second.
abbrev three : Profile
three = record {
  links = (1, codes "a") ∷ (2, codes "b") ∷ (3, codes "c") ∷ [];
  records = [];
  locks = [];
  current = some 3;
}

prune-pinned_example :
    let after =
      (prune
        (λ n. gone)
        (λ n. gone)
        (λ n. gone)
        disk
        true
        (some (codes "b"))
        0
        (some 1)
        none
        three).1 in
    (after.current ≡ three.current) × (lookup 3 after.links ≡ lookup 3 three.links)
prune-pinned_example =
    prune-pinned (λ n. gone) (λ n. gone) (λ n. gone) disk true (some (codes "b")) 0 (some 1) none
      three 3 (inl refl)

prune-ok_example :
    let run = prune (λ n. gone) (λ n. gone) (λ n. gone) disk false none 0 (some 2) none three in
    (IsRemoved disk three (some 2) none 0 1 × (lookup 1 run.1.links ≡ none))
    ⊎ ((¬ IsRemoved disk three (some 2) none 0 1) × (lookup 1 run.1.links ≡ lookup 1 three.links))
unfolding prune select list numbers keys insert_all insert unlink_all unlink
prune-ok_example =
    prune-ok (λ n. gone) (λ n. gone) (λ n. gone) disk false none 0 (some 2) none three 1 refl

rollback-ok_example :
    ((activate (λ target. true) disk none three).1 ≡ record three { current = some 2 })
    × (some 3 ≡ three.current)
    × ((current : ℕ) × (three.current ≡ some current)
        × IsPrevious (retained (λ target. true) disk three) current 2)
unfolding activate retained list numbers keys insert_all insert lookup set_current
rollback-ok_example = rollback-ok (λ target. true) disk three refl
