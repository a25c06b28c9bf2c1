-- ===== src/Launch/Policy/Translation.antt =====
-- src/launch/policy.rs: the ids that the rules of `add_translation` speak of.
use vivarium.Prelude.{
  ℕ, ◌+◌, ◌≤◌, ◌<◌, ◌≡◌, Bool, false, ◌&&◌, List, [], ◌∷◌, arith, ltb, leb, ◌==◌, if◌then◌else◌,
}
use vivarium.Launch.Policy.{TranslationRule, map_one, forbid_guest, squash_host, translation_rules}

-- Whether a rule says something of a guest id, and of a host id: `map` of its one id on either
-- side, `forbid-guest` and `squash-host` of `count` ids from `base`.
abbrev pub of_guest : ℕ → TranslationRule → Bool
of_guest id (map_one guest host) = id == guest
of_guest id (forbid_guest base count) = leb base id && ltb id (base + count)
of_guest id (squash_host base overflow count) = false

abbrev pub of_host : ℕ → TranslationRule → Bool
of_host id (map_one guest host) = id == host
of_host id (forbid_guest base count) = false
of_host id (squash_host base overflow count) = leb base id && ltb id (base + count)

-- How many rules there are of an id.
abbrev pub count : (TranslationRule → Bool) → List TranslationRule → ℕ
count p [] = 0
count p (r ∷ rs) = (if p r then 1 else 0) + count p rs

-- Of every guest id and of every host id up to the largest, exactly one translation rule speaks,
-- where the mapped ids are within the largest.
pub translation_rules_once :
    (guest host overflow id_max id : ℕ)
    → guest ≤ id_max
    → host ≤ id_max
    → id ≤ id_max
    → (count (of_guest id) (translation_rules guest host overflow id_max) ≡ 1)
      × (count (of_host id) (translation_rules guest host overflow id_max) ≡ 1)
unfolding translation_rules
translation_rules_once guest host overflow id_max id g h i = ground arith

-- No translation rule speaks of an id over the largest, on either side, where the mapped ids are
-- within it.
pub translation_rules_bounded :
    (guest host overflow id_max id : ℕ)
    → guest ≤ id_max
    → host ≤ id_max
    → id_max < id
    → (count (of_guest id) (translation_rules guest host overflow id_max) ≡ 0)
      × (count (of_host id) (translation_rules guest host overflow id_max) ≡ 0)
unfolding translation_rules
translation_rules_bounded guest host overflow id_max id g h i = ground arith
