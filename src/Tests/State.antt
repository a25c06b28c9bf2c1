-- ===== src/Tests/State.antt =====
-- The theorems on src/config at concrete inputs.
use vivarium.Prelude.{◌≡◌, refl, true, false, none, some, [], ◌∷◌, Bytes, codes, ok, err, arith}
use vivarium.Config.Files.{lookup, keys, insert, insert_all, last}
use vivarium.Config.Generations.{
  GenerationRecord, Profile, Disk, published, registered, refused, root, numbers, next_number,
  append, append_digest, append_record, append_root, set_current,
}
use vivarium.Config.Generations.Labels.{IsLabelled, append-IsLabelled}
use vivarium.Config.Generations.Numbers.{IsNumbered}
use vivarium.Config.Generations.Append.{extended, append-ok, append_refused}

abbrev build : GenerationRecord
build = record {
  store_path = codes "/nix/store/b";
  lock_digest = [];
  manifest = codes "m";
  backend = codes "ch";
  built_at = codes "now";
}

-- The first generation is retained, the second left a gap.
abbrev profile : Profile
profile = record {
  links = (1, codes "/nix/store/a") ∷ [];
  records = (3, codes "r") ∷ (1, codes "r") ∷ [];
  locks = (1, codes "l") ∷ [];
  current = some 1;
}

abbrev pub disk : Disk
disk = record {
  to_vec = λ r. some r.lock_digest;
  from_slice = λ bs. none;
  directories = true;
  lock_publication = published;
  digest = λ lock. some lock;
  record_publication = published;
  registration = registered;
  pointer = published;
  lock_removed = true;
  record_removed = true;
}

abbrev refusing : Disk
refusing = record disk { registration = refused false }

profile-IsLabelled : IsLabelled profile
unfolding lookup
profile-IsLabelled k h = ground arith

profile-IsNumbered : IsNumbered profile
unfolding numbers keys insert_all insert
profile-IsNumbered k h = ground arith

appended : (append disk profile build (codes "k")).0 ≡ ok 4
unfolding append append_digest append_record append_root set_current next_number numbers keys insert
    insert_all last
appended = refl

next_is_four : next_number profile ≡ 4
unfolding next_number numbers keys insert insert_all last
next_is_four = refl

append-ok_example :
    (lookup 4 profile.links ≡ none)
    × (lookup 4 profile.records ≡ none)
    × ((d : Bytes) × (rendered : Bytes) × (disk.digest (codes "k") ≡ some d)
        × (disk.to_vec (record build { lock_digest = d }) ≡ some rendered)
        × ((append disk profile build (codes "k")).1
            ≡ extended 4 build.store_path rendered (codes "k") profile))
append-ok_example = append-ok disk profile build (codes "k") 4 profile-IsNumbered appended

append_refused_example :
    ((append refusing profile build (codes "k")).0 ≡ err root)
    × ((append refusing profile build (codes "k")).1.links ≡ profile.links)
    × ((append refusing profile build (codes "k")).1.records ≡ profile.records)
    × ((append refusing profile build (codes "k")).1.current ≡ some 1)
    × (next_number (append refusing profile build (codes "k")).1 ≡ next_number profile)
append_refused_example =
    append_refused refusing profile build (codes "k") (codes "k") (codes "k") profile-IsNumbered
      refl refl refl refl refl refl refl refl

append-IsLabelled_example : IsLabelled (append disk profile build (codes "k")).1
append-IsLabelled_example =
    append-IsLabelled disk (λ e. cc e) profile build (codes "k") profile-IsNumbered
      profile-IsLabelled
