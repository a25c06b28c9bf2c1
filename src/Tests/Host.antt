-- ===== src/Tests/Host.antt =====
-- The theorems on the watch of src/net/netns.rs, on src/cli/trim.rs and on src/config/volumes.rs at
-- concrete inputs.
use vivarium.Prelude.{
  ℕ, ◌+◌, ◌*◌, ◌≡◌, refl, ◌↔◌, ◌⊎◌, true, none, some, List, [], ◌∷◌, Bytes, codes, bytes_eq,
  is_some, leb, ok, err, arith, if◌then◌else◌, Some,
}
use vivarium.Protocol.Message.{MemoryReport, boot_identity}
use vivarium.Protocol.Identity.{validate_boot_identity, in_place}
use vivarium.Cli.Exit.{code, temp_fail}
use vivarium.Net.Netns.Pair.{
  Watch, Observed, pair_distinct, await_from, await_pair, IsTicking, Joins,
}
use vivarium.Net.Netns.Await.{await_pair-is_some, await_pair_iff}
use vivarium.Cli.Trim.{
  Host, mib, derive_target, headroom_target, working_set_mib, reclaim, memory_rung,
}
use vivarium.Cli.Trim.Deflated.{IsRestored, memory_rung-IsRestored}
use vivarium.Config.Volumes.{
  Value, text_value, other_value, Composition, VolumeRecord, Manifest, composition_of,
  composition_eq, live, get, parse_composition, parse_root,
}
use vivarium.Config.Volumes.Live.{named, IsInherited, live_iff, parse_root-live}

-- The links become distinct at the third turn.
abbrev seen : ℕ → Observed
seen n = record {
  user = record { own = some (codes "a"); held = some (if leb n 1 then codes "a" else codes "b") };
  net = record { own = some (codes "c"); held = some (codes "d") };
}

abbrev watch : Watch
watch = record { links = seen; elapsed = λ n. 6 * n; waited = λ n. 6 * n + 1 }

ticking : IsTicking watch
ticking n = omega arith

await_pair-is_some_example : is_some (await_pair watch 30) ≡ true
await_pair-is_some_example = await_pair-is_some watch 30 ticking

await_pair_iff_example : (await_pair watch 30 ≡ some (ok tt)) ↔ Joins watch 30 0
await_pair_iff_example = await_pair_iff watch 30 ticking

joined : await_pair watch 30 ≡ some (ok tt)
unfolding await_pair await_from pair_distinct bytes_eq
joined = refl

-- A guest of four GiB that works with two, and asks for no size.
abbrev report : MemoryReport
report = record { total_bytes = 4096 * mib; available_bytes = 2048 * mib }

derived : derive_target (some report) none 4096 ≡ ok 2560
unfolding derive_target headroom_target working_set_mib
derived = refl

abbrev host : Host
host = record {
  prepared = true;
  charge_before = some 100;
  declared_mib = some 4096;
  report = some report;
  resize = λ size. true;
  charge_after = none;
}

asked : (memory_rung host none).asked ≡ 1536 ∷ 0 ∷ []
unfolding memory_rung reclaim derive_target headroom_target working_set_mib
asked = refl

memory_rung-IsRestored_example : IsRestored host (memory_rung host none)
memory_rung-IsRestored_example = memory_rung-IsRestored host none

abbrev root : List (Bytes × Value)
root = (codes "image", text_value (codes "rust")) ∷ (codes "volumes", other_value) ∷ []

abbrev composition : Composition
composition = record { image = codes "rust"; pieces = []; extends = none }

abbrev manifest : Manifest
manifest = record {
  image = codes "rust";
  pieces = [];
  extends = none;
  volume_names = codes "home" ∷ [];
}

composed : parse_composition root ≡ ok composition
unfolding parse_composition get bytes_eq
composed = refl

held : get root (codes "volumes") ≡ some other_value
unfolding get bytes_eq
held = refl

parse_root-live_example :
    (remembered : VolumeRecord) × (parse_root root ≡ ok remembered)
    × (live remembered manifest ≡ manifest.volume_names)
parse_root-live_example = parse_root-live root composition other_value manifest composed held refl

abbrev remembered : VolumeRecord
remembered = record {
  composition = composition;
  volumes =
      record {
        name = codes "cache";
        mount = codes "/c";
        declared_by = codes "rust";
        kind = codes "image";
        size_gib = none;
      }
      ∷ [];
}

live_iff_example : (named (codes "cache") (live remembered manifest) ≡ true) ↔ (
    (named (codes "cache") manifest.volume_names ≡ true)
    ⊎ ((composition_eq composition (composition_of manifest) ≡ true)
        × Some (IsInherited (codes "cache")) remembered.volumes))
live_iff_example = live_iff remembered manifest (codes "cache")

-- A boot identity, a text that is none, and an exit code.
identity :
    (validate_boot_identity (codes "01234567-89ab-cdef-0123-456789abcdef") ≡ ok tt)
    × (validate_boot_identity (codes "01234567-89ab-cdef-0123-456789ABCDEF") ≡ err boot_identity)
unfolding validate_boot_identity in_place
identity = (refl, refl)

transient : code temp_fail ≡ 75
unfolding code
transient = refl
