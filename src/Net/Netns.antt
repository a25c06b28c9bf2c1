-- ===== src/Net/Netns.antt =====
-- src/net/netns.rs: the argument lists that make and join the namespace pair. `show` is the decimal
-- text of a pid.
pub mod Pair
pub mod Await
use vivarium.Prelude.{ℕ, List, [], ◌∷◌, ◌++◌, Bytes, codes}

abbrev pub unshare_pair : List Bytes
unshare_pair = codes "--user" ∷ codes "--net" ∷ codes "--map-root-user" ∷ []

abbrev pub nsenter_join : List Bytes
nsenter_join = codes "--preserve-credentials" ∷ codes "--user" ∷ codes "--net" ∷ []

unfoldable pub create_pair_args : List Bytes → List Bytes
create_pair_args holder = unshare_pair ++ holder

unfoldable pub enter_pair_args : (ℕ → Bytes) → ℕ → List Bytes → List Bytes
enter_pair_args show holder_pid program =
    nsenter_join ++ (codes "--target" ∷ show holder_pid ∷ program)

unfoldable pub holder_program : Bytes → List Bytes
holder_program sleep = sleep ∷ codes "infinity" ∷ []
