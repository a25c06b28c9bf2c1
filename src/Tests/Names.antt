-- ===== src/Tests/Names.antt =====
-- The theorems on src/net/allowlist.rs at concrete inputs.
use vivarium.Prelude.{
  ◌≡◌, refl, ◌↔◌, true, none, some, List, [], ◌∷◌, Bytes, codes, bytes_eq, ok, Some, if◌then◌else◌,
}
use vivarium.Net.Address.{v4, v6, Addresses, addr_eq}
use vivarium.Net.Text.{strip_suffix, strip_prefix, split, lower, ends_with}
use vivarium.Net.Allowlist.{
  AllowEntry, exact, many_labels, addr, dot, valid_label, normalize_undotted, normalize_name,
  parse_entry, parse, matches_name,
}
use vivarium.Net.Allowlist.Grants.{Grants, matches_name_iff}

-- Address parsers that know two texts.
abbrev pub library : Addresses
library = record {
  parse_net = λ bs.
      if bytes_eq bs (codes "::/0") then some (record { addr = v6 0; prefix_len = 0 }) else none;
  parse_addr = λ bs. if bytes_eq bs (codes "0") then some (v4 0) else none;
  contains = λ n a. addr_eq n.addr a;
  show = λ a. codes "0";
}

abbrev pub allowed : List AllowEntry
allowed = exact (codes "a.b") ∷ many_labels (codes "c") ∷ addr (v4 0) ∷ []

parsed_allowed : parse library (codes "A.b." ∷ codes "**.c" ∷ codes "0" ∷ []) ≡ ok allowed
unfolding parse parse_entry strip_prefix normalize_name normalize_undotted strip_suffix split lower
    valid_label bytes_eq ends_with
parsed_allowed = refl

normal_name : normalize_name (codes "X.C.") ≡ some (codes "x.c")
unfolding normalize_name normalize_undotted strip_suffix split lower valid_label bytes_eq ends_with
normal_name = refl

matches_name_iff_example : (matches_name allowed (codes "X.C.") ≡ true) ↔ (
    (n : Bytes) × (normalize_name (codes "X.C.") ≡ some n)
    × Some (λ e. Grants e (split dot n)) allowed)
matches_name_iff_example = matches_name_iff allowed (codes "X.C.")
