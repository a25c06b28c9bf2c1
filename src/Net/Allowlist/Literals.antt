-- ===== src/Net/Allowlist/Literals.antt =====
-- src/net/allowlist.rs: the entries that the filter is programmed with at setup.
use vivarium.Prelude.{◌≡◌, refl, false, List, [], ◌∷◌, Bytes, arith, any}
use vivarium.Net.Address.{IpAddr, Addresses}
use vivarium.Net.Allowlist.{
  AllowEntry, exact, one_label, many_labels, addr, net, literal_destinations, entry_matches_addr,
  matches_addr, entry_matches_name,
}

-- The literal entries of an allowlist decide every address as the whole list does, and no name.
pub matches_addr-literal_destinations :
    (lib : Addresses) (es : List AllowEntry) (a : IpAddr) (n : Bytes)
    → (matches_addr lib (literal_destinations es) a ≡ matches_addr lib es a)
      × (any (entry_matches_name n) (literal_destinations es) ≡ false)
unfolding matches_addr literal_destinations entry_matches_addr entry_matches_name
matches_addr-literal_destinations lib [] a n = (refl, refl)
matches_addr-literal_destinations lib (exact b ∷ es) a n =
    matches_addr-literal_destinations lib es a n
matches_addr-literal_destinations lib (one_label b ∷ es) a n =
    matches_addr-literal_destinations lib es a n
matches_addr-literal_destinations lib (many_labels b ∷ es) a n =
    matches_addr-literal_destinations lib es a n
matches_addr-literal_destinations lib (addr b ∷ es) a n =
    ground (arith, matches_addr-literal_destinations lib es a n)
matches_addr-literal_destinations lib (net b ∷ es) a n =
    ground (arith, matches_addr-literal_destinations lib es a n)
