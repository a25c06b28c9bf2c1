-- ===== src/Net/Nft/Elements.antt =====
-- src/net/nft.rs: the elements, and the sets that the base ruleset declares.
use vivarium.Prelude.{◌≡◌, refl, inl, inr, List, [], ◌∷◌, Some}
use vivarium.Net.Address.{IpAddr, v4, v6, Addresses}
use vivarium.Net.Allowlist.{
  AllowEntry, addr, net, exact, one_label, many_labels, literal_destinations,
}
use vivarium.Net.Resolver.{TimedAddress}
use vivarium.Net.Nft.Schema.{
  SetType, ipv4_addr, ipv6_addr, SetFlag, timeout, interval, NfSet, Element, Expression,
}
use vivarium.Net.Nft.{
  table, set_v4, set_v6, set_v4_lit, set_v6_lit, timed_set, interval_set, base_sets, timed_elements,
  literal_elements, family_timed_set, family_literal_set,
}

-- One of the sets that the base ruleset adds has the element's name, and the flag and the family
-- that the element needs.
pub record Fits (flag : SetFlag) (family : SetType) (e : Element) : Type 0 where
  set : NfSet
  declared : Some (λ s. s ≡ set) base_sets
  same_table : e.table ≡ set.table
  named : e.set ≡ set.name
  flagged : set.flags ≡ flag ∷ []
  typed : set.set_type ≡ family

abbrev pub family : IpAddr → SetType
family (v4 bits) = ipv4_addr
family (v6 bits) = ipv6_addr

-- What becomes of each answered address, in order.
abbrev pub Programs : Addresses → List TimedAddress → List Element → Type 0
Programs lib [] [] = Unit
Programs lib (t ∷ ts) (e ∷ es) =
    Fits timeout (family t.addr) e
    × (e.value ≡ Expression.elem (lib.show t.addr) t.ttl_seconds)
    × Programs lib ts es
Programs lib _ _ = ⊥

timed-Fits :
    (a : IpAddr) (value : Expression)
    → Fits timeout (family a) (record { table = table; set = family_timed_set a; value = value })
unfolding base_sets
timed-Fits (v4 bits) value = record {
  set = timed_set set_v4 ipv4_addr;
  declared = inl refl;
  same_table = refl;
  named = refl;
  flagged = refl;
  typed = refl;
}
timed-Fits (v6 bits) value = record {
  set = timed_set set_v6 ipv6_addr;
  declared = inr (inl refl);
  same_table = refl;
  named = refl;
  flagged = refl;
  typed = refl;
}

literal-Fits :
    (a : IpAddr) (value : Expression)
    → Fits interval (family a) (record { table = table; set = family_literal_set a; value = value })
unfolding base_sets
literal-Fits (v4 bits) value = record {
  set = interval_set set_v4_lit ipv4_addr;
  declared = inr (inr (inl refl));
  same_table = refl;
  named = refl;
  flagged = refl;
  typed = refl;
}
literal-Fits (v6 bits) value = record {
  set = interval_set set_v6_lit ipv6_addr;
  declared = inr (inr (inr (inl refl)));
  same_table = refl;
  named = refl;
  flagged = refl;
  typed = refl;
}

-- Every answered address becomes one element, in order, with the record's own TTL, in the set of
-- its family that the base ruleset declares with timeouts.
pub timed_elements-Programs :
    (lib : Addresses) (ts : List TimedAddress) → Programs lib ts (timed_elements lib ts)
unfolding timed_elements
timed_elements-Programs lib [] = tt
timed_elements-Programs lib (t ∷ ts) = (timed-Fits t.addr _, refl, timed_elements-Programs lib ts)

-- The family of a literal entry.
abbrev pub FitsEntry : AllowEntry → Element → Type 0
FitsEntry (addr a) e = Fits interval (family a) e
FitsEntry (net n) e = Fits interval (family n.addr) e
FitsEntry _ e = ⊥

abbrev pub Literals : List AllowEntry → List Element → Type 0
Literals [] [] = Unit
Literals (a ∷ as') (e ∷ es) = FitsEntry a e × Literals as' es
Literals _ _ = ⊥

-- Each literal entry becomes one element, in order, in the interval set of its family, and no name
-- becomes one.
pub literal_elements-Literals :
    (lib : Addresses) (es : List AllowEntry)
    → Literals (literal_destinations es) (literal_elements lib es)
      × (literal_elements lib (literal_destinations es) ≡ literal_elements lib es)
unfolding literal_elements literal_destinations
literal_elements-Literals lib [] = (tt, refl)
literal_elements-Literals lib (exact b ∷ es) = literal_elements-Literals lib es
literal_elements-Literals lib (one_label b ∷ es) = literal_elements-Literals lib es
literal_elements-Literals lib (many_labels b ∷ es) = literal_elements-Literals lib es
literal_elements-Literals lib (addr a ∷ es) =
    let (rest, same) = literal_elements-Literals lib es in ((literal-Fits a _, rest), rw same)
literal_elements-Literals lib (net n ∷ es) =
    let (rest, same) = literal_elements-Literals lib es in ((literal-Fits n.addr _, rest), rw same)
