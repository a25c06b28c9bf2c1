-- ===== src/Net/Nft.antt =====
-- src/net/nft.rs: the egress ruleset, the elements that enter its sets, and their application
-- through a fresh `nft` process. Fields of the nftables schema that the code leaves empty are left
-- out; the rendering to JSON and the process are the host's.
pub mod Schema
pub mod Verdict
pub mod Elements
pub mod Install
use vivarium.Prelude.{
  ℕ, Bool, true, false, Option, none, some, List, [], ◌∷◌, ◌++◌, Bytes, codes, Result, ok, err,
  ◌>>=◌, map,
}
use vivarium.Net.Address.{IpAddr, v4, v6, IpNet, Addresses}
use vivarium.Net.Allowlist.{AllowEntry, addr, net, exact, one_label, many_labels}
use vivarium.Net.Resolver.{TimedAddress}
use Schema.{
  SetType, ipv4_addr, ipv6_addr, SetFlag, timeout, interval, NfSet, ChainPolicy, drop, Hook,
  forward, Chain, Operator, isin, eq, Expression, string, list, prefix, elem, payload_field,
  meta_l4proto, ct_state, cons, nil, RejectType, tcp_reset, icmpx_admin_prohibited, Statement,
  match, accept, reject, Element, NfObject, add_table, add_set, add_chain, add_rule, add_element,
}

abbrev pub table : Bytes
table = codes "vivarium"

abbrev pub set_v4 : Bytes
set_v4 = codes "allow4"

abbrev pub set_v6 : Bytes
set_v6 = codes "allow6"

abbrev pub set_v4_lit : Bytes
set_v4_lit = codes "allow4net"

abbrev pub set_v6_lit : Bytes
set_v6_lit = codes "allow6net"

abbrev pub chain : Bytes
chain = codes "egress"

unfoldable pub timed_set : Bytes → SetType → NfSet
timed_set name set_type = record {
  table = table;
  name = name;
  set_type = set_type;
  flags = timeout ∷ [];
}

unfoldable pub interval_set : Bytes → SetType → NfSet
interval_set name set_type = record {
  table = table;
  name = name;
  set_type = set_type;
  flags = interval ∷ [];
}

abbrev pub match_eq : Expression → Expression → Statement
match_eq left right = match left eq right

-- A TCP packet whose destination, of the protocol's family, is in the named set.
unfoldable pub accept_tcp_into : Bytes → Bytes → List Statement
accept_tcp_into protocol set =
    match_eq meta_l4proto (string (codes "tcp"))
    ∷ match_eq (payload_field protocol (codes "daddr")) (string (codes "@" ++ set))
    ∷ accept
    ∷ []

unfoldable pub base_rules : List (List Statement)
unfolding accept_tcp_into
base_rules =
    (match ct_state isin
        (list (cons (string (codes "established")) (cons (string (codes "related")) nil)))
      ∷ accept
      ∷ [])
    ∷ accept_tcp_into (codes "ip") set_v4
    ∷ accept_tcp_into (codes "ip6") set_v6
    ∷ accept_tcp_into (codes "ip") set_v4_lit
    ∷ accept_tcp_into (codes "ip6") set_v6_lit
    ∷ (match_eq meta_l4proto (string (codes "tcp")) ∷ reject tcp_reset ∷ [])
    ∷ (reject icmpx_admin_prohibited ∷ [])
    ∷ []

abbrev pub egress_chain : Chain
egress_chain = record { table = table; name = chain; hook = forward; prio = 0; policy = drop }

unfoldable pub base_sets : List NfSet
unfolding timed_set interval_set
base_sets =
    timed_set set_v4 ipv4_addr
    ∷ timed_set set_v6 ipv6_addr
    ∷ interval_set set_v4_lit ipv4_addr
    ∷ interval_set set_v6_lit ipv6_addr
    ∷ []

unfoldable pub base_ruleset : List NfObject
unfolding base_sets base_rules
base_ruleset =
    add_table table ∷ map add_set base_sets
    ++ (add_chain egress_chain ∷ map (add_rule chain) base_rules)

abbrev pub family_timed_set : IpAddr → Bytes
family_timed_set (v4 bits) = set_v4
family_timed_set (v6 bits) = set_v6

abbrev pub family_literal_set : IpAddr → Bytes
family_literal_set (v4 bits) = set_v4_lit
family_literal_set (v6 bits) = set_v6_lit

module _ (lib : Addresses) where
  unfoldable pub timed_elements : List TimedAddress → List Element
  timed_elements [] = []
  timed_elements (t ∷ ts) =
      record {
        table = table;
        set = family_timed_set t.addr;
        value = elem (lib.show t.addr) t.ttl_seconds;
      }
      ∷ timed_elements ts

  unfoldable pub timed_element : IpAddr → ℕ → List Element
  unfolding timed_elements
  timed_element a ttl = timed_elements (record { addr = a; ttl_seconds = ttl } ∷ [])

  abbrev pub literal_element : AllowEntry → Option Element
  literal_element (addr a) =
      some (record { table = table; set = family_literal_set a; value = string (lib.show a) })
  literal_element (net n) = some (record {
    table = table;
    set = family_literal_set n.addr;
    value = prefix (lib.show n.addr) n.prefix_len;
  })
  literal_element _ = none

  unfoldable pub literal_elements : List AllowEntry → List Element
  literal_elements [] = []
  literal_elements (e ∷ es) =
      let rest = literal_elements es in elim (literal_element e) [ none ↦ rest | some x ↦ x ∷ rest ]
