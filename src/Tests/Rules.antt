-- ===== src/Tests/Rules.antt =====
-- The theorems on the ruleset and the elements of src/net/nft.rs at concrete inputs.
use vivarium.Prelude.{◌≡◌, refl, Bool, true, false, none, some, List, [], ◌∷◌, if◌then◌else◌}
use vivarium.Net.Nft.{base_rules, egress_chain}
use vivarium.Net.Nft.Schema.{ChainPolicy, Expression, Statement, tcp_reset, icmpx_admin_prohibited}
use vivarium.Net.Nft.Verdict.{
  Verdict, accepted, rejected, Nftables, NftablesLaws, egress_verdict, is_reply, is_tcp, is_allowed,
  passes, terminal, policy_verdict,
}

-- A filter over packets that are TCP or not, none of them a reply or to an allowed address.
abbrev is_l4 : Bool → Expression → Bool
is_l4 tcp Expression.meta_l4proto = tcp
is_l4 tcp _ = false

abbrev run_rules : Bool → ChainPolicy → List (List Statement) → Verdict
run_rules p policy [] = policy_verdict policy
run_rules p policy (r ∷ rs) =
    let rest = run_rules p policy rs in
    if passes (λ q l o x. is_l4 q l) p r
    then elim (terminal r) [ none ↦ rest | some v ↦ v ]
    else rest

abbrev filter : Nftables Bool
filter = record { holds = λ p l o x. is_l4 p l; verdict = run_rules }

filter-NftablesLaws : NftablesLaws filter
filter-NftablesLaws = record {
  at_end = λ p policy. refl;
  skips = λ p policy r rs h. rw h refl;
  decides = λ p policy r rs v h t. rw (h, t) refl;
}

egress_verdict_example : filter.verdict true egress_chain.policy base_rules ≡ (
    if is_reply filter true
    then accepted
    else if is_tcp filter true
    then (if is_allowed filter true then accepted else rejected tcp_reset)
    else rejected icmpx_admin_prohibited)
egress_verdict_example = egress_verdict filter filter-NftablesLaws true
