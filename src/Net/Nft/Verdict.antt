-- ===== src/Net/Nft/Verdict.antt =====
-- src/net/nft.rs: what nftables does with the base ruleset. How it reads a chain is its own code, and
-- so a parameter with its documented behaviour.
use vivarium.Prelude.{
  ◌≡◌, sym, ap, ◌∙◌, inl, inr, Bool-cases, Option-cases, is_some, All, Bool, true, false, ◌&&◌,
  ◌||◌, Option, none, some, List, [], ◌∷◌, Bytes, codes, ◌++◌, arith, if◌then◌else◌,
}
use vivarium.Net.Nft.Schema.{
  ChainPolicy, Operator, isin, eq, Expression, string, list, cons, nil, payload_field, meta_l4proto,
  ct_state, RejectType, tcp_reset, icmpx_admin_prohibited, Statement, match, accept, reject,
}
use vivarium.Net.Nft.{set_v4, set_v6, set_v4_lit, set_v6_lit, base_rules, egress_chain}

pub data Verdict : Type 0 where
  accepted dropped : Verdict
  rejected : RejectType → Verdict

abbrev pub policy_verdict : ChainPolicy → Verdict
policy_verdict ChainPolicy.accept = accepted
policy_verdict ChainPolicy.drop = dropped

module _ {Packet : Type 0} (holds : Packet → Expression → Operator → Expression → Bool) where
  -- Whether a packet passes every match of a rule, and the verdict that the rule ends in.
  abbrev pub passes : Packet → List Statement → Bool
  passes p [] = true
  passes p (match l o r ∷ ss) = holds p l o r && passes p ss
  passes p (accept ∷ ss) = true
  passes p (reject t ∷ ss) = true

abbrev pub terminal : List Statement → Option Verdict
terminal [] = none
terminal (match l o r ∷ ss) = terminal ss
terminal (accept ∷ ss) = some accepted
terminal (reject t ∷ ss) = some (rejected t)

-- nftables on a base chain: the rules are read in order, a rule whose matches fail is passed over,
-- the first rule that applies and has a verdict ends the chain, and the policy decides behind it.
pub record Nftables (Packet : Type 0) : Type 0 where
  pub holds : Packet → Expression → Operator → Expression → Bool
  pub verdict : Packet → ChainPolicy → List (List Statement) → Verdict

pub record NftablesLaws {Packet : Type 0} (nft : Nftables Packet) : Type 0 where
  pub at_end : (p : Packet) (policy : ChainPolicy) → nft.verdict p policy [] ≡ policy_verdict policy
  pub skips :
      (p : Packet) (policy : ChainPolicy) (r : List Statement) (rs : List (List Statement))
      → passes nft.holds p r ≡ false
      → nft.verdict p policy (r ∷ rs) ≡ nft.verdict p policy rs
  pub decides :
      (p : Packet) (policy : ChainPolicy) (r : List Statement) (rs : List (List Statement))
      (v : Verdict)
      → passes nft.holds p r ≡ true
      → terminal r ≡ some v
      → nft.verdict p policy (r ∷ rs) ≡ v

abbrev verdict_or : Verdict → Option Verdict → Verdict
verdict_or d none = d
verdict_or d (some v) = v

module _ {Packet : Type 0} (nft : Nftables Packet) where
  abbrev pub is_reply : Packet → Bool
  is_reply p =
      nft.holds p ct_state isin
        (list (cons (string (codes "established")) (cons (string (codes "related")) nil)))

  abbrev pub is_tcp : Packet → Bool
  is_tcp p = nft.holds p meta_l4proto eq (string (codes "tcp"))

  abbrev pub goes_into : Bytes → Bytes → Packet → Bool
  goes_into protocol set p =
      nft.holds p (payload_field protocol (codes "daddr")) eq (string (codes "@" ++ set))

  abbrev pub is_allowed : Packet → Bool
  is_allowed p =
      goes_into (codes "ip") set_v4 p
      || goes_into (codes "ip6") set_v6 p
      || goes_into (codes "ip") set_v4_lit p
      || goes_into (codes "ip6") set_v6_lit p

  -- The verdict of a list of rules that all have one, computed.
  abbrev first_verdict : Packet → ChainPolicy → List (List Statement) → Verdict
  first_verdict p policy [] = policy_verdict policy
  first_verdict p policy (r ∷ rs) =
      if passes nft.holds p r
      then verdict_or (first_verdict p policy rs) (terminal r)
      else first_verdict p policy rs

  first_verdict-verdict :
      NftablesLaws nft
      → (p : Packet) (policy : ChainPolicy) (rs : List (List Statement))
      → All (λ r. is_some (terminal r) ≡ true) rs
      → nft.verdict p policy rs ≡ first_verdict p policy rs
  first_verdict-verdict laws p policy [] h = laws.at_end p policy
  first_verdict-verdict laws p policy (r ∷ rs) (h, hs) = elim (Bool-cases (passes nft.holds p r)) [
    | inr skipped ↦
        rw skipped (laws.skips p policy r rs skipped ∙ first_verdict-verdict laws p policy rs hs)
    | inl hit ↦ elim (Option-cases (terminal r)) [
      | inl missing ↦ absurd (cc (sym h ∙ ap is_some missing))
      | inr (v, t) ↦ rw (hit, t) (laws.decides p policy r rs v hit t)
    ]
  ]

  -- The base ruleset, read as `NftablesLaws` says, lets replies pass, lets other TCP pass only
  -- into one of the four sets, resets every other TCP packet and rejects everything else.
  pub egress_verdict :
      NftablesLaws nft
      → (p : Packet)
      → nft.verdict p egress_chain.policy base_rules ≡ (
          if is_reply p
          then accepted
          else if is_tcp p
          then (if is_allowed p then accepted else rejected tcp_reset)
          else rejected icmpx_admin_prohibited)
  unfolding base_rules
  egress_verdict laws p =
      first_verdict-verdict laws p egress_chain.policy base_rules (ground arith) ∙ ground arith
