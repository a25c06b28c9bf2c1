-- ===== src/Net/Resolver/Names.antt =====
-- src/net/resolver.rs: the gate with the allowlist as its predicate.
use vivarium.Prelude.{◌≡◌, ◌≢◌, ◌∙◌, sym, inl, inr, some, List, [], Bytes, Some}
use vivarium.Net.Text.{split}
use vivarium.Net.Allowlist.{AllowEntry, dot, matches_name, normalize_name}
use vivarium.Net.Allowlist.Grants.{Grants, matches_name_iff}
use vivarium.Net.Resolver.{Setting, gate_query}
use vivarium.Net.Resolver.Gate.{upstream_packets, MayForward, gate_query_packets}

-- Where the gate's predicate is that of an allowlist, anything that goes upstream for a query goes
-- for one question whose name has a normal form of which some entry of the allowlist grants the
-- labels.
pub forwarded-Grants :
    (s : Setting) (es : List AllowEntry) (query_bytes : Bytes)
    → ((name : Bytes) → s.matches name ≡ matches_name es name)
    → upstream_packets (gate_query s query_bytes).log ≢ []
    → (m : MayForward s query_bytes) × (n : Bytes) × (normalize_name m.question.name ≡ some n)
      × Some (λ e. Grants e (split dot n)) es
forwarded-Grants s es query_bytes same sent = elim (gate_query_packets s query_bytes) [
  | inl kept ↦ absurd (sent kept)
  | inr (packets, m) ↦
      let (n, normal, granted) =
        (matches_name_iff es m.question.name).0 (sym (same m.question.name) ∙ m.permitted) in
      (m, n, normal, granted)
]
