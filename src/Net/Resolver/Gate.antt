-- ===== src/Net/Resolver/Gate.antt =====
-- src/net/resolver.rs: the queries that reach the upstream, and the order of the gate.
use vivarium.Prelude.{
  ◌≡◌, refl, ◌⊎◌, inl, inr, true, false, ◌&&◌, some, List, [], ◌∷◌, Bytes, ok, ◌∙◌, arith, or_fail,
  Bool-cases, Option-cases,
}
use vivarium.Net.Dns.{MessageType, OpCode, ResponseCode, Question, Message, is_aaaa}
use vivarium.Net.Resolver.{
  Effect, forwarded, installed, not_installed, Setting, encode, additions, gate_query, gate_message,
  gate_questions, gate_question, gate_forward, gate_response, withheld,
}

-- The packets that went upstream.
unfoldable pub upstream_packets : List Effect → List Bytes
upstream_packets [] = []
upstream_packets (forwarded bs ∷ log) = bs ∷ upstream_packets log
upstream_packets (installed ts ∷ log) = upstream_packets log
upstream_packets (not_installed ts ∷ log) = upstream_packets log

-- A query that may be asked upstream: one question, of a permitted name, and of a family that is
-- not withheld.
pub record MayForward (s : Setting) (query_bytes : Bytes) : Type 0 where
  pub query : Message
  pub question : Question
  pub parsed : s.dns.from_vec query_bytes ≡ some query
  pub is_query : query.message_type ≡ MessageType.query
  pub is_op : query.op_code ≡ OpCode.query
  pub alone : query.queries ≡ question ∷ []
  pub permitted : s.matches question.name ≡ true
  pub not_withheld : (s.withhold_aaaa && is_aaaa question.query_type) ≡ false

module _ (s : Setting) where
  gate_forward_packets :
      (query_bytes : Bytes) (query : Message)
      → upstream_packets (gate_forward s query_bytes query).log ≡ query_bytes ∷ []
  unfolding gate_forward gate_response upstream_packets
  gate_forward_packets query_bytes query = ground arith

  gate_questions_packets :
      (query_bytes : Bytes) (query : Message) (qs : List Question)
      → s.dns.from_vec query_bytes ≡ some query
      → query.message_type ≡ MessageType.query
      → query.op_code ≡ OpCode.query
      → query.queries ≡ qs
      → (upstream_packets (gate_questions s query_bytes query qs).log ≡ [])
        ⊎ ((upstream_packets (gate_questions s query_bytes query qs).log ≡ query_bytes ∷ [])
            × MayForward s query_bytes)
  unfolding gate_questions gate_question upstream_packets
  gate_questions_packets query_bytes query [] p t o e = inl refl
  gate_questions_packets query_bytes query (q ∷ r ∷ qs) p t o e = inl (ground arith)
  gate_questions_packets query_bytes query (q ∷ []) p t o e = elim (Bool-cases (s.matches q.name)) [
    | inr denied ↦ inl (ground arith)
    | inl granted ↦ elim (Bool-cases (s.withhold_aaaa && is_aaaa q.query_type)) [
      | inl family ↦ inl (ground arith)
      | inr open_family ↦ inr (
        rw (granted, open_family) (gate_forward_packets query_bytes query),
        record {
          query = query;
          question = q;
          parsed = p;
          is_query = t;
          is_op = o;
          alone = e;
          permitted = granted;
          not_withheld = open_family;
        },
      )
    ]
  ]

  gate_message_packets :
      (query_bytes : Bytes) (query : Message) (t : MessageType) (o : OpCode)
      → s.dns.from_vec query_bytes ≡ some query
      → query.message_type ≡ t
      → query.op_code ≡ o
      → (upstream_packets (gate_message s query_bytes query).log ≡ [])
        ⊎ ((upstream_packets (gate_message s query_bytes query).log ≡ query_bytes ∷ [])
            × MayForward s query_bytes)
  unfolding gate_message upstream_packets
  gate_message_packets query_bytes query MessageType.response o p et eo = inl (ground arith)
  gate_message_packets query_bytes query MessageType.query (OpCode.unassigned n) p et eo =
      inl (ground arith)
  gate_message_packets query_bytes query MessageType.query OpCode.query p et eo =
      simp (et, eo) (gate_questions_packets query_bytes query query.queries p et eo refl)

  -- At most one packet goes upstream for a query, the guest's own byte for byte, and only for one
  -- that parses as a query of one question whose name the allowlist permits and whose family is
  -- not withheld.
  pub gate_query_packets :
      (query_bytes : Bytes)
      → (upstream_packets (gate_query s query_bytes).log ≡ [])
        ⊎ ((upstream_packets (gate_query s query_bytes).log ≡ query_bytes ∷ [])
            × MayForward s query_bytes)
  unfolding gate_query upstream_packets
  gate_query_packets query_bytes = elim (Option-cases (s.dns.from_vec query_bytes)) [
    | inl bad ↦ inl (rw (bad, gate_query))
    | inr (query, p) ↦
        rw (p, gate_query)
          (gate_message_packets query_bytes query query.message_type query.op_code p refl refl)
  ]

  pub gate_query_of_MayForward :
      (query_bytes : Bytes) (m : MayForward s query_bytes)
      → gate_query s query_bytes ≡ gate_forward s query_bytes m.query
  unfolding gate_query gate_message gate_questions gate_question
  gate_query_of_MayForward query_bytes m =
      rw (m.parsed, gate_query) (simp (m.is_query, m.is_op, m.alone, m.permitted, m.not_withheld))

  -- Where a permitted query is answered `NOERROR` upstream, the answer is released byte for byte
  -- if the filter takes every address in it, and if the filter refuses, it is withheld. Either way the query went upstream first and the installation was tried next.
  pub gate_query_released :
      (query_bytes response_bytes : Bytes) (m : MayForward s query_bytes) (response : Message)
      → s.forward query_bytes ≡ ok response_bytes
      → s.dns.from_vec response_bytes ≡ some response
      → response.response_code ≡ ResponseCode.no_error
      → let fresh = additions response.answers in
        ((s.install fresh ≡ true)
          × (gate_query s query_bytes ≡ record {
            outcome = ok response_bytes;
            log = forwarded query_bytes ∷ installed fresh ∷ [];
          }))
        ⊎ ((s.install fresh ≡ false)
            × (gate_query s query_bytes ≡ record {
              outcome = or_fail (withheld s.dns m.query) encode;
              log = forwarded query_bytes ∷ not_installed fresh ∷ [];
            }))
  unfolding gate_forward gate_response
  gate_query_released query_bytes response_bytes m response sent parsed code =
      let gate = gate_query_of_MayForward query_bytes m in
      elim (Bool-cases (s.install (additions response.answers))) [
        | inl taken ↦ inl (taken, gate ∙ rw (sent, gate_forward, parsed, code, taken))
        | inr refused ↦ inr (refused, gate ∙ rw (sent, gate_forward, parsed, code, refused))
      ]
