-- ===== src/Net/Resolver/Policy.antt =====
-- src/net/resolver.rs: the codes that the gate answers with.
use vivarium.Prelude.{
  ◌≡◌, refl, ◌∙◌, inl, inr, true, false, some, List, [], ◌∷◌, Bytes, ok, arith, or_fail,
  Option-cases,
}
use vivarium.Net.Dns.{MessageType, OpCode, ResponseCode, Question, Message, DnsLaws, is_own_code}
use vivarium.Net.Resolver.{
  Setting, encode, gate_query, gate_message, gate_questions, gate_question, gate_forward,
  gate_response, reply, withheld,
}

-- The one query that policy denies.
pub record IsDenied (s : Setting) (query_bytes : Bytes) : Type 0 where
  pub query : Message
  pub question : Question
  pub parsed : s.dns.from_vec query_bytes ≡ some query
  pub is_query : query.message_type ≡ MessageType.query
  pub is_op : query.op_code ≡ OpCode.query
  pub alone : query.queries ≡ question ∷ []
  pub denied : s.matches question.name ≡ false

-- A query of one question whose name is denied is answered `REFUSED` from local policy alone:
-- nothing goes upstream and nothing is installed.
pub gate_query-denied :
    (s : Setting) (query_bytes : Bytes) (d : IsDenied s query_bytes)
    → gate_query s query_bytes
      ≡ record { outcome = or_fail (reply s.dns d.query ResponseCode.refused) encode; log = [] }
unfolding gate_query gate_message gate_questions gate_question
gate_query-denied s query_bytes d =
    rw (d.parsed, gate_query, d.is_query, d.is_op, d.alone, d.denied)

module _ (s : Setting) (laws : DnsLaws s.dns) where
  reply_code :
      (query : Message) (code : ResponseCode) (bs : Bytes) (m : Message)
      → is_own_code code ≡ true
      → reply s.dns query code ≡ some bs
      → s.dns.from_vec bs ≡ some m
      → m.response_code ≡ code
  unfolding reply
  reply_code query code bs m own e p =
      let same = laws.error_code query.id query.op_code code in
      laws.code_survives _ m bs (rw same own) e p ∙ same

  withheld_code :
      (query : Message) (bs : Bytes) (m : Message)
      → withheld s.dns query ≡ some bs
      → s.dns.from_vec bs ≡ some m
      → m.response_code ≡ ResponseCode.serv_fail
  unfolding withheld
  withheld_code query bs m e p =
      let same = laws.error_code query.id query.op_code ResponseCode.serv_fail in
      laws.code_survives _ m bs (rw same refl) e p ∙ same

  -- No answer that was asked of the upstream is `REFUSED`.
  gate_forward-ne-refused :
      (query_bytes : Bytes) (query : Message) (bs : Bytes) (m : Message)
      → (gate_forward s query_bytes query).outcome ≡ ok bs
      → s.dns.from_vec bs ≡ some m
      → m.response_code ≡ ResponseCode.refused
      → ⊥
  unfolding gate_forward gate_response
  gate_forward-ne-refused query_bytes query bs m h p c =
      ground (arith, reply_code query ResponseCode.serv_fail bs m, withheld_code query bs m)

  gate_question-refused :
      (query_bytes : Bytes) (query : Message) (q : Question) (bs : Bytes) (m : Message)
      → (gate_question s query_bytes query q).outcome ≡ ok bs
      → s.dns.from_vec bs ≡ some m
      → m.response_code ≡ ResponseCode.refused
      → s.matches q.name ≡ false
  unfolding gate_question
  gate_question-refused query_bytes query q bs m h p c = ground (
    arith,
    gate_forward-ne-refused query_bytes query bs m,
    reply_code query ResponseCode.no_error bs m,
  )

  gate_questions-refused :
      (query_bytes : Bytes) (query : Message) (qs : List Question) (bs : Bytes) (m : Message)
      → (gate_questions s query_bytes query qs).outcome ≡ ok bs
      → s.dns.from_vec bs ≡ some m
      → m.response_code ≡ ResponseCode.refused
      → (q : Question) × (qs ≡ q ∷ []) × (s.matches q.name ≡ false)
  unfolding gate_questions
  gate_questions-refused query_bytes query [] bs m h p c =
      absurd (ground (arith, reply_code query ResponseCode.not_imp bs m))
  gate_questions-refused query_bytes query (q ∷ r ∷ qs) bs m h p c =
      absurd (ground (arith, reply_code query ResponseCode.form_err bs m))
  gate_questions-refused query_bytes query (q ∷ []) bs m h p c =
      (q, refl, gate_question-refused query_bytes query q bs m h p c)

  gate_message-refused :
      (query_bytes : Bytes) (query : Message) (t : MessageType) (o : OpCode) (bs : Bytes)
      (m : Message)
      → query.message_type ≡ t
      → query.op_code ≡ o
      → (gate_message s query_bytes query).outcome ≡ ok bs
      → s.dns.from_vec bs ≡ some m
      → m.response_code ≡ ResponseCode.refused
      → (q : Question) × (query.message_type ≡ MessageType.query)
        × (query.op_code ≡ OpCode.query)
        × (query.queries ≡ q ∷ [])
        × (s.matches q.name ≡ false)
  unfolding gate_message
  gate_message-refused query_bytes query MessageType.response o bs m et eo h p c =
      absurd (ground arith)
  gate_message-refused query_bytes query MessageType.query (OpCode.unassigned n) bs m et eo h p c =
      absurd (ground (arith, reply_code query ResponseCode.not_imp bs m))
  gate_message-refused query_bytes query MessageType.query OpCode.query bs m et eo h p c =
      let (q, e, d) =
        gate_questions-refused query_bytes query query.queries bs m (ground arith) p c in
      (q, et, eo, e, d)

  -- Where the DNS messages keep `DnsLaws`, an answer whose code is `REFUSED` is sent only for a
  -- query of one question whose name the allowlist denies, whatever the upstream says.
  pub refused-IsDenied :
      (query_bytes bs : Bytes) (m : Message)
      → (gate_query s query_bytes).outcome ≡ ok bs
      → s.dns.from_vec bs ≡ some m
      → m.response_code ≡ ResponseCode.refused
      → IsDenied s query_bytes
  unfolding gate_query
  refused-IsDenied query_bytes bs m h p c = elim (Option-cases (s.dns.from_vec query_bytes)) [
    | inl bad ↦ absurd (ground arith)
    | inr (query, parsed) ↦
        let (q, is_query, is_op, alone, denied) =
          gate_message-refused query_bytes query query.message_type query.op_code bs m refl refl
            (ground arith) p c in
        record {
          query = query;
          question = q;
          parsed = parsed;
          is_query = is_query;
          is_op = is_op;
          alone = alone;
          denied = denied;
        }
  ]
