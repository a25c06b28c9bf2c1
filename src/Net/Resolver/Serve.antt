-- ===== src/Net/Resolver/Serve.antt =====
-- src/net/resolver.rs: the datagrams that the serve loop answers.
use vivarium.Prelude.{◌≡◌, ◌⊎◌, inl, inr, none, some, Bytes, err, arith}
use vivarium.Net.Dns.{MessageType, ResponseCode, Message}
use vivarium.Net.Resolver.{
  Setting, upstream, gate_query, gate_message, gate_forward, serve_answer, servfail_for, reply,
}
use vivarium.Net.Resolver.Gate.{MayForward, gate_query_of_MayForward}

-- A datagram that does not parse, or that is a response, is not answered at all.
pub serve_answer-silent :
    (s : Setting) (query_bytes : Bytes)
    → (s.dns.from_vec query_bytes ≡ none)
      ⊎ ((m : Message) × (s.dns.from_vec query_bytes ≡ some m)
          × (m.message_type ≡ MessageType.response))
    → serve_answer s query_bytes ≡ none
unfolding serve_answer gate_query gate_message
serve_answer-silent s query_bytes (inl bad) = ground arith
serve_answer-silent s query_bytes (inr (m, parsed, response)) = ground arith

-- An upstream that fails on a permitted query costs the guest a `SERVFAIL` of its own query.
pub serve_answer-upstream :
    (s : Setting) (query_bytes : Bytes) (m : MayForward s query_bytes)
    → s.forward query_bytes ≡ err upstream
    → serve_answer s query_bytes ≡ reply s.dns m.query ResponseCode.serv_fail
unfolding serve_answer servfail_for gate_forward
serve_answer-upstream s query_bytes m failed =
    let gate = gate_query_of_MayForward s query_bytes m in
    ground (arith, gate, m.parsed, m.is_query)
