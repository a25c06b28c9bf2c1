-- ===== src/Net/Resolver.antt =====
-- src/net/resolver.rs: the gate in front of the upstream resolver, and the answer that the serve
-- loop sends. The upstream exchange and the filter are what the gate is given; what it does to
-- them is logged in order.
pub mod Gate
pub mod Policy
pub mod Serve
pub mod Names
use vivarium.Prelude.{
  ℕ, Bool, true, false, ◌&&◌, not, Option, none, some, List, [], ◌∷◌, Bytes, length, ltb,
  if◌then◌else◌, Result, ok, err, or_fail,
}
use vivarium.Net.Address.{IpAddr, v4, v6}
use vivarium.Net.Dns.{
  MessageType, OpCode, ResponseCode, RecordType, RData, Record, Question, Message, Dns, add_queries,
  is_query_type, is_query_op, is_no_error, is_refused, is_aaaa,
}

pub record TimedAddress : Type 0 where
  pub addr : IpAddr
  pub ttl_seconds : ℕ

pub data GateError : Type 0 where
  malformed_query upstream encode : GateError

-- What the gate does outside itself.
pub data Effect : Type 0 where
  forwarded : Bytes → Effect
  installed not_installed : List TimedAddress → Effect

pub record Gated : Type 0 where
  pub outcome : Result GateError Bytes
  pub log : List Effect

-- The parameters of `gate_query`: the allowlist's predicate, the family withholding, the upstream
-- exchange, and whether the filter takes an installation.
pub record Setting : Type 0 where
  pub dns : Dns
  pub matches : Bytes → Bool
  pub withhold_aaaa : Bool
  pub forward : Bytes → Result GateError Bytes
  pub install : List TimedAddress → Bool

unfoldable pub reply : Dns → Message → ResponseCode → Option Bytes
reply dns query code =
    let response = add_queries (dns.error_msg query.id query.op_code code) query.queries in
    dns.to_vec (record response { recursion_desired = query.recursion_desired })

-- The `SERVFAIL` of a refused installation, which leaves `recursion_desired` alone.
unfoldable pub withheld : Dns → Message → Option Bytes
withheld dns query =
    dns.to_vec
      (add_queries (dns.error_msg query.id query.op_code ResponseCode.serv_fail) query.queries)

-- An answer that encodes or fails, behind what was done for it.
abbrev pub answered : List Effect → Option Bytes → Gated
answered log bytes = record { outcome = or_fail bytes encode; log = log }

abbrev pub address : RData → Option IpAddr
address (RData.a bits) = some (v4 bits)
address (RData.aaaa bits) = some (v6 bits)
address (RData.unassigned bs) = none

unfoldable pub additions : List Record → List TimedAddress
additions [] = []
additions (r ∷ rs) =
    let rest = additions rs in
    elim (address r.rdata) [
      | none ↦ rest
      | some addr ↦ record { addr = addr; ttl_seconds = r.ttl } ∷ rest
    ]

module _ (s : Setting) where
  -- The upstream's answer: other codes than `NOERROR` pass as they are, but `REFUSED`.
  unfoldable pub gate_response : Bytes → Message → Bytes → Message → Gated
  gate_response query_bytes query response_bytes response =
      let sent = forwarded query_bytes in
      let fresh = additions response.answers in
      if not (is_no_error response.response_code)
      then (if is_refused response.response_code
          then answered (sent ∷ []) (reply s.dns query ResponseCode.serv_fail)
          else record { outcome = ok response_bytes; log = sent ∷ [] })
      else if s.install fresh
      then record { outcome = ok response_bytes; log = sent ∷ installed fresh ∷ [] }
      else answered (sent ∷ not_installed fresh ∷ []) (withheld s.dns query)

  unfoldable pub gate_forward : Bytes → Message → Gated
  gate_forward query_bytes query = elim (s.forward query_bytes) [
    | err e ↦ record { outcome = err e; log = forwarded query_bytes ∷ [] }
    | ok response_bytes ↦ elim (s.dns.from_vec response_bytes) [
      | none ↦ record { outcome = err upstream; log = forwarded query_bytes ∷ [] }
      | some response ↦ gate_response query_bytes query response_bytes response
    ]
  ]

  unfoldable pub gate_question : Bytes → Message → Question → Gated
  gate_question query_bytes query question =
      if not (s.matches question.name)
      then answered [] (reply s.dns query ResponseCode.refused)
      else if s.withhold_aaaa && is_aaaa question.query_type
      then answered [] (reply s.dns query ResponseCode.no_error)
      else gate_forward query_bytes query

  -- `queries.first()` behind the test for more than one question.
  unfoldable pub gate_questions : Bytes → Message → List Question → Gated
  gate_questions query_bytes query [] = answered [] (reply s.dns query ResponseCode.not_imp)
  gate_questions query_bytes query (question ∷ more) =
      if ltb 1 (length (question ∷ more))
      then answered [] (reply s.dns query ResponseCode.form_err)
      else gate_question query_bytes query question

  unfoldable pub gate_message : Bytes → Message → Gated
  gate_message query_bytes query =
      if not (is_query_type query.message_type)
      then record { outcome = err malformed_query; log = [] }
      else if not (is_query_op query.op_code)
      then answered [] (reply s.dns query ResponseCode.not_imp)
      else gate_questions query_bytes query query.queries

  unfoldable pub gate_query : Bytes → Gated
  gate_query query_bytes = elim (s.dns.from_vec query_bytes) [
    | none ↦ record { outcome = err malformed_query; log = [] }
    | some query ↦ gate_message query_bytes query
  ]

-- `servfail_for`.
unfoldable pub servfail_for : Dns → Bytes → Option Bytes
servfail_for dns query_bytes = elim (dns.from_vec query_bytes) [
  | none ↦ none
  | some query ↦
      if not (is_query_type query.message_type)
      then none
      else reply dns query ResponseCode.serv_fail
]

-- What one task of the serve loop sends back, if anything.
unfoldable pub serve_answer : Setting → Bytes → Option Bytes
serve_answer s query_bytes = elim (gate_query s query_bytes).outcome [
  | ok bytes ↦ some bytes
  | err upstream ↦ servfail_for s.dns query_bytes
  | err malformed_query ↦ none
  | err encode ↦ none
]
