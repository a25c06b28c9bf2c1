-- ===== src/Net/Dns.antt =====
-- The DNS messages of hickory_proto, as far as src/net/resolver.rs reads them.
use vivarium.Prelude.{ℕ, ◌≡◌, Bool, true, false, Option, some, List, ◌++◌, Bytes}

pub data MessageType : Type 0 where
  query response : MessageType

pub data OpCode : Type 0 where
  query : OpCode
  unassigned : ℕ → OpCode

pub data ResponseCode : Type 0 where
  no_error form_err serv_fail not_imp refused : ResponseCode
  unassigned : ℕ → ResponseCode

pub data RecordType : Type 0 where
  a aaaa : RecordType
  unassigned : ℕ → RecordType

-- A question's name is what `name().to_ascii()` gives.
pub record Question : Type 0 where
  pub name : Bytes
  pub query_type : RecordType

pub data RData : Type 0 where
  a aaaa : ℕ → RData
  unassigned : Bytes → RData

pub record Record : Type 0 where
  pub rdata : RData
  pub ttl : ℕ

pub record Message : Type 0 where
  pub id : ℕ
  pub message_type : MessageType
  pub op_code : OpCode
  pub recursion_desired : Bool
  pub response_code : ResponseCode
  pub queries : List Question
  pub answers : List Record

pub record Dns : Type 0 where
  pub from_vec : Bytes → Option Message
  pub to_vec : Message → Option Bytes
  pub error_msg : ℕ → OpCode → ResponseCode → Message

-- The codes that the resolver answers with. Each fits the four bits that a header has for a code; of
-- another code a message without EDNS keeps the low four bits only.
abbrev pub is_own_code : ResponseCode → Bool
is_own_code (ResponseCode.unassigned n) = false
is_own_code _ = true

-- What the resolver relies on: an error message carries the code that it was made with, and an
-- encoded message parses back with its code, where that is one of the resolver's own.
pub record DnsLaws (dns : Dns) : Type 0 where
  pub error_code :
      (id : ℕ) (op : OpCode) (code : ResponseCode) → (dns.error_msg id op code).response_code ≡ code
  pub code_survives :
      (m n : Message) (bs : Bytes)
      → is_own_code m.response_code ≡ true
      → dns.to_vec m ≡ some bs
      → dns.from_vec bs ≡ some n
      → n.response_code ≡ m.response_code

abbrev pub add_queries : Message → List Question → Message
add_queries m qs = record m { queries = m.queries ++ qs }

abbrev pub is_query_type : MessageType → Bool
is_query_type MessageType.query = true
is_query_type MessageType.response = false

abbrev pub is_query_op : OpCode → Bool
is_query_op OpCode.query = true
is_query_op (OpCode.unassigned n) = false

abbrev pub is_no_error : ResponseCode → Bool
is_no_error ResponseCode.no_error = true
is_no_error _ = false

abbrev pub is_refused : ResponseCode → Bool
is_refused ResponseCode.refused = true
is_refused _ = false

abbrev pub is_aaaa : RecordType → Bool
is_aaaa RecordType.aaaa = true
is_aaaa _ = false
