-- ===== src/Tests/Guests.antt =====
-- A small DNS, a guest that asks it, and an upstream that answers.
use vivarium.Prelude.{
  ℕ, zero, suc, ◌≡◌, refl, Bool, true, false, Option, none, some, List, [], ◌∷◌, Bytes, codes,
  bytes_eq, ok, err, arith,
}
use vivarium.Net.Dns.{
  MessageType, OpCode, ResponseCode, RecordType, RData, Question, Message, Dns, DnsLaws,
}
use vivarium.Net.Resolver.{upstream, Setting}
use vivarium.Net.Resolver.Gate.{MayForward}
use vivarium.Net.Resolver.Policy.{IsDenied}
use vivarium.Net.Nft.Install.{NftRunner, Host, exited, install}
use vivarium.Tests.Names.{library}

-- A DNS of three-byte headers: the id, the direction, the code, and the name of an A question.
abbrev pub type_of : ℕ → MessageType
type_of zero = MessageType.query
type_of (suc n) = MessageType.response

abbrev pub type_byte : MessageType → ℕ
type_byte MessageType.query = 0
type_byte MessageType.response = 1

abbrev pub code_of : ℕ → ResponseCode
code_of zero = ResponseCode.no_error
code_of (suc zero) = ResponseCode.form_err
code_of (suc (suc zero)) = ResponseCode.serv_fail
code_of (suc (suc (suc zero))) = ResponseCode.not_imp
code_of (suc (suc (suc (suc zero)))) = ResponseCode.refused
code_of (suc (suc (suc (suc (suc n))))) = ResponseCode.unassigned n

abbrev pub code_byte : ResponseCode → ℕ
code_byte ResponseCode.no_error = 0
code_byte ResponseCode.form_err = 1
code_byte ResponseCode.serv_fail = 2
code_byte ResponseCode.not_imp = 3
code_byte ResponseCode.refused = 4
code_byte (ResponseCode.unassigned n) = suc (suc (suc (suc (suc n))))

abbrev pub first_name : List Question → Bytes
first_name [] = []
first_name (q ∷ qs) = q.name

abbrev pub message_of : Bytes → Option Message
message_of (i ∷ t ∷ c ∷ name) = some (record {
  id = i;
  message_type = type_of t;
  op_code = OpCode.query;
  recursion_desired = false;
  response_code = code_of c;
  queries = record { name = name; query_type = RecordType.a } ∷ [];
  answers = record { rdata = RData.a 0; ttl = 60 } ∷ [];
})
message_of _ = none

abbrev pub small_dns : Dns
small_dns = record {
  from_vec = message_of;
  to_vec = λ m.
      some (m.id ∷ type_byte m.message_type ∷ code_byte m.response_code ∷ first_name m.queries);
  error_msg = λ id op code. record {
    id = id;
    message_type = MessageType.response;
    op_code = op;
    recursion_desired = false;
    response_code = code;
    queries = [];
    answers = [];
  };
}

code_of_byte : (c : ResponseCode) → code_of (code_byte c) ≡ c
code_of_byte ResponseCode.no_error = refl
code_of_byte ResponseCode.form_err = refl
code_of_byte ResponseCode.serv_fail = refl
code_of_byte ResponseCode.not_imp = refl
code_of_byte ResponseCode.refused = refl
code_of_byte (ResponseCode.unassigned n) = refl

pub small_dns-DnsLaws : DnsLaws small_dns
small_dns-DnsLaws = record {
  error_code = λ id op code. refl;
  code_survives = λ m n bs own e p. ground (arith, code_of_byte m.response_code);
}

abbrev pub runner : NftRunner
runner = record { program = codes "nft"; leading_args = [] }

abbrev pub host : Host
host = record { to_vec = λ es. some []; run = λ program args stdin. exited true }

abbrev pub query_of : Bytes → Bytes
query_of name = 7 ∷ 0 ∷ 0 ∷ name

abbrev pub answer_of : Bytes → Bytes
answer_of name = 7 ∷ 1 ∷ 0 ∷ name

abbrev pub is_ab : Bytes → Bool
is_ab = bytes_eq (codes "a.b")

abbrev pub setting : Setting
setting = record {
  dns = small_dns;
  matches = is_ab;
  withhold_aaaa = true;
  forward = λ q. ok (answer_of (codes "a.b"));
  install = install library host runner;
}

abbrev pub upstream_failing : Setting
upstream_failing = record setting { forward = λ q. err upstream }

abbrev pub query_message : Bytes → Message
query_message name = record {
  id = 7;
  message_type = MessageType.query;
  op_code = OpCode.query;
  recursion_desired = false;
  response_code = ResponseCode.no_error;
  queries = record { name = name; query_type = RecordType.a } ∷ [];
  answers = record { rdata = RData.a 0; ttl = 60 } ∷ [];
}

abbrev pub answer_message : Message
answer_message = record (query_message (codes "a.b")) { message_type = MessageType.response }

abbrev pub ab_question : Question
ab_question = record { name = codes "a.b"; query_type = RecordType.a }

pub permitted : MayForward setting (query_of (codes "a.b"))
unfolding bytes_eq
permitted = record {
  query = query_message (codes "a.b");
  question = ab_question;
  parsed = refl;
  is_query = refl;
  is_op = refl;
  alone = refl;
  permitted = refl;
  not_withheld = refl;
}

pub permitted_failing : MayForward upstream_failing (query_of (codes "a.b"))
unfolding bytes_eq
permitted_failing = record {
  query = query_message (codes "a.b");
  question = ab_question;
  parsed = refl;
  is_query = refl;
  is_op = refl;
  alone = refl;
  permitted = refl;
  not_withheld = refl;
}

pub denied : IsDenied setting (query_of (codes "x"))
unfolding bytes_eq
denied = record {
  query = query_message (codes "x");
  question = record { name = codes "x"; query_type = RecordType.a };
  parsed = refl;
  is_query = refl;
  is_op = refl;
  alone = refl;
  denied = refl;
}
