-- ===== src/Tests/Gate.antt =====
-- The theorems on src/net/resolver.rs and on the installation of src/net/nft.rs at concrete inputs.
use vivarium.Prelude.{
  ◌≡◌, ◌≢◌, refl, ◌⊎◌, some, List, [], ◌∷◌, Bytes, codes, bytes_eq, ok, or_fail, Some,
}
use vivarium.Net.Address.{v4}
use vivarium.Net.Text.{strip_suffix, split, lower, ends_with}
use vivarium.Net.Allowlist.{
  dot, valid_label, normalize_undotted, normalize_name, entry_matches_name, matches_name,
}
use vivarium.Net.Allowlist.Grants.{Grants}
use vivarium.Net.Dns.{MessageType, ResponseCode, Message}
use vivarium.Net.Resolver.{
  TimedAddress, encode, Setting, reply, withheld, additions, gate_query, gate_message,
  gate_questions, gate_question, gate_forward, gate_response,
}
use vivarium.Net.Resolver.Gate.{upstream_packets, MayForward, gate_query_packets}
use vivarium.Net.Resolver.Policy.{IsDenied, refused-IsDenied}
use vivarium.Net.Resolver.Names.{forwarded-Grants}
use vivarium.Net.Nft.{timed_elements}
use vivarium.Net.Nft.Install.{apply, install, Applied, released-Applied}
use vivarium.Tests.Names.{library, allowed}
use vivarium.Tests.Guests.{
  small_dns, small_dns-DnsLaws, runner, host, query_of, answer_of, setting, query_message,
  answer_message, permitted,
}

gate_query_packets_example :
    (upstream_packets (gate_query setting (query_of (codes "a.b"))).log ≡ [])
    ⊎ ((upstream_packets (gate_query setting (query_of (codes "a.b"))).log
          ≡ query_of (codes "a.b") ∷ [])
        × MayForward setting (query_of (codes "a.b")))
gate_query_packets_example = gate_query_packets setting (query_of (codes "a.b"))

-- The same gate with the allowlist itself.
abbrev listed : Setting
listed = record setting { matches = matches_name allowed }

listed_sent : upstream_packets (gate_query listed (query_of (codes "x.c"))).log ≢ []
unfolding gate_query gate_message gate_questions gate_question gate_forward gate_response
    upstream_packets additions matches_name entry_matches_name normalize_name normalize_undotted
    strip_suffix split lower valid_label bytes_eq ends_with install apply timed_elements
listed_sent e = cc e

forwarded-Grants_example :
    (m : MayForward listed (query_of (codes "x.c"))) × (n : Bytes) × (normalize_name m.question.name
      ≡ some n)
    × Some (λ e. Grants e (split dot n)) allowed
forwarded-Grants_example =
    forwarded-Grants listed allowed (query_of (codes "x.c")) (λ name. refl) listed_sent

abbrev pub fresh : List TimedAddress
fresh = record { addr = v4 0; ttl_seconds = 60 } ∷ []

abbrev refused_message : Message
refused_message = record (query_message (codes "x")) {
  message_type = MessageType.response;
  response_code = ResponseCode.refused;
}

refused_sent : (gate_query setting (query_of (codes "x"))).outcome ≡ ok (7 ∷ 1 ∷ 4 ∷ codes "x")
unfolding gate_query gate_message gate_questions gate_question reply bytes_eq
refused_sent = refl

refused-IsDenied_example : IsDenied setting (query_of (codes "x"))
refused-IsDenied_example =
    refused-IsDenied setting small_dns-DnsLaws (query_of (codes "x")) (7 ∷ 1 ∷ 4 ∷ codes "x")
      refused_message refused_sent refl refl

installed_fresh : Applied library host runner fresh
unfolding timed_elements
installed_fresh = record { rendered = []; encoded = refl; ran = refl }

released-Applied_example :
    (Applied library host runner fresh
      × ((gate_query setting (query_of (codes "a.b"))).outcome ≡ ok (answer_of (codes "a.b"))))
    ⊎ ((gate_query setting (query_of (codes "a.b"))).outcome
        ≡ or_fail (withheld small_dns permitted.query) encode)
unfolding additions
released-Applied_example =
    released-Applied library host runner setting (query_of (codes "a.b")) (answer_of (codes "a.b"))
      permitted answer_message (λ ts. refl) refl refl refl (λ e. cc e)
