-- ===== src/Net/Nft/Install.antt =====
-- src/net/nft.rs, `NftRunner` and `NftProgrammer`: one fresh process applies one payload. The
-- process is the host's.
use vivarium.Prelude.{
  ℕ, ◌≡◌, refl, ◌⊎◌, inl, inr, ◌≢◌, Bool, true, false, Option, some, List, [], ◌∷◌, ◌++◌, Bytes,
  codes, Result, ok, err, ◌>>=◌, or_fail, arith, Option-cases, Result-cases, ◌↔◌, sym, ap, ◌∙◌,
}
use vivarium.Net.Address.{Addresses}
use vivarium.Net.Resolver.{TimedAddress, Setting, gate_query, additions, withheld, encode}
use vivarium.Net.Resolver.Gate.{MayForward, gate_query_released}
use vivarium.Net.Dns.{Message, ResponseCode}
use vivarium.Net.Netns.{enter_pair_args}
use vivarium.Net.Nft.Schema.{Element}
use vivarium.Net.Nft.{timed_elements}

pub record NftRunner : Type 0 where
  pub program : Bytes
  pub leading_args : List Bytes

unfoldable pub direct : Bytes → NftRunner
direct nft = record { program = nft; leading_args = [] }

unfoldable pub entered : (ℕ → Bytes) → Bytes → ℕ → Bytes → NftRunner
unfolding enter_pair_args
entered show nsenter holder_pid nft = record {
  program = nsenter;
  leading_args = enter_pair_args show holder_pid (nft ∷ []);
}

pub data NftApplyError : Type 0 where
  render spawn feed rejected : NftApplyError

-- One process, as far as the runner sees it: it does not start, has no standard input, breaks while
-- it is fed or waited for, or exits, well or not.
pub data Run : Type 0 where
  not_spawned no_stdin broken : Run
  exited : (success : Bool) → Run

pub record Host : Type 0 where
  pub to_vec : List Element → Option Bytes
  pub run : (program : Bytes) (args : List Bytes) (stdin : Bytes) → Run

abbrev pub run_outcome : Run → Result NftApplyError (Unit {0})
run_outcome not_spawned = err spawn
run_outcome no_stdin = err feed
run_outcome broken = err feed
run_outcome (exited true) = ok tt
run_outcome (exited false) = err rejected

abbrev pub json_args : List Bytes
json_args = codes "-j" ∷ codes "-f" ∷ codes "-" ∷ []

unfoldable pub apply : Host → NftRunner → List Element → Result NftApplyError (Unit {0})
apply host runner payload = do
  rendered ← or_fail (host.to_vec payload) render
  run_outcome (host.run runner.program (runner.leading_args ++ json_args) rendered)

abbrev succeeded : Result NftApplyError (Unit {0}) → Bool
succeeded (ok u) = true
succeeded (err e) = false

-- `NftProgrammer::install`: an answer with no address runs nothing.
unfoldable pub install : Addresses → Host → NftRunner → List TimedAddress → Bool
install lib host runner [] = true
install lib host runner (t ∷ ts) = succeeded (apply host runner (timed_elements lib (t ∷ ts)))

-- The process of an installation ran on just these elements, inside or outside the pair as the
-- runner says, and exited well.
pub record Applied (lib : Addresses) (host : Host) (runner : NftRunner) (ts : List TimedAddress)
    : Type 0 where
  pub rendered : Bytes
  pub encoded : host.to_vec (timed_elements lib ts) ≡ some rendered
  pub ran : host.run runner.program (runner.leading_args ++ json_args) rendered ≡ exited true

module _ (lib : Addresses) (host : Host) (runner : NftRunner) where
  apply-eq-ok :
      (es : List Element) (u : Unit {0})
      → apply host runner es ≡ ok u
      → (rendered : Bytes) × (host.to_vec es ≡ some rendered)
        × (host.run runner.program (runner.leading_args ++ json_args) rendered ≡ exited true)
  unfolding apply
  apply-eq-ok es u h = elim (Option-cases (host.to_vec es)) [
    | inl bad ↦ absurd (ground arith)
    | inr (rendered, encoded) ↦ (rendered, encoded, ground arith)
  ]

  -- An installation of at least one address succeeds exactly when its process took the rendered
  -- elements and exited well.
  pub install_iff :
      (t : TimedAddress) (ts : List TimedAddress)
      → (install lib host runner (t ∷ ts) ≡ true) ↔ Applied lib host runner (t ∷ ts)
  unfolding install apply
  install_iff t ts = (to, from)
    where
      to : install lib host runner (t ∷ ts) ≡ true → Applied lib host runner (t ∷ ts)
      to h = elim (Result-cases (apply host runner (timed_elements lib (t ∷ ts)))) [
        | inr (e, failed) ↦ absurd (cc (sym h ∙ ap succeeded failed))
        | inl (u, done) ↦
            let (rendered, encoded, ran) = apply-eq-ok (timed_elements lib (t ∷ ts)) u done in
            record { rendered = rendered; encoded = encoded; ran = ran }
      ]

      from : Applied lib host runner (t ∷ ts) → install lib host runner (t ∷ ts) ≡ true
      from a = rw (a.encoded, apply, a.ran)

  -- With the nft programmer as the filter, a `NOERROR` answer to a permitted query that brings an
  -- address is either released behind a process that exited well on the elements of that answer,
  -- or withheld: the answer is a `SERVFAIL`, or none where that does not encode.
  pub released-Applied :
      (s : Setting) (query_bytes response_bytes : Bytes) (m : MayForward s query_bytes)
      (response : Message)
      → ((ts : List TimedAddress) → s.install ts ≡ install lib host runner ts)
      → s.forward query_bytes ≡ ok response_bytes
      → s.dns.from_vec response_bytes ≡ some response
      → response.response_code ≡ ResponseCode.no_error
      → additions response.answers ≢ []
      → (Applied lib host runner (additions response.answers)
          × ((gate_query s query_bytes).outcome ≡ ok response_bytes))
        ⊎ ((gate_query s query_bytes).outcome ≡ or_fail (withheld s.dns m.query) encode)
  released-Applied s query_bytes response_bytes m response same sent parsed code some_address =
      elim (gate_query_released s query_bytes response_bytes m response sent parsed code) [
        | inl (taken, gated) ↦ inl (
          applied (additions response.answers) some_address (sym (same _) ∙ taken),
          ap (λ g. g.outcome) gated,
        )
        | inr (refused, gated) ↦ inr (ap (λ g. g.outcome) gated)
      ]
    where
      applied :
          (ts : List TimedAddress)
          → ts ≢ []
          → install lib host runner ts ≡ true
          → Applied lib host runner ts
      applied [] h k = absurd (h refl)
      applied (t ∷ ts) h k = (install_iff t ts).0 k
