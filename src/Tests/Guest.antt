-- ===== src/Tests/Guest.antt =====
-- The theorems on src/bin/vivarium-guest-agent at concrete inputs.
use vivarium.Prelude.{
  ◌≡◌, ◌≢◌, ◌≤◌, All, refl, ◌↔◌, ◌⊎◌, inl, inr, ◌++◌, Option, true, false, none, some, List, [],
  ◌∷◌, Bytes, codes, Some, arith, bytes_eq,
}
use vivarium.Protocol.Message.{TrimRequest, AgentFrame}
use vivarium.Protocol.Wire.{
  framed, closed, read_raw, read_first, read_exact, read_body, write_raw, write_all,
}
use vivarium.Protocol.Frame.{read_client_frame, client_frame, write_agent_frame, agent_payload}
use vivarium.Net.Text.{has, split, strip_suffix}
use vivarium.Agent.Control.{sent, powered_off, trimmed, Guest, Connection, Handled, handle}
use vivarium.Agent.Control.Handling.{IsAuthorized, Refuses, Welcomes, handle-Ends}
use vivarium.Agent.Sessions.{
  run_session, count_in, count_out, Agent, Run, fresh, step, accept, act, fetch_add, fetch_sub,
  running-le-sessions,
}
use vivarium.Agent.Trim.{first_line, newline, refuses, run_trim}
use vivarium.Agent.Trim.Marker.{IsOwn, IsMountLine, run_trim_iff}
use vivarium.Agent.Trim.Acknowledged.{handle-Trims}
use vivarium.Tests.Wire.{plain, greeting}

abbrev guest : Guest
guest = record {
  json = plain;
  identity = codes "b";
  sessions = 2;
  poweroff = true;
  meminfo = none;
  trim = λ r. false;
  session = λ r size. true;
}

-- A connection that says hello and asks for a shutdown.
abbrev stopping : Connection
stopping = record {
  reader = record { bytes = framed 1 (1 ∷ codes "b") ++ framed 16 []; ending = closed };
  writer = record { written = []; room = 100 };
  log = [];
}

stopped :
    handle guest stopping
    ≡ some (record {
      good = true;
      log = sent (AgentFrame.hello greeting) ∷ powered_off ∷ sent AgentFrame.shutdown_ack ∷ [];
    })
unfolding handle read_client_frame client_frame read_raw read_first read_exact read_body bytes_eq
    write_agent_frame agent_payload write_raw write_all
stopped = refl

handle-Ends_example :
    (h : Handled) × (handle guest stopping ≡ some h)
    × (Refuses guest stopping h ⊎ (IsAuthorized guest stopping × Welcomes guest stopping h))
handle-Ends_example = handle-Ends guest stopping

-- Two sessions, the first of which has ended while the second runs.
abbrev after_two : Agent
after_two = record {
  sessions = fetch_sub (fetch_add (fetch_add 0));
  connections = (run_session ∷ count_out ∷ []) ∷ [] ∷ [];
}

two_started : Run after_two
two_started =
    step
      (step
        (step
          (step (step (step fresh accept) (act count_in (run_session ∷ count_out ∷ []) [] [] refl))
            (act run_session (count_out ∷ []) [] [] refl))
          accept)
        (act count_in (run_session ∷ count_out ∷ []) [] ((count_out ∷ []) ∷ []) refl))
      (act count_out [] ((run_session ∷ count_out ∷ []) ∷ []) [] refl)

running-le-sessions_example : (1 ≤ after_two.sessions) × (after_two.sessions ≤ 1)
running-le-sessions_example = running-le-sessions after_two two_started (omega arith)

abbrev own : Bytes
own = codes "# 1-2"

abbrev mounts : List Bytes
mounts = codes "/" ∷ codes "/data" ∷ []

accepted_mounts : refuses mounts ≡ false
unfolding refuses has
accepted_mounts = refl

own_line : has newline own ≡ false
unfolding has
own_line = refl

other_line : has newline (codes "# 1-1") ≡ false
unfolding has
other_line = refl

other_plain : strip_suffix (13 ∷ []) (codes "# 1-1") ≡ none
unfolding strip_suffix bytes_eq
other_plain = refl

run_trim_iff_example : (run_trim true true own mounts (none ∷ some (codes "# 1-2") ∷ []) ≡ true) ↔ (
    (mounts ≢ [])
    × All IsMountLine mounts
    × (true ≡ true)
    × (true ≡ true)
    × Some (IsOwn own) (none ∷ some (codes "# 1-2") ∷ []))
run_trim_iff_example = run_trim_iff true true own mounts (none ∷ some (codes "# 1-2") ∷ [])

-- A connection that asks for a trim, over a codec that reads one mountpoint.
abbrev one_mount : TrimRequest
one_mount = record { mountpoints = codes "/" ∷ [] }

abbrev looks : List (Option Bytes)
looks = none ∷ some own ∷ []

abbrev trimming_guest : Guest
trimming_guest = record guest {
  json = record plain {
    trim = record {
      to_vec = λ t. none;
      from_slice = λ bs. some (record { mountpoints = bs ∷ [] });
    };
  };
  trim = λ q. run_trim true true own q.mountpoints looks;
}

abbrev asking : Connection
asking = record stopping {
  reader = record { bytes = framed 1 (1 ∷ codes "b") ++ framed 20 (codes "/"); ending = closed };
}

abbrev trimmed_well : Handled
trimmed_well = record {
  good = true;
  log = sent (AgentFrame.hello greeting) ∷ trimmed one_mount ∷ sent AgentFrame.trim_ack ∷ [];
}

trim_asked : handle trimming_guest asking ≡ some trimmed_well
unfolding handle read_client_frame client_frame read_raw read_first read_exact read_body bytes_eq
    write_agent_frame agent_payload write_raw write_all run_trim first_line split strip_suffix has
trim_asked = refl

handle-Trims_example :
    IsAuthorized trimming_guest asking
    × (refuses one_mount.mountpoints ≡ false)
    × Some (IsOwn own) looks
handle-Trims_example =
    handle-Trims trimming_guest true true own looks asking trimmed_well one_mount (λ q. refl) refl
      trim_asked (inr (inl refl))
