-- ===== src/Tests/Wire.antt =====
-- The theorems on src/protocol at concrete inputs.
use vivarium.Prelude.{
  ◌≡◌, refl, ◌++◌, Option, none, some, [], ◌∷◌, Bytes, codes, ok, err, length, ◌≤◌, arith,
}
use vivarium.Protocol.Message.{
  Hello, TerminalSize, SignalRequest, ExitStatus, SessionCount, MemoryReport, ClientFrame,
  AgentFrame,
}
use vivarium.Protocol.Wire.{
  truncated, wrong_direction, Ending, closed, Reader, Writer, Raw, read_first, read_exact,
  read_body, read_raw, write_all, write_raw, framed, from_be_bytes, payload_max,
}
use vivarium.Protocol.Wire.Bounds.{read_raw_bounds, read_raw_short}
use vivarium.Protocol.Frame.{
  Json, JsonLaws, client_payload, agent_payload, client_frame, write_client_frame,
  write_agent_frame, read_client_frame, read_agent_frame,
}
use vivarium.Protocol.Frame.RoundTrip.{read-write_client_frame, read-write_agent_frame}

-- Codecs that stand for serde_json: a value whose text they do not have is not rendered.
abbrev hello_of : Bytes → Option Hello
hello_of [] = none
hello_of (v ∷ bs) = some (record { schema_version = v; boot_identity = bs })

abbrev size_read : Bytes → Option TerminalSize
size_read (r ∷ c ∷ []) = some (record { rows = r; columns = c })
size_read _ = none

abbrev signal_of : Bytes → Option SignalRequest
signal_of (n ∷ []) = some (record { signal = n })
signal_of _ = none

abbrev exit_of : Bytes → Option ExitStatus
exit_of (n ∷ []) = some (record { status = n })
exit_of _ = none

abbrev sessions_of : Bytes → Option SessionCount
sessions_of (n ∷ []) = some (record { sessions = n })
sessions_of _ = none

abbrev memory_of : Bytes → Option MemoryReport
memory_of (t ∷ a ∷ []) = some (record { total_bytes = t; available_bytes = a })
memory_of _ = none

abbrev pub plain : Json
plain = record {
  hello = record { to_vec = λ h. some (h.schema_version ∷ h.boot_identity); from_slice = hello_of };
  start = record { to_vec = λ s. none; from_slice = λ bs. none };
  resize = record { to_vec = λ s. some (s.rows ∷ s.columns ∷ []); from_slice = size_read };
  signal = record { to_vec = λ s. some (s.signal ∷ []); from_slice = signal_of };
  exit = record { to_vec = λ s. some (s.status ∷ []); from_slice = exit_of };
  error = record { to_vec = λ s. none; from_slice = λ bs. none };
  sessions = record { to_vec = λ s. some (s.sessions ∷ []); from_slice = sessions_of };
  memory = record {
    to_vec = λ m. some (m.total_bytes ∷ m.available_bytes ∷ []);
    from_slice = memory_of;
  };
  trim = record { to_vec = λ t. none; from_slice = λ bs. none };
}

plain-JsonLaws : JsonLaws plain
plain-JsonLaws = record {
  hello = λ h bs e. ground arith;
  start = λ s bs e. ground arith;
  resize = λ s bs e. ground arith;
  signal = λ s bs e. ground arith;
  exit = λ s bs e. ground arith;
  error = λ s bs e. ground arith;
  sessions = λ s bs e. ground arith;
  memory = λ s bs e. ground arith;
  trim = λ t bs e. ground arith;
}

abbrev fresh : Writer
fresh = record { written = []; room = 100 }

abbrev pub greeting : Hello
greeting = record { schema_version = 1; boot_identity = codes "b" }

abbrev greeted : Writer
greeted = record { written = framed 1 (1 ∷ codes "b"); room = 93 }

abbrev answered : Writer
answered = record { written = framed 2 (1 ∷ codes "b"); room = 93 }

client_sent : write_client_frame plain fresh (ClientFrame.hello greeting) ≡ ok greeted
unfolding write_client_frame client_payload write_raw write_all
client_sent = refl

agent_sent : write_agent_frame plain fresh (AgentFrame.hello greeting) ≡ ok answered
unfolding write_agent_frame agent_payload write_raw write_all
agent_sent = refl

abbrev on_wire : Reader
on_wire = record { bytes = framed 1 (1 ∷ codes "b"); ending = closed }

raw_read :
    read_raw on_wire
    ≡ ok
        (record { tag = 1; payload = 1 ∷ codes "b"; rest = record { bytes = []; ending = closed } })
unfolding read_raw read_first read_exact read_body
raw_read = refl

-- A ping that carries a payload is malformed, a pong is of the wrong direction.
misdirected : client_frame plain 4 [] ≡ err wrong_direction
unfolding client_frame
misdirected = refl

read-write_client_frame_example :
    (bs : Bytes) × (greeted.written ≡ [] ++ bs)
    × ((rest : Bytes) (e : Ending)
        → read_client_frame plain (record { bytes = bs ++ rest; ending = e })
          ≡ ok (ClientFrame.hello greeting, record { bytes = rest; ending = e }))
read-write_client_frame_example =
    read-write_client_frame plain-JsonLaws (ClientFrame.hello greeting) fresh greeted client_sent

read-write_agent_frame_example :
    (bs : Bytes) × (answered.written ≡ [] ++ bs)
    × ((rest : Bytes) (e : Ending)
        → read_agent_frame plain (record { bytes = bs ++ rest; ending = e })
          ≡ ok (AgentFrame.hello greeting, record { bytes = rest; ending = e }))
read-write_agent_frame_example =
    read-write_agent_frame plain-JsonLaws (AgentFrame.hello greeting) fresh answered agent_sent

abbrev raw_greeting : Raw
raw_greeting = record {
  tag = 1;
  payload = 1 ∷ codes "b";
  rest = record { bytes = []; ending = closed };
}

read_raw_bounds_example :
    (2 ≤ payload_max 1)
    × ((prefix : Bytes) × (length prefix ≡ 4)
        × (from_be_bytes 0 prefix ≡ 3)
        × (framed 1 (1 ∷ codes "b") ≡ prefix ++ (1 ∷ (1 ∷ codes "b") ++ [])))
read_raw_bounds_example = read_raw_bounds (framed 1 (1 ∷ codes "b")) closed raw_greeting raw_read

read_raw_short_example :
    read_raw (record { bytes = 0 ∷ 0 ∷ 0 ∷ 3 ∷ 1 ∷ []; ending = closed }) ≡ err truncated
read_raw_short_example =
    read_raw_short 1 (1 ∷ codes "b") (0 ∷ 0 ∷ 0 ∷ 3 ∷ 1 ∷ []) (1 ∷ codes "b") closed (omega arith)
      (λ e. cc e) (λ e. cc e) refl
