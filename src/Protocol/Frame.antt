-- ===== src/Protocol/Frame.antt =====
-- src/protocol/frame.rs: the frames of each direction over the raw framing. The JSON texts of the
-- control payloads are serde_json's, and so a parameter.
pub mod RoundTrip
pub mod Direction
use vivarium.Prelude.{
  ℕ, ◌≡◌, Option, some, List, [], ◌∷◌, Bytes, ◌==◌, if◌then◌else◌, Result, ok, err, ◌>>=◌, or_fail,
}
use vivarium.Protocol.Message.{
  Hello, StartRequest, TerminalSize, SignalRequest, ExitStatus, ProtocolErrorMessage, SessionCount,
  MemoryReport, TrimRequest, ClientFrame, AgentFrame, tag_client_hello, tag_agent_hello, tag_ping,
  tag_pong, tag_start, tag_stdin, tag_stdin_end, tag_resize, tag_signal, tag_stdout, tag_stderr,
  tag_exit, tag_error, tag_sessions_query, tag_session_count, tag_shutdown_request,
  tag_shutdown_ack, tag_memory_query, tag_memory_report, tag_trim_request, tag_trim_ack,
}
use vivarium.Protocol.Wire.{
  FrameError, malformed_control, wrong_direction, unknown_tag, Reader, Raw, Writer, read_raw,
  write_raw,
}

-- serde_json for one type: rendering, which may fail, and parsing.
pub record Codec (A : Type 0) : Type 0 where
  pub to_vec : A → Option Bytes
  pub from_slice : Bytes → Option A

-- What is rendered parses back.
abbrev pub IsLossless : {A : Type 0} → Codec A → Type 0
IsLossless {A} c = (a : A) (bs : Bytes) → c.to_vec a ≡ some bs → c.from_slice bs ≡ some a

pub record Json : Type 0 where
  pub hello : Codec Hello
  pub start : Codec StartRequest
  pub resize : Codec TerminalSize
  pub signal : Codec SignalRequest
  pub exit : Codec ExitStatus
  pub error : Codec ProtocolErrorMessage
  pub sessions : Codec SessionCount
  pub memory : Codec MemoryReport
  pub trim : Codec TrimRequest

pub record JsonLaws (j : Json) : Type 0 where
  pub hello : IsLossless j.hello
  pub start : IsLossless j.start
  pub resize : IsLossless j.resize
  pub signal : IsLossless j.signal
  pub exit : IsLossless j.exit
  pub error : IsLossless j.error
  pub sessions : IsLossless j.sessions
  pub memory : IsLossless j.memory
  pub trim : IsLossless j.trim

-- `json` and `from_json`.
abbrev pub json : {A : Type 0} → Codec A → A → Result FrameError Bytes
json c a = or_fail (c.to_vec a) malformed_control

abbrev pub from_json : {A : Type 0} → Codec A → Bytes → Result FrameError A
from_json c bs = or_fail (c.from_slice bs) malformed_control

-- A frame with no payload: a payload that is there is malformed.
abbrev pub bare : {A : Type 0} → A → Bytes → Result FrameError A
bare f [] = ok f
bare f (b ∷ bs) = err malformed_control

module _ (j : Json) where
  -- The tag and the payload of a frame, as the writers choose them.
  unfoldable pub client_payload : ClientFrame → Result FrameError (ℕ × Bytes)
  client_payload (ClientFrame.hello v) = do ok (tag_client_hello, (← json j.hello v))
  client_payload ClientFrame.ping = ok (tag_ping, [])
  client_payload (ClientFrame.start v) = do ok (tag_start, (← json j.start v))
  client_payload (ClientFrame.stdin bs) = ok (tag_stdin, bs)
  client_payload ClientFrame.stdin_end = ok (tag_stdin_end, [])
  client_payload (ClientFrame.resize v) = do ok (tag_resize, (← json j.resize v))
  client_payload (ClientFrame.signal v) = do ok (tag_signal, (← json j.signal v))
  client_payload ClientFrame.sessions = ok (tag_sessions_query, [])
  client_payload ClientFrame.shutdown = ok (tag_shutdown_request, [])
  client_payload ClientFrame.memory = ok (tag_memory_query, [])
  client_payload (ClientFrame.trim v) = do ok (tag_trim_request, (← json j.trim v))

  unfoldable pub agent_payload : AgentFrame → Result FrameError (ℕ × Bytes)
  agent_payload (AgentFrame.hello v) = do ok (tag_agent_hello, (← json j.hello v))
  agent_payload AgentFrame.pong = ok (tag_pong, [])
  agent_payload (AgentFrame.stdout bs) = ok (tag_stdout, bs)
  agent_payload (AgentFrame.stderr bs) = ok (tag_stderr, bs)
  agent_payload (AgentFrame.exit v) = do ok (tag_exit, (← json j.exit v))
  agent_payload (AgentFrame.error v) = do ok (tag_error, (← json j.error v))
  agent_payload (AgentFrame.sessions v) = do ok (tag_session_count, (← json j.sessions v))
  agent_payload AgentFrame.shutdown_ack = ok (tag_shutdown_ack, [])
  agent_payload (AgentFrame.memory v) = do ok (tag_memory_report, (← json j.memory v))
  agent_payload AgentFrame.trim_ack = ok (tag_trim_ack, [])

  unfoldable pub write_client_frame : Writer → ClientFrame → Result FrameError Writer
  write_client_frame w frame = do (tag, payload) ← client_payload frame; write_raw w tag payload

  unfoldable pub write_agent_frame : Writer → AgentFrame → Result FrameError Writer
  write_agent_frame w frame = do (tag, payload) ← agent_payload frame; write_raw w tag payload

  -- The arms of `read_client_frame` and of `read_agent_frame`: a tag of the other direction and a
  -- tag of none are told apart.
  unfoldable pub client_frame : ℕ → Bytes → Result FrameError ClientFrame
  client_frame tag payload =
      if tag == tag_client_hello
      then (do ok (ClientFrame.hello (← from_json j.hello payload)))
      else if tag == tag_ping
      then bare ClientFrame.ping payload
      else if tag == tag_start
      then (do ok (ClientFrame.start (← from_json j.start payload)))
      else if tag == tag_stdin
      then ok (ClientFrame.stdin payload)
      else if tag == tag_stdin_end
      then bare ClientFrame.stdin_end payload
      else if tag == tag_resize
      then (do ok (ClientFrame.resize (← from_json j.resize payload)))
      else if tag == tag_signal
      then (do ok (ClientFrame.signal (← from_json j.signal payload)))
      else if tag == tag_sessions_query
      then bare ClientFrame.sessions payload
      else if tag == tag_shutdown_request
      then bare ClientFrame.shutdown payload
      else if tag == tag_memory_query
      then bare ClientFrame.memory payload
      else if tag == tag_trim_request
      then (do ok (ClientFrame.trim (← from_json j.trim payload)))
      else if tag == tag_agent_hello
      then err wrong_direction
      else if tag == tag_pong
      then err wrong_direction
      else if tag == tag_stdout
      then err wrong_direction
      else if tag == tag_stderr
      then err wrong_direction
      else if tag == tag_exit
      then err wrong_direction
      else if tag == tag_error
      then err wrong_direction
      else if tag == tag_session_count
      then err wrong_direction
      else if tag == tag_shutdown_ack
      then err wrong_direction
      else if tag == tag_memory_report
      then err wrong_direction
      else if tag == tag_trim_ack
      then err wrong_direction
      else err unknown_tag

  unfoldable pub agent_frame : ℕ → Bytes → Result FrameError AgentFrame
  agent_frame tag payload =
      if tag == tag_agent_hello
      then (do ok (AgentFrame.hello (← from_json j.hello payload)))
      else if tag == tag_pong
      then bare AgentFrame.pong payload
      else if tag == tag_stdout
      then ok (AgentFrame.stdout payload)
      else if tag == tag_stderr
      then ok (AgentFrame.stderr payload)
      else if tag == tag_exit
      then (do ok (AgentFrame.exit (← from_json j.exit payload)))
      else if tag == tag_error
      then (do ok (AgentFrame.error (← from_json j.error payload)))
      else if tag == tag_session_count
      then (do ok (AgentFrame.sessions (← from_json j.sessions payload)))
      else if tag == tag_shutdown_ack
      then bare AgentFrame.shutdown_ack payload
      else if tag == tag_memory_report
      then (do ok (AgentFrame.memory (← from_json j.memory payload)))
      else if tag == tag_trim_ack
      then bare AgentFrame.trim_ack payload
      else if tag == tag_client_hello
      then err wrong_direction
      else if tag == tag_ping
      then err wrong_direction
      else if tag == tag_start
      then err wrong_direction
      else if tag == tag_stdin
      then err wrong_direction
      else if tag == tag_stdin_end
      then err wrong_direction
      else if tag == tag_resize
      then err wrong_direction
      else if tag == tag_signal
      then err wrong_direction
      else if tag == tag_sessions_query
      then err wrong_direction
      else if tag == tag_shutdown_request
      then err wrong_direction
      else if tag == tag_memory_query
      then err wrong_direction
      else if tag == tag_trim_request
      then err wrong_direction
      else err unknown_tag

  unfoldable pub read_client_frame : Reader → Result FrameError (ClientFrame × Reader)
  read_client_frame r = do
    raw ← read_raw r
    frame ← client_frame raw.tag raw.payload
    ok (frame, raw.rest)

  unfoldable pub read_agent_frame : Reader → Result FrameError (AgentFrame × Reader)
  read_agent_frame r = do
    raw ← read_raw r
    frame ← agent_frame raw.tag raw.payload
    ok (frame, raw.rest)
