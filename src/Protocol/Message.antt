-- ===== src/Protocol/Message.antt =====
-- src/protocol/message.rs: the closed protocol constants and the messages of each direction.
use Prim.Native.String.{String}
use vivarium.Prelude.{ℕ, ◌*◌, Bool, List, Bytes, Result, ok, err, ◌==◌, if◌then◌else◌}

abbrev pub stream_payload_max : ℕ
stream_payload_max = 64 * 1024

abbrev pub control_payload_max : ℕ
control_payload_max = 1024 * 1024

abbrev pub schema_version : ℕ
schema_version = 1

abbrev pub tag_client_hello : ℕ
tag_client_hello = 0x01

abbrev pub tag_agent_hello : ℕ
tag_agent_hello = 0x02

abbrev pub tag_ping : ℕ
tag_ping = 0x03

abbrev pub tag_pong : ℕ
tag_pong = 0x04

abbrev pub tag_start : ℕ
tag_start = 0x05

abbrev pub tag_stdin : ℕ
tag_stdin = 0x06

abbrev pub tag_stdin_end : ℕ
tag_stdin_end = 0x07

abbrev pub tag_resize : ℕ
tag_resize = 0x08

abbrev pub tag_signal : ℕ
tag_signal = 0x09

abbrev pub tag_stdout : ℕ
tag_stdout = 0x0a

abbrev pub tag_stderr : ℕ
tag_stderr = 0x0b

abbrev pub tag_exit : ℕ
tag_exit = 0x0c

abbrev pub tag_error : ℕ
tag_error = 0x0d

abbrev pub tag_sessions_query : ℕ
tag_sessions_query = 0x0e

abbrev pub tag_session_count : ℕ
tag_session_count = 0x0f

abbrev pub tag_shutdown_request : ℕ
tag_shutdown_request = 0x10

abbrev pub tag_shutdown_ack : ℕ
tag_shutdown_ack = 0x11

abbrev pub tag_memory_query : ℕ
tag_memory_query = 0x12

abbrev pub tag_memory_report : ℕ
tag_memory_report = 0x13

abbrev pub tag_trim_request : ℕ
tag_trim_request = 0x14

abbrev pub tag_trim_ack : ℕ
tag_trim_ack = 0x15

pub data CredentialId : Type 0 where
  ssh gpg : CredentialId

pub data ProtocolValueError : Type 0 where
  credential_id boot_identity : ProtocolValueError

pub setup_byte : CredentialId → ℕ
setup_byte ssh = 0x01
setup_byte gpg = 0x02

pub from_setup_byte : ℕ → Result ProtocolValueError CredentialId
from_setup_byte byte =
    if byte == 0x01 then ok ssh else if byte == 0x02 then ok gpg else err credential_id

pub record Hello : Type 0 where
  pub schema_version : ℕ
  pub boot_identity : Bytes

pub data SessionMode : Type 0 where
  exec shell : SessionMode

pub record EnvironmentVariable : Type 0 where
  pub name : Bytes
  pub value : Bytes

pub record StartRequest : Type 0 where
  pub mode : SessionMode
  pub argv : List Bytes
  pub environment : List EnvironmentVariable
  pub cwd : Bytes
  pub pty : Bool

pub record TerminalSize : Type 0 where
  pub rows : ℕ
  pub columns : ℕ

pub record SignalRequest : Type 0 where
  pub signal : ℕ

pub record ExitStatus : Type 0 where
  pub status : ℕ

pub record ProtocolErrorMessage : Type 0 where
  pub code : String

pub record SessionCount : Type 0 where
  pub sessions : ℕ

pub record MemoryReport : Type 0 where
  pub total_bytes : ℕ
  pub available_bytes : ℕ

pub record TrimRequest : Type 0 where
  pub mountpoints : List Bytes

pub data ClientFrame : Type 0 where
  hello : Hello → ClientFrame
  ping : ClientFrame
  start : StartRequest → ClientFrame
  stdin : Bytes → ClientFrame
  stdin_end : ClientFrame
  resize : TerminalSize → ClientFrame
  signal : SignalRequest → ClientFrame
  sessions : ClientFrame
  shutdown : ClientFrame
  memory : ClientFrame
  trim : TrimRequest → ClientFrame

pub data AgentFrame : Type 0 where
  hello : Hello → AgentFrame
  pong : AgentFrame
  stdout : Bytes → AgentFrame
  stderr : Bytes → AgentFrame
  exit : ExitStatus → AgentFrame
  error : ProtocolErrorMessage → AgentFrame
  sessions : SessionCount → AgentFrame
  shutdown_ack : AgentFrame
  memory : MemoryReport → AgentFrame
  trim_ack : AgentFrame
