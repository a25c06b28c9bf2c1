-- ===== src/Agent/Control.antt =====
-- src/bin/vivarium-guest-agent/control.rs, `handle`: one connection, from its first frame to its
-- end. What it does is logged in order; the files that it touches, the trim of a disk, the reading
-- of /proc/meminfo and the run of a session are what the connection is given.
pub mod Answers
pub mod Handling
use vivarium.Prelude.{
  ℕ, suc, zero, ◌&&◌, Bool, true, false, Option, none, some, List, [], ◌∷◌, ◌++◌, Bytes, bytes_eq,
  ◌==◌, if◌then◌else◌, Result, ok, err,
}
use Prim.Native.String.{String}
use vivarium.Protocol.Message.{
  Hello, StartRequest, TerminalSize, TrimRequest, MemoryReport, SessionCount, ProtocolErrorMessage,
  ClientFrame, AgentFrame, schema_version,
}
use vivarium.Protocol.Wire.{FrameError, Reader, Writer}
use vivarium.Protocol.Frame.{Json, read_client_frame, write_agent_frame}

-- What a connection does to the outside, in order: a frame that was written, the poweroff trigger,
-- a trim that completed, a session that ran.
pub data Effect : Type 0 where
  sent : AgentFrame → Effect
  powered_off : Effect
  trimmed : TrimRequest → Effect
  started : StartRequest → Option TerminalSize → Effect

-- What a connection is given: the identity of this boot, the count of live sessions when it asks,
-- and what the files, the trim and the session answer.
pub record Guest : Type 0 where
  pub json : Json
  pub identity : Bytes
  pub sessions : ℕ
  pub poweroff : Bool
  pub meminfo : Option MemoryReport
  pub trim : TrimRequest → Bool
  pub session : StartRequest → Option TerminalSize → Bool

pub record Connection : Type 0 where
  pub reader : Reader
  pub writer : Writer
  pub log : List Effect

-- Whether `handle` returned `Ok`, and the connection that it leaves.
pub record Handled : Type 0 where
  pub good : Bool
  pub log : List Effect

abbrev pub ended : Bool → Connection → Handled
ended good c = record { good = good; log = c.log }

abbrev pub logged : Effect → Connection → Connection
logged e c = record c { log = c.log ++ (e ∷ []) }

-- One turn of the loop ends the connection, or goes on with a terminal size.
pub data Turn : Type 0 where
  finished : Handled → Turn
  resized : TerminalSize → Connection → Turn

module _ (g : Guest) where
  -- `write_agent_frame(..).await`, and whether it worked.
  unfoldable pub send : AgentFrame → Connection → Bool × Connection
  send frame c = elim (write_agent_frame g.json c.writer frame) [
    | ok w ↦ (true, record c { writer = w; log = c.log ++ (sent frame ∷ []) })
    | err e ↦ (false, c)
  ]

  -- `safe_error`, behind which the connection fails.
  unfoldable pub fail_with : String → Connection → Handled
  unfolding send
  fail_with code c = ended false (send (AgentFrame.error (record { code = code })) c).1

  -- An answer that ends the connection: well only if it was written.
  unfoldable pub answer : AgentFrame → Connection → Handled
  unfolding send
  answer frame c = let (good, c) = send frame c in ended good c

  -- The arms of the loop.
  unfoldable pub request : Option TerminalSize → ClientFrame → Connection → Turn
  unfolding answer fail_with
  request size ClientFrame.ping c = finished (answer AgentFrame.pong c)
  request size ClientFrame.sessions c =
      finished (answer (AgentFrame.sessions (record { sessions = g.sessions })) c)
  request size ClientFrame.shutdown c = finished (
      if g.poweroff
      then answer AgentFrame.shutdown_ack (logged powered_off c)
      else fail_with "shutdown" c)
  request size ClientFrame.memory c = finished (elim g.meminfo [
    | none ↦ fail_with "meminfo" c
    | some report ↦ answer (AgentFrame.memory report) c
  ])
  request size (ClientFrame.trim r) c =
      finished
        (if g.trim r then answer AgentFrame.trim_ack (logged (trimmed r) c) else fail_with "trim" c)
  request none (ClientFrame.resize new_size) c = resized new_size c
  request size (ClientFrame.start r) c =
      finished (ended (g.session r size) (logged (started r size) c))
  request size frame c = finished (fail_with "state" c)

  unfoldable pub turn : Option TerminalSize → Connection → Turn
  unfolding request fail_with
  turn size c = elim (read_client_frame g.json c.reader) [
    | ok (frame, r) ↦ request size frame (record c { reader = r })
    | err e ↦ finished (fail_with "framing" c)
  ]

  -- The loop on fuel. None is left only where the source would still go on.
  unfoldable pub serve : ℕ → Option TerminalSize → Connection → Option Handled
  unfolding turn
  serve zero size c = none
  serve (suc n) size c = elim (turn size c) [
    | finished h ↦ some h
    | resized new_size c ↦ serve n (some new_size) c
  ]

  abbrev pub authorizes : Hello → Bool
  authorizes h = (h.schema_version == schema_version) && bytes_eq h.boot_identity g.identity

  abbrev pub welcomed : Bool × Connection → Result Handled Connection
  welcomed (true, c) = ok c
  welcomed (false, c) = err (ended false c)

  -- The first frame: an authorized hello, or the end.
  unfoldable pub greet : ClientFrame → Connection → Result Handled Connection
  unfolding send fail_with
  greet (ClientFrame.hello h) c =
      if authorizes h
      then welcomed (
          send
            (AgentFrame.hello
              (record { schema_version = schema_version; boot_identity = h.boot_identity }))
            c)
      else err (fail_with "authorization" c)
  greet frame c = err (fail_with "authorization" c)

  unfoldable pub authorize : Connection → Result Handled Connection
  unfolding greet fail_with
  authorize c = elim (read_client_frame g.json c.reader) [
    | ok (frame, r) ↦ greet frame (record c { reader = r })
    | err e ↦ err (fail_with "framing" c)
  ]

  -- `handle`: the loop takes two turns at most.
  unfoldable pub handle : Connection → Option Handled
  unfolding authorize serve
  handle c = elim (authorize c) [ err h ↦ some h | ok c ↦ serve 2 none c ]
