-- ===== src/Agent/Control/Answers.antt =====
-- src/bin/vivarium-guest-agent/control.rs: the answers of `handle` to the requests of a connection.
use mathlib.Core.List.{append_assoc, append-nil}
use vivarium.Prelude.{
  ◌≡◌, refl, ◌∙◌, sym, ap, ◌⊎◌, inl, inr, Bool, true, false, Option, none, some, List, [], ◌∷◌,
  ◌++◌, Bool-cases, Option-cases, Result-cases,
}
use Prim.Native.String.{String}
use vivarium.Protocol.Message.{
  StartRequest, TerminalSize, TrimRequest, MemoryReport, ClientFrame, AgentFrame,
}
use vivarium.Protocol.Wire.{Writer}
use vivarium.Protocol.Frame.{write_agent_frame}
use vivarium.Agent.Control.{
  Effect, sent, powered_off, trimmed, started, Guest, Connection, Handled, ended, logged, finished,
  resized, send, fail_with, answer, request,
}

-- The answer in the log, where it was written.
abbrev pub written : Bool → AgentFrame → List Effect
written true frame = sent frame ∷ []
written false frame = []

module _ (g : Guest) where
  -- What a connection that was let in does, with whether it ends well: every act comes in front of
  -- its acknowledgement, which is sent only if the act worked, and nothing comes behind it.
  pub data Ends : Bool → List Effect → Type 0 where
    failed :
        (code : String) (told : Bool)
        → Ends false (written told (AgentFrame.error (record { code = code })))
    pinged : (good : Bool) → Ends good (written good AgentFrame.pong)
    counted :
        (good : Bool)
        → Ends good (written good (AgentFrame.sessions (record { sessions = g.sessions })))
    reported :
        (report : MemoryReport) (good : Bool)
        → g.meminfo ≡ some report
        → Ends good (written good (AgentFrame.memory report))
    stopping :
        (good : Bool)
        → g.poweroff ≡ true
        → Ends good (powered_off ∷ written good AgentFrame.shutdown_ack)
    trimming :
        (r : TrimRequest) (good : Bool)
        → g.trim r ≡ true
        → Ends good (trimmed r ∷ written good AgentFrame.trim_ack)
    running :
        (r : StartRequest) (size : Option TerminalSize)
        → Ends (g.session r size) (started r size ∷ [])

  -- An end behind what a connection did before it.
  abbrev pub Continues : List Effect → Handled → Type 0
  Continues log h = (tail : List Effect) × (h.log ≡ log ++ tail) × Ends h.good tail

  pub send-cases :
      (frame : AgentFrame) (c : Connection)
      → ((w : Writer) × (send g frame c
            ≡ (true, record c { writer = w; log = c.log ++ (sent frame ∷ []) })))
        ⊎ (send g frame c ≡ (false, c))
  unfolding send
  send-cases frame c = elim (Result-cases (write_agent_frame g.json c.writer frame)) [
    | inl (w, e) ↦ inl (w, rw (send, e) refl)
    | inr (x, e) ↦ inr (rw (send, e) refl)
  ]

  pub send-log :
      (frame : AgentFrame) (c : Connection)
      → (send g frame c).1.log ≡ c.log ++ written (send g frame c).0 frame
  unfolding send
  send-log frame c = elim (Result-cases (write_agent_frame g.json c.writer frame)) [
    | inl (w, e) ↦ rw (send, e) refl
    | inr (x, e) ↦ rw (send, e) (sym (append-nil c.log))
  ]

  answer-Continues :
      (frame : AgentFrame) (c : Connection) (acts : List Effect)
      → ((good : Bool) → Ends good (acts ++ written good frame))
      → (log : List Effect) → c.log ≡ log ++ acts
      → Continues log (answer g frame c)
  unfolding answer
  answer-Continues frame c acts ends log e = (
    acts ++ written (send g frame c).0 frame,
    send-log frame c
        ∙ ap (λ l. l ++ written (send g frame c).0 frame) e
        ∙ append_assoc log acts (written (send g frame c).0 frame),
    ends (send g frame c).0,
  )

  pub fail-Continues : (code : String) (c : Connection) → Continues c.log (fail_with g code c)
  unfolding fail_with
  fail-Continues code c =
      let frame = AgentFrame.error (record { code = code }) in
      (written (send g frame c).0 frame, send-log frame c, failed code (send g frame c).0)

  -- Every arm but the first resize ends the connection.
  pub request-Continues :
      (size : Option TerminalSize) (f : ClientFrame) (c : Connection)
      → ((h : Handled) × (request g size f c ≡ finished h) × Continues c.log h)
        ⊎ ((new_size : TerminalSize) × (size ≡ none) × (request g size f c ≡ resized new_size c))
  unfolding request
  request-Continues size ClientFrame.ping c =
      inl (_, refl, answer-Continues AgentFrame.pong c [] pinged c.log (sym (append-nil c.log)))
  request-Continues size ClientFrame.sessions c = inl (
    _,
    refl,
    answer-Continues (AgentFrame.sessions (record { sessions = g.sessions })) c [] counted c.log
        (sym (append-nil c.log)),
  )
  request-Continues size ClientFrame.shutdown c = elim (Bool-cases g.poweroff) [
    | inl on ↦ inl (
      answer g AgentFrame.shutdown_ack (logged powered_off c),
      rw on refl,
      answer-Continues AgentFrame.shutdown_ack (logged powered_off c) (powered_off ∷ [])
          (λ good. stopping good on) c.log refl,
    )
    | inr off ↦ inl (fail_with g "shutdown" c, rw off refl, fail-Continues "shutdown" c)
  ]
  request-Continues size ClientFrame.memory c = elim (Option-cases g.meminfo) [
    | inr (report, e) ↦ inl (
      answer g (AgentFrame.memory report) c,
      rw (request, e) refl,
      answer-Continues (AgentFrame.memory report) c [] (λ good. reported report good e) c.log
          (sym (append-nil c.log)),
    )
    | inl off ↦ inl (fail_with g "meminfo" c, rw (request, off) refl, fail-Continues "meminfo" c)
  ]
  request-Continues size (ClientFrame.trim r) c = elim (Bool-cases (g.trim r)) [
    | inl on ↦ inl (
      answer g AgentFrame.trim_ack (logged (trimmed r) c),
      rw on refl,
      answer-Continues AgentFrame.trim_ack (logged (trimmed r) c) (trimmed r ∷ [])
          (λ good. trimming r good on) c.log refl,
    )
    | inr off ↦ inl (fail_with g "trim" c, rw off refl, fail-Continues "trim" c)
  ]
  request-Continues none (ClientFrame.resize new_size) c = inr (new_size, refl, refl)
  request-Continues (some s) (ClientFrame.resize new_size) c =
      inl (_, refl, fail-Continues "state" c)
  request-Continues size (ClientFrame.start r) c = inl (
    ended (g.session r size) (logged (started r size) c),
    refl,
    (started r size ∷ [], refl, running r size),
  )
  request-Continues size (ClientFrame.hello h) c = inl (_, refl, fail-Continues "state" c)
  request-Continues size (ClientFrame.stdin bs) c = inl (_, refl, fail-Continues "state" c)
  request-Continues size ClientFrame.stdin_end c = inl (_, refl, fail-Continues "state" c)
  request-Continues size (ClientFrame.signal n) c = inl (_, refl, fail-Continues "state" c)
