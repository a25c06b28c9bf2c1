-- ===== src/Agent/Control/Handling.antt =====
-- src/bin/vivarium-guest-agent/control.rs: `handle` from the first frame to the last.
use mathlib.Core.List.{append_assoc, append-nil}
use vivarium.Prelude.{
  ℕ, suc, ◌≡◌, refl, ◌∙◌, sym, ap, ◌⊎◌, inl, inr, Bool, false, Option, none, some, List, [], ◌∷◌,
  ◌++◌, bytes_eq_iff, Result, ok, err, arith, Bool-cases, Result-cases,
}
use Prim.Native.String.{String}
use vivarium.Protocol.Message.{Hello, TerminalSize, ClientFrame, AgentFrame, schema_version}
use vivarium.Protocol.Wire.{Reader}
use vivarium.Protocol.Frame.{read_client_frame}
use vivarium.Agent.Control.{
  Effect, sent, Guest, Connection, Handled, finished, resized, send, fail_with, turn, serve,
  authorizes, greet, authorize, handle,
}
use vivarium.Agent.Control.Answers.{
  written, Ends, Continues, send-log, send-cases, fail-Continues, request-Continues,
}

module _ (g : Guest) where
  turn-Continues :
      (size : Option TerminalSize) (c : Connection)
      → ((h : Handled) × (turn g size c ≡ finished h) × Continues g c.log h)
        ⊎ ((s : TerminalSize) × (c' : Connection) × (size ≡ none)
            × (turn g size c ≡ resized s c')
            × (c'.log ≡ c.log))
  unfolding turn
  turn-Continues size c = elim (Result-cases (read_client_frame g.json c.reader)) [
    | inr (x, e) ↦ inl (fail_with g "framing" c, rw (turn, e) refl, fail-Continues g "framing" c)
    | inl ((f, r), e) ↦ elim (request-Continues g size f (record c { reader = r })) [
      | inl (h, done, k) ↦ inl (h, rw (turn, e) done, k)
      | inr (s, first, on) ↦ inr (s, record c { reader = r }, first, rw (turn, e) on, refl)
    ]
  ]

  serve_sized :
      (n : ℕ) (s : TerminalSize) (c : Connection)
      → (h : Handled) × (serve g (suc n) (some s) c ≡ some h) × Continues g c.log h
  unfolding serve
  serve_sized n s c = elim (turn-Continues (some s) c) [
    | inl (h, done, k) ↦ (h, rw (serve, done) refl, k)
    | inr (s', c', first, on, same) ↦ absurd (cc first)
  ]

  serve_unsized :
      (n : ℕ) (c : Connection)
      → (h : Handled) × (serve g (suc (suc n)) none c ≡ some h) × Continues g c.log h
  unfolding serve
  serve_unsized n c = elim (turn-Continues none c) [
    | inl (h, done, k) ↦ (h, rw (serve, done) refl, k)
    | inr (s, c', first, on, same) ↦
        let (h, ends, (tail, log, k)) = serve_sized n s c' in
        (h, rw (serve, on) ends, (tail, log ∙ ap (λ l. l ++ tail) same, k))
  ]

  -- The first frame of a connection is a hello of this protocol and of this boot.
  pub record IsAuthorized (c : Connection) : Type 0 where
    pub greeting : Hello
    pub rest : Reader
    pub first : read_client_frame g.json c.reader ≡ ok (ClientFrame.hello greeting, rest)
    pub version : greeting.schema_version ≡ schema_version
    pub identity : greeting.boot_identity ≡ g.identity

  -- The connection fails with at most one error frame, and does nothing else.
  abbrev pub Refuses : Connection → Handled → Type 0
  Refuses c h =
      (h.good ≡ false)
      × ((code : String) × (told : Bool) × (h.log
            ≡ c.log ++ written told (AgentFrame.error (record { code = code }))))

  abbrev pub welcome : Effect
  welcome =
      sent
        (AgentFrame.hello (record { schema_version = schema_version; boot_identity = g.identity }))

  abbrev pub Welcomes : Connection → Handled → Type 0
  Welcomes c h = (tail : List Effect) × (h.log ≡ c.log ++ (welcome ∷ tail)) × Ends g h.good tail

  -- What the first frame leads to.
  abbrev Greeted : Connection → Result Handled Connection → Type 0
  Greeted c (err h) = Refuses c h
  Greeted c (ok d) = IsAuthorized c × (d.log ≡ c.log ++ (welcome ∷ []))

  fail-Refuses : (code : String) (c : Connection) → Refuses c (fail_with g code c)
  unfolding fail_with
  fail-Refuses code c =
      let frame = AgentFrame.error (record { code = code }) in
      (refl, (code, (send g frame c).0, send-log g frame c))

  greet_hello-Greeted :
      (v : Hello) (c : Connection) (r : Reader)
      → read_client_frame g.json c.reader ≡ ok (ClientFrame.hello v, r)
      → Greeted c (greet g (ClientFrame.hello v) (record c { reader = r }))
  unfolding greet
  greet_hello-Greeted v c r first = elim (Bool-cases (authorizes g v)) [
    | inr no_match ↦ rw no_match (fail-Refuses "authorization" (record c { reader = r }))
    | inl fits ↦
        let same : v.boot_identity ≡ g.identity =
          (bytes_eq_iff v.boot_identity g.identity).0 (ground arith) in
        elim (send-cases g
          (AgentFrame.hello
            (record { schema_version = schema_version; boot_identity = v.boot_identity }))
          (record c { reader = r })) [
            | inl (w, e) ↦
                rw (fits, e)
                  (
                    record {
                      greeting = v;
                      rest = r;
                      first = first;
                      version = ground arith;
                      identity = same;
                    },
                    rw same refl,
                  )
            | inr e ↦ rw (fits, e) (refl, ("", false, sym (append-nil c.log)))
          ]
  ]

  greet-Greeted :
      (frame : ClientFrame) (c : Connection) (r : Reader)
      → read_client_frame g.json c.reader ≡ ok (frame, r)
      → Greeted c (greet g frame (record c { reader = r }))
  unfolding greet
  greet-Greeted (ClientFrame.hello v) c r first = greet_hello-Greeted v c r first
  greet-Greeted _ c r first = fail-Refuses "authorization" (record c { reader = r })

  authorize-Greeted : (c : Connection) → Greeted c (authorize g c)
  unfolding authorize
  authorize-Greeted c = elim (Result-cases (read_client_frame g.json c.reader)) [
    | inr (x, e) ↦ rw (authorize, e) (fail-Refuses "framing" c)
    | inl ((f, r), e) ↦ rw (authorize, e) (greet-Greeted f c r e)
  ]

  -- Every connection to the agent ends. Either it is refused, which leaves at most one error frame
  -- and no act, or its first frame was a hello of this protocol and this boot; it is then welcomed
  -- and ends with at most one act, which is acknowledged only behind it and only if it worked.
  pub handle-Ends :
      (c : Connection)
      → (h : Handled) × (handle g c ≡ some h) × (Refuses c h ⊎ (IsAuthorized c × Welcomes c h))
  unfolding handle
  handle-Ends c = elim (Result-cases (authorize g c)) [
    | inr (h, e) ↦ (h, rw (handle, e) refl, inl (rw e at (authorize-Greeted c)))
    | inl (d, e) ↦
        let (may, greeted) : Greeted c (ok d) = rw e at (authorize-Greeted c) in
        let (h, ends, (tail, log, k)) = serve_unsized 0 d in
        (
          h,
          rw (handle, e) ends,
          inr (
            may,
            (tail, log ∙ ap (λ l. l ++ tail) greeted ∙ append_assoc c.log (welcome ∷ []) tail, k),
          ),
        )
  ]
