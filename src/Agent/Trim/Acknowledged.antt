-- ===== src/Agent/Trim/Acknowledged.antt =====
-- A connection over the trim of src/bin/vivarium-guest-agent/control.rs.
use mathlib.Core.Option.{some-injective}
use vivarium.Prelude.{
  ◌≡◌, ◌∙◌, sym, inl, inr, Bool, true, false, Option, some, List, [], Bytes, Some,
}
use vivarium.Protocol.Message.{TrimRequest, AgentFrame}
use vivarium.Agent.Control.{Effect, trimmed, Guest, Connection, Handled, handle}
use vivarium.Agent.Control.Answers.{
  written, Ends, failed, pinged, counted, reported, stopping, trimming, running,
}
use vivarium.Agent.Control.Handling.{IsAuthorized, handle-Ends}
use vivarium.Agent.Trim.{refuses, run_trim}
use vivarium.Agent.Trim.Marker.{IsOwn, refuses_iff, run_trim_iff}

abbrev pub Trims : TrimRequest → List Effect → Type 0
Trims r log = Some (λ e. e ≡ trimmed r) log

module _ (r : TrimRequest) where
  written-Trims : (told : Bool) (frame : AgentFrame) → Trims r (written told frame) → ⊥
  written-Trims true frame (inl e) = cc e
  written-Trims true frame (inr h) = h
  written-Trims false frame h = h

  Ends-Trims :
      (g : Guest) (good : Bool) (log : List Effect)
      → Ends g good log
      → Trims r log
      → g.trim r ≡ true
  Ends-Trims g good log (failed code told) h = absurd (written-Trims told _ h)
  Ends-Trims g good log (pinged b) h = absurd (written-Trims b _ h)
  Ends-Trims g good log (counted b) h = absurd (written-Trims b _ h)
  Ends-Trims g good log (reported report b e) h = absurd (written-Trims b _ h)
  Ends-Trims g good log (stopping b e) (inl k) = absurd (cc k)
  Ends-Trims g good log (stopping b e) (inr h) = absurd (written-Trims b _ h)
  Ends-Trims g good log (trimming s b e) (inl k) = cc (k, e)
  Ends-Trims g good log (trimming s b e) (inr h) = absurd (written-Trims b _ h)
  Ends-Trims g good log (running s size) (inl k) = absurd (cc k)
  Ends-Trims g good log (running s size) (inr h) = absurd h

-- Where the trim that a connection is given is `run_trim`, a connection that did a trim opened
-- with an authorized hello, its request was not one to refuse, and some look found a marker that
-- opens with this trim's own token.
pub handle-Trims :
    (g : Guest) (staged renamed : Bool) (own : Bytes) (looks : List (Option Bytes)) (c : Connection)
    (h : Handled) (r : TrimRequest)
    → ((q : TrimRequest) → g.trim q ≡ run_trim staged renamed own q.mountpoints looks)
    → c.log ≡ []
    → handle g c ≡ some h
    → Trims r h.log
    → IsAuthorized g c × (refuses r.mountpoints ≡ false) × Some (IsOwn own) looks
handle-Trims g staged renamed own looks c h r same fresh ends trims =
    let (k, again, outcome) = handle-Ends g c in
    let one : k ≡ h = some-injective k h (sym again ∙ ends) in
    let kept : Trims r k.log = rw one trims in
    elim outcome [
      | inl (bad, (code, told, log)) ↦ absurd (written-Trims r told _ (rw (log, fresh) at kept))
      | inr (may, (tail, log, how)) ↦ elim (rw (log, fresh) at kept) [
        | inl e ↦ absurd (cc e)
        | inr behind ↦
            let worked = sym (same r) ∙ Ends-Trims r g k.good tail how behind in
            let (named, whole, on, moved, found) =
              (run_trim_iff staged renamed own r.mountpoints looks).0 worked in
            (may, (refuses_iff r.mountpoints).1 (named, whole), found)
      ]
    ]
