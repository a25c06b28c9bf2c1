-- ===== src/Protocol/Frame/RoundTrip.antt =====
-- src/protocol/frame.rs: frames that are written and read.
use vivarium.Prelude.{ℕ, ◌≡◌, ◌++◌, Bytes, ok, arith, >>=-eq-ok}
use vivarium.Protocol.Message.{ClientFrame, AgentFrame}
use vivarium.Protocol.Wire.{Ending, Writer, framed}
use vivarium.Protocol.Wire.RoundTrip.{write_raw-framed, read_raw-framed}
use vivarium.Protocol.Frame.{
  Json, JsonLaws, client_payload, agent_payload, client_frame, agent_frame, write_client_frame,
  write_agent_frame, read_client_frame, read_agent_frame,
}

module _ {j : Json} (laws : JsonLaws j) where
  client_frame-client_payload :
      (f : ClientFrame) (tag : ℕ) (payload : Bytes)
      → client_payload j f ≡ ok (tag, payload)
      → client_frame j tag payload ≡ ok f
  unfolding client_payload client_frame
  client_frame-client_payload (ClientFrame.hello v) tag payload h =
      ground (arith, laws.hello v payload)
  client_frame-client_payload (ClientFrame.stdin bs) tag payload h = ground arith
  client_frame-client_payload ClientFrame.ping tag payload h = ground arith
  client_frame-client_payload (ClientFrame.start v) tag payload h =
      ground (arith, laws.start v payload)
  client_frame-client_payload (ClientFrame.resize v) tag payload h =
      ground (arith, laws.resize v payload)
  client_frame-client_payload (ClientFrame.signal v) tag payload h =
      ground (arith, laws.signal v payload)
  client_frame-client_payload (ClientFrame.trim v) tag payload h =
      ground (arith, laws.trim v payload)
  client_frame-client_payload _ tag payload h = ground arith

  agent_frame-agent_payload :
      (f : AgentFrame) (tag : ℕ) (payload : Bytes)
      → agent_payload j f ≡ ok (tag, payload)
      → agent_frame j tag payload ≡ ok f
  unfolding agent_payload agent_frame
  agent_frame-agent_payload (AgentFrame.hello v) tag payload h =
      ground (arith, laws.hello v payload)
  agent_frame-agent_payload (AgentFrame.exit v) tag payload h = ground (arith, laws.exit v payload)
  agent_frame-agent_payload (AgentFrame.error v) tag payload h =
      ground (arith, laws.error v payload)
  agent_frame-agent_payload (AgentFrame.sessions v) tag payload h =
      ground (arith, laws.sessions v payload)
  agent_frame-agent_payload (AgentFrame.memory v) tag payload h =
      ground (arith, laws.memory v payload)
  agent_frame-agent_payload _ tag payload h = ground arith

  -- Where what serde_json renders parses back, every frame that the client side manages to write
  -- appends some bytes to the stream, from which the agent side reads exactly that frame, whatever
  -- follows them and however the stream ends.
  pub read-write_client_frame :
      (f : ClientFrame) (w w' : Writer)
      → write_client_frame j w f ≡ ok w'
      → (bs : Bytes) × (w'.written ≡ w.written ++ bs)
        × ((rest : Bytes) (e : Ending)
            → read_client_frame j (record { bytes = bs ++ rest; ending = e })
              ≡ ok (f, record { bytes = rest; ending = e }))
  unfolding write_client_frame read_client_frame
  read-write_client_frame f w w' h =
      let ((tag, payload), chosen, sent) = >>=-eq-ok _ _ h in
      let (grown, small) = write_raw-framed w w' tag payload sent in
      (
        framed tag payload,
        grown,
        λ rest e. rw (
          read_raw-framed tag payload rest e small,
          client_frame-client_payload f tag payload chosen,
        ),
      )

  -- Where what serde_json renders parses back, every frame that the agent side manages to write
  -- appends some bytes to the stream, from which the client side reads exactly that frame,
  -- whatever follows them and however the stream ends.
  pub read-write_agent_frame :
      (f : AgentFrame) (w w' : Writer)
      → write_agent_frame j w f ≡ ok w'
      → (bs : Bytes) × (w'.written ≡ w.written ++ bs)
        × ((rest : Bytes) (e : Ending)
            → read_agent_frame j (record { bytes = bs ++ rest; ending = e })
              ≡ ok (f, record { bytes = rest; ending = e }))
  unfolding write_agent_frame read_agent_frame
  read-write_agent_frame f w w' h =
      let ((tag, payload), chosen, sent) = >>=-eq-ok _ _ h in
      let (grown, small) = write_raw-framed w w' tag payload sent in
      (
        framed tag payload,
        grown,
        λ rest e. rw (
          read_raw-framed tag payload rest e small,
          agent_frame-agent_payload f tag payload chosen,
        ),
      )
