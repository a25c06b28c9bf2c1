-- ===== src/Protocol/Frame/Direction.antt =====
-- src/protocol/frame.rs: frames that are read in the direction in which they were not written.
use vivarium.Prelude.{ℕ, ◌≡◌, Bytes, ◌++◌, ok, err, arith, >>=-eq-ok}
use vivarium.Protocol.Message.{ClientFrame, AgentFrame}
use vivarium.Protocol.Wire.{Ending, Writer, framed, wrong_direction}
use vivarium.Protocol.Wire.RoundTrip.{write_raw-framed, read_raw-framed}
use vivarium.Protocol.Frame.{
  Json, client_payload, agent_payload, client_frame, agent_frame, write_client_frame,
  write_agent_frame, read_client_frame, read_agent_frame,
}

module _ (j : Json) where
  agent_frame-client_payload :
      (f : ClientFrame) (tag : ℕ) (payload : Bytes)
      → client_payload j f ≡ ok (tag, payload)
      → agent_frame j tag payload ≡ err wrong_direction
  unfolding client_payload agent_frame
  agent_frame-client_payload (ClientFrame.hello v) tag payload h = ground arith
  agent_frame-client_payload _ tag payload h = ground arith

  client_frame-agent_payload :
      (f : AgentFrame) (tag : ℕ) (payload : Bytes)
      → agent_payload j f ≡ ok (tag, payload)
      → client_frame j tag payload ≡ err wrong_direction
  unfolding agent_payload client_frame
  client_frame-agent_payload (AgentFrame.hello v) tag payload h = ground arith
  client_frame-agent_payload _ tag payload h = ground arith

  -- A frame that the client side wrote, read by the client side itself, is refused as one of the
  -- wrong direction.
  pub read_agent-write_client :
      (f : ClientFrame) (w w' : Writer)
      → write_client_frame j w f ≡ ok w'
      → (bs : Bytes) × (w'.written ≡ w.written ++ bs)
        × ((rest : Bytes) (e : Ending)
            → read_agent_frame j (record { bytes = bs ++ rest; ending = e }) ≡ err wrong_direction)
  unfolding write_client_frame read_agent_frame
  read_agent-write_client f w w' h =
      let ((tag, payload), chosen, sent) = >>=-eq-ok _ _ h in
      let (grown, small) = write_raw-framed w w' tag payload sent in
      (
        framed tag payload,
        grown,
        λ rest e. rw (
          read_raw-framed tag payload rest e small,
          agent_frame-client_payload f tag payload chosen,
        ),
      )

  -- A frame that the agent side wrote, read by the agent side itself, is refused as one of the
  -- wrong direction.
  pub read_client-write_agent :
      (f : AgentFrame) (w w' : Writer)
      → write_agent_frame j w f ≡ ok w'
      → (bs : Bytes) × (w'.written ≡ w.written ++ bs)
        × ((rest : Bytes) (e : Ending)
            → read_client_frame j (record { bytes = bs ++ rest; ending = e }) ≡ err wrong_direction)
  unfolding write_agent_frame read_client_frame
  read_client-write_agent f w w' h =
      let ((tag, payload), chosen, sent) = >>=-eq-ok _ _ h in
      let (grown, small) = write_raw-framed w w' tag payload sent in
      (
        framed tag payload,
        grown,
        λ rest e. rw (
          read_raw-framed tag payload rest e small,
          client_frame-agent_payload f tag payload chosen,
        ),
      )
