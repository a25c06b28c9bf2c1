-- ===== src/Protocol.antt =====
-- src/protocol: the messages of the control channel and their bounded framing.
pub mod Message
pub mod Identity
pub mod Wire
pub mod Frame
