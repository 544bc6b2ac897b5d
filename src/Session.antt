-- ===== src/Session.antt =====
-- src/server/StreamingSession.h: one client's session. The state of the WebSocket is whether it is
-- open, with the messages that were written and the closes that were sent; a write on a closed stream
-- fails and is only logged. `Process` adds the singletons that all sessions share.
pub mod Run
pub mod Identifier
mod Tests
pub mod State
pub mod Samples
pub mod Receive
pub mod Flush
pub mod Steps
use transcription_api.Prelude.{}
