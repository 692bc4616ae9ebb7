-- ===== src/Stream.antt =====
-- ops/lib/cpa-stream.ts: the frames on the wire and the receiving of a file.
pub mod Wire
pub mod Receiver
pub mod Framing
pub mod Transfer
pub mod Whole
pub mod Ends
pub mod Profiles
pub mod Failures
pub mod Identity
pub mod Sender
pub mod Sent
pub mod Verify
pub mod Destination
pub mod Published
pub mod Observation
pub mod Progress
pub mod Tests
pub mod SendTests
pub mod CheckTests
