-- ===== src/Stage.antt =====
-- ops/ci/stage-protected-inputs.ts: the command line and the staging of inputs.
pub mod Options
pub mod Args
pub mod Readers
pub mod Accepted
pub mod Checked
pub mod Ends
pub mod System
pub mod Copy
pub mod Copied
pub mod Counted
pub mod Closed
pub mod Tree
pub mod Main
pub mod RoundTrip
pub mod NormalForm
pub mod Tests
pub mod CopyTests
pub mod TreeTests
