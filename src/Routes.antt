-- ===== src/Routes.antt =====
-- ops/legacy-routes/cpa-managed-codex-route-parser.ts: which accounts can serve a route.
pub mod Strings
pub mod Schema
pub mod Wildcard
pub mod Regexp
pub mod Config
pub mod Auths
pub mod Serve
pub mod Glob
pub mod Sorting
pub mod Eligible
pub mod Candidates
pub mod Exact
pub mod Inputs
pub mod Aliases
pub mod Tests
pub mod Literals
pub mod Material
pub mod Paths
pub mod Descents
pub mod Sets
pub mod Snapshots
pub mod SetTests
